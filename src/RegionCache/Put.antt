-- ===== src/RegionCache/Put.antt =====
-- caches.go (put of keyRegionCache), over a list of regions.
use gohbase.Prelude.{
  Pairwise-insert, Pairwise-at, ◌+◌, ◌≤◌, ◌≡◌, refl, sym, ap, subst, ◌∙◌, inl, inr, true, false,
  none, some, List, [], ◌∷◌, ◌++◌, append-nil, append_assoc, arith, if◌then◌else◌, Bool-cases,
  length, All, All-append_left, All-append_right, ok,
}
use gohbase.Region.{Region, fully_qualified_table, max_int16, is_region_overlap}
use gohbase.RegionCache.{Entry, Tree, Placed, delete_all, put}
use gohbase.RegionCache.Entries.{IsNamed, IsEntry, AreEntries}
use gohbase.RegionCache.Overlapping.{overlapping}
use gohbase.RegionCache.Overlaps.{get_overlaps-overlapping}
use gohbase.RegionCache.Names.{name-Compares}
use gohbase.RegionCache.Sorted.{
  Below, AreSorted, entries-AreSorted, NamePlace, absent, present, name_place, keep, keep-append,
  All-keep, overlapping-append, keep-AreEntries,
}
use gohbase.RegionCache.Laws.{TreeLaws, Splits}
use gohbase.RegionCache.Listed.{
  find_named, insert_entry, ids_up_to, put_entries, any_younger-ids_up_to, ids_up_to-All,
  find_named-absent, find_named-present, insert_entry-between, splits,
}

module _ (tree : Tree) (laws : TreeLaws tree) where
  open tree use {Root, find, set, delete}
  open laws use {entries, find_present, find_absent, set_absent, delete_present, delete_absent}

  delete_all-append :
      (t : Root) (os os' : List Region)
      → delete_all tree t (os ++ os') ≡ delete_all tree (delete_all tree t os) os'
  unfolding delete_all
  delete_all-append t [] os' = refl
  delete_all-append t (o ∷ os) os' = delete_all-append (delete t o.name).0 os os'

  -- Deleting the regions that overlap, one after the other, out of a part of the entries.
  delete_all-keep :
      (reg : Region) (t : Root) (pre rest post : List Entry)
      → entries t ≡ pre ++ (rest ++ post)
      → AreSorted (pre ++ (rest ++ post))
      → All IsEntry rest
      → (entries (delete_all tree t (overlapping reg rest)) ≡ pre ++ (keep reg rest ++ post))
        × AreSorted (pre ++ (keep reg rest ++ post))
  unfolding delete_all overlapping keep
  delete_all-keep reg t pre [] post split sorted named = (split, sorted)
  delete_all-keep reg t pre (e ∷ rest) post split sorted ((stored, he), named) =
      elim (Bool-cases (is_region_overlap e.1 reg)) [
        | inl shares ↦
            let (behind, (ahead, sorted')) =
              Pairwise-at (λ e e'. Below e.0 e'.0) pre (rest ++ post) e sorted in
            let removed =
              delete_present t e.1.name pre e.1 (rest ++ post)
                (split ∙ ap (λ k. pre ++ ((k, e.1) ∷ (rest ++ post))) stored)
                (subst (λ k. Splits k pre (rest ++ post)) stored
                  (splits e.0 pre (rest ++ post) behind ahead))
                (name-Compares e.1 he) in
            rw shares
              (delete_all-keep reg (delete t e.1.name).0 pre rest post removed.0 sorted' named)
        | inr apart ↦
            let around = append_assoc pre (e ∷ []) (rest ++ post) in
            let (left, sorted') =
              delete_all-keep reg t (pre ++ (e ∷ [])) rest post (split ∙ sym around)
                (subst AreSorted (sym around) sorted) named in
            let behind = append_assoc pre (e ∷ []) (keep reg rest ++ post) in
            rw apart (left ∙ behind, subst AreSorted behind sorted')
      ]

  -- The entries once a new region has taken the place of those that overlap it.
  replaced-entries :
      (t : Root) (reg : Region) (before after : List Entry)
      → entries t ≡ before ++ after
      → AreEntries (entries t)
      → All (λ e. Below e.0 reg.name) before
      → All (λ e. Below reg.name e.0) after
      → entries (delete_all tree (set t reg.name reg) (overlapping reg (entries t)))
        ≡ keep reg before ++ ((reg.name, reg) ∷ keep reg after)
  replaced-entries t reg before after split cached behind ahead =
      let (named, disjoint) = subst AreEntries split cached in
      let n : Entry = (reg.name, reg) in
      let added : entries (set t reg.name reg) ≡ before ++ (n ∷ after) =
        set_absent t reg.name reg before after split (splits reg.name before after behind ahead) in
      let sorted : AreSorted (before ++ (n ∷ after)) =
        Pairwise-insert (λ e e'. Below e.0 e'.0) before after n
          (entries-AreSorted (before ++ after) (named, disjoint)) behind ahead in
      let (once, sorted') =
        delete_all-keep reg (set t reg.name reg) [] before (n ∷ after) added sorted
          (All-append_left IsEntry before after named) in
      let shape : keep reg before ++ (n ∷ after) ≡ (keep reg before ++ (n ∷ [])) ++ (after ++ []) =
        ap (λ ys. keep reg before ++ (n ∷ ys)) (sym (append-nil after))
        ∙ sym (append_assoc (keep reg before) (n ∷ []) (after ++ [])) in
      let (twice, _) =
        delete_all-keep reg (delete_all tree (set t reg.name reg) (overlapping reg before))
          (keep reg before ++ (n ∷ [])) after [] (once ∙ shape) (subst AreSorted shape sorted')
          (All-append_right IsEntry before after named) in
      ap (λ os. entries (delete_all tree (set t reg.name reg) os))
        (ap (overlapping reg) split ∙ overlapping-append reg before after)
      ∙ ap entries
          (delete_all-append (set t reg.name reg) (overlapping reg before) (overlapping reg after))
      ∙ twice
      ∙ append_assoc (keep reg before) (n ∷ []) (keep reg after ++ [])
      ∙ ap (λ ys. keep reg before ++ (n ∷ ys)) (append-nil (keep reg after))

  -- put ends without a panic, leaves the entries stored under their names, in order and without
  -- overlaps, and does to them what its comment says: a region whose name is there is reported and
  -- changes nothing; otherwise, what overlaps the new region is reported, and if none of it has a
  -- greater id than the new region, all of it is removed and marked as dead, and the new region is
  -- added. What is marked as dead has no greater id. The new region is named as HBase names it and its
  -- search key is not so long that it is shortened.
  pub put-put_entries :
      (t : Root) (reg : Region)
      → IsNamed reg
      → length (fully_qualified_table reg) + length reg.start_key + 3 ≤ max_int16
      → AreEntries (entries t)
      → (p : Placed tree) × (put tree t reg ≡ ok p)
        × ((entries p.root, (p.overlaps, p.replaced)) ≡ put_entries reg (entries t))
        × (p.dead ≡ (if p.replaced then p.overlaps else []))
        × All (λ o. o.id ≤ reg.id) p.dead
        × AreEntries (entries p.root)
  unfolding put put_entries
  put-put_entries t reg h short cached = by_place (name_place reg h (entries t) cached)
    where
      by_place :
          NamePlace reg.name (entries t)
          → (p : Placed tree) × (put tree t reg ≡ ok p)
            × ((entries p.root, (p.overlaps, p.replaced)) ≡ put_entries reg (entries t))
            × (p.dead ≡ (if p.replaced then p.overlaps else []))
            × All (λ o. o.id ≤ reg.id) p.dead
            × AreEntries (entries p.root)
      by_place (present before v after split behind ahead) =
          let there =
            find_present t reg.name before v after split (splits reg.name before after behind ahead)
              (name-Compares reg h) in
          let named : find_named reg.name (entries t) ≡ some v =
            ap (find_named reg.name) split ∙ find_named-present reg.name before v after behind in
          (
            record { root = t; overlaps = v ∷ []; replaced = false; dead = [] },
            ground (arith, there),
            ground (arith, named),
            refl,
            tt,
            cached,
          )
      by_place (absent before after split behind ahead) =
          let missing =
            find_absent t reg.name before after split (splits reg.name before after behind ahead) in
          let unnamed : find_named reg.name (entries t) ≡ none =
            ap (find_named reg.name) split ∙ find_named-absent reg.name before after behind ahead in
          let overlaps = get_overlaps-overlapping tree reg h laws t short cached in
          let ids = any_younger-ids_up_to reg (overlapping reg (entries t)) in
          elim (Bool-cases (ids_up_to reg.id (overlapping reg (entries t)))) [
            | inr younger ↦ (
              record {
                root = t;
                overlaps = overlapping reg (entries t);
                replaced = false;
                dead = [];
              },
              ground (arith, missing, overlaps, ids, younger),
              ground (arith, unnamed, younger),
              refl,
              tt,
              cached,
            )
            | inl older ↦
                let left = replaced-entries t reg before after split cached behind ahead in
                let inserted : insert_entry (reg.name, reg) (keep reg (entries t))
                    ≡ keep reg before ++ ((reg.name, reg) ∷ keep reg after) =
                  ap (λ es. insert_entry (reg.name, reg) (keep reg es)) split
                  ∙ ap (insert_entry (reg.name, reg)) (keep-append reg before after)
                  ∙ insert_entry-between (reg.name, reg) (keep reg before) (keep reg after)
                      (All-keep (λ e. Below e.0 reg.name) reg before behind)
                      (All-keep (λ e. Below reg.name e.0) reg after ahead) in
                (
                  record {
                    root = delete_all tree (set t reg.name reg) (overlapping reg (entries t));
                    overlaps = overlapping reg (entries t);
                    replaced = true;
                    dead = overlapping reg (entries t);
                  },
                  ground (arith, missing, overlaps, ids, older),
                  ground (arith, unnamed, older, left ∙ sym inserted),
                  refl,
                  ids_up_to-All reg.id (overlapping reg (entries t)) (ground arith),
                  subst AreEntries (sym left) (
                      keep-AreEntries reg h before after (subst AreEntries split cached) behind
                        ahead),
                )
          ]
