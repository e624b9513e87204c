-- ===== src/RegionCache/Del.antt =====
-- caches.go (del of keyRegionCache).
use gohbase.Prelude.{
  Pairwise-at, ◌≡◌, refl, sym, ap, subst, ◌∙◌, Bool, true, false, Option, none, some, List, [], ◌∷◌,
  ◌++◌, arith, if◌then◌else◌, All, All-append, All-append_left, All-append_right,
}
use gohbase.Bytes.{Bytes}
use gohbase.Bytes.Compare.{equal, equal_iff}
use gohbase.Region.{Region}
use gohbase.RegionCache.{Entry, Tree, del}
use gohbase.RegionCache.Entries.{IsNamed, IsEntry, AreEntries, Before}
use gohbase.RegionCache.Names.{name-Compares}
use gohbase.RegionCache.Sorted.{Below, absent, present, name_place}
use gohbase.RegionCache.Listed.{
  find_named, find_named-absent, find_named-present, splits, distinct, distinct_flip,
}
use gohbase.RegionCache.Laws.{TreeLaws}

-- The entries without the one that has a name.
unfoldable pub remove_named : Bytes → List Entry → List Entry
remove_named name [] = []
remove_named name (e ∷ es) = if equal e.0 name then es else e ∷ remove_named name es

unfoldable pub is_some : Option Region → Bool
is_some none = false
is_some (some reg) = true

remove_named-absent :
    (name : Bytes) (before after : List Entry)
    → All (λ e. Below e.0 name) before
    → All (λ e. Below name e.0) after
    → remove_named name (before ++ after) ≡ before ++ after
unfolding remove_named
remove_named-absent name [] [] behind ahead = refl
remove_named-absent name [] (e ∷ after) behind (a, ahead) =
    ground (arith, distinct_flip name e.0 a, remove_named-absent name [] after tt ahead)
remove_named-absent name (e ∷ before) after (b, behind) ahead =
    ground (arith, distinct e.0 name b, remove_named-absent name before after behind ahead)

remove_named-present :
    (name : Bytes) (before : List Entry) (v : Region) (after : List Entry)
    → All (λ e. Below e.0 name) before
    → remove_named name (before ++ ((name, v) ∷ after)) ≡ before ++ after
unfolding remove_named
remove_named-present name [] v after behind = ground (arith, (equal_iff name name).1 refl)
remove_named-present name (e ∷ before) v after (b, behind) =
    ground (arith, distinct e.0 name b, remove_named-present name before v after behind)

-- del takes exactly the entry with the region's name out of the cache, if there is one, tells
-- whether there was one, and leaves the entries stored under their names, in order and without
-- overlaps. The region is named as HBase names it.
pub del-remove_named :
    (tree : Tree) (laws : TreeLaws tree) (t : tree.Root) (reg : Region)
    → IsNamed reg
    → AreEntries (laws.entries t)
    → (laws.entries (del tree t reg).0 ≡ remove_named reg.name (laws.entries t))
      × ((del tree t reg).1.0 ≡ is_some (find_named reg.name (laws.entries t)))
      × AreEntries (laws.entries (del tree t reg).0)
unfolding del is_some
del-remove_named tree laws t reg h cached = elim (name_place reg h (laws.entries t) cached) [
  | absent before after split behind ahead ↦
      let (same, missed) =
        laws.delete_absent t reg.name before after split
          (splits reg.name before after behind ahead) in
      (
        same
            ∙ split
            ∙ sym (remove_named-absent reg.name before after behind ahead)
            ∙ ap (remove_named reg.name) (sym split),
        missed
            ∙ ap is_some (
                sym (
                  ap (find_named reg.name) split
                  ∙ find_named-absent reg.name before after behind ahead)),
        subst AreEntries (sym same) cached,
      )
  | present before v after split behind ahead ↦
      let (removed, hit) =
        laws.delete_present t reg.name before v after split
          (splits reg.name before after behind ahead) (name-Compares reg h) in
      let (named, disjoint) = subst AreEntries split cached in
      let left : AreEntries (before ++ after) = (
        All-append IsEntry before after (All-append_left IsEntry before _ named)
            (All-append_right IsEntry before _ named).1,
        (Pairwise-at (λ e e'. Before e.1 e'.1) before after (reg.name, v) disjoint).1.1,
      ) in
      (
        removed
            ∙ sym (remove_named-present reg.name before v after behind)
            ∙ ap (remove_named reg.name) (sym split),
        hit
            ∙ ap is_some (
                sym (
                  ap (find_named reg.name) split
                  ∙ find_named-present reg.name before v after behind)),
        subst AreEntries (sym removed) left,
      )
]
