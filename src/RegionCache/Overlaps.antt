-- ===== src/RegionCache/Overlaps.antt =====
-- caches.go (getOverlaps), over a list of regions.
use gohbase.Prelude.{
  All-map, ℕ, zero, suc, ◌+◌, ◌≤◌, ◌<◌, ◌≡◌, refl, sym, ap, subst, ◌∙◌, ◌≢◌, inl, inr, false,
  Option, none, some, List, [], ◌∷◌, arith, ◌==◌, length, All, List-cases, ok, or_panic,
}
use Prim.Native.Nat.{Ordering}
use gohbase.RegionName.Order.{region_name}
use gohbase.Region.{Region, fully_qualified_table, colon, max_int16, is_region_overlap}
use gohbase.Region.SearchKey.{search_key-region_name}
use gohbase.RegionCache.{Entry, Tree, overlaps_loop, first_overlap, reposition, get_overlaps}
use gohbase.RegionCache.Entries.{IsNamed, IsEntry, AreEntries, Before, unwind, position}
use gohbase.RegionCache.Overlapping.{
  overlapping, Downward, overlapping-none, overlapping-unwind, ahead-Downward, overlap-behind,
}
use gohbase.RegionCache.Place.{Place-of, All-unwind, AreDisjoint-unwind}
use gohbase.RegionCache.Laws.{TreeLaws, Stands, Enumerates, First, seek-Place}

length-unwind :
    (before after : List Entry) → length (unwind before after) ≡ length before + length after
length-unwind [] after = omega arith
length-unwind (e ∷ before) after = length-unwind before (e ∷ after) ∙ omega arith

module _ (tree : Tree) (reg : Region) where
  open tree use {Root, Enumerator, len, seek, seek_first, prev, next}

  -- What a step of an enumerator gave, and what comes.
  abbrev Walked : Option Entry × Enumerator → List Entry → Type 0
  Walked step [] = step.0 ≡ none
  Walked step (x ∷ xs) = (step.0 ≡ some x) × Enumerates tree step.1 xs

  next-Walked : (xs : List Entry) (e : Enumerator) → Enumerates tree e xs → Walked (next e) xs
  unfolding Enumerates
  next-Walked [] e h = h
  next-Walked (x ∷ xs) e h = h

  overlaps_loop-overlapping :
      (fuel : ℕ) (xs : List Entry) (step : Option Entry × Enumerator)
      → length xs < fuel
      → Downward reg xs
      → Walked step xs
      → overlaps_loop tree fuel reg step ≡ ok (overlapping reg xs)
  unfolding overlaps_loop overlapping
  overlaps_loop-overlapping zero xs step lt down walk = absurd (omega (arith, lt))
  overlaps_loop-overlapping (suc fuel) [] (none, e) lt down walk = refl
  overlaps_loop-overlapping (suc fuel) [] (some (k, v), e) lt down walk = absurd (ground arith)
  overlaps_loop-overlapping (suc fuel) (x ∷ xs) (none, e) lt down (walk, rest) =
      absurd (ground arith)
  overlaps_loop-overlapping (suc fuel) (x ∷ xs) (some (k, v), e) lt (last, down) (walk, rest) =
      let none_left : is_region_overlap x.1 reg ≡ false → overlapping reg xs ≡ [] =
        λ apart. overlapping-none reg xs (last apart) in
      ground (
        arith,
        walk,
        overlaps_loop-overlapping fuel xs (next e) (omega (arith, lt)) down (next-Walked xs e rest),
        none_left,
      )

  first_overlap-overlapping :
      (fuel : ℕ) (x : Entry) (xs : List Entry) (step : Option Entry × Enumerator)
      → length xs < fuel
      → Downward reg xs
      → Walked step (x ∷ xs)
      → first_overlap tree fuel reg step ≡ ok (overlapping reg (x ∷ xs))
  unfolding first_overlap overlapping
  first_overlap-overlapping fuel x xs (none, e) lt down (walk, rest) = absurd (ground arith)
  first_overlap-overlapping fuel x xs (some (k, v), e) lt down (walk, rest) =
      ground
        (arith, walk, overlaps_loop-overlapping fuel xs (next e) lt down (next-Walked xs e rest))

  reposition-some :
      (t : Root) (step : Option Entry × Enumerator) (w : Entry)
      → step.0 ≡ some w
      → reposition tree t step ≡ ok step.1
  unfolding reposition
  reposition-some t (some entry, e) w at = refl
  reposition-some t (none, e) w at = absurd (ground arith)

  -- An enumerator from which the regions that overlap can be collected.
  record Started (e : Enumerator) (es : List Entry) : Type 0 where
    x : Entry
    xs : List Entry
    walk : Enumerates tree e (x ∷ xs)
    down : Downward reg xs
    same : overlapping reg es ≡ overlapping reg (x ∷ xs)
    shorter : length xs ≤ length es

  reposition-restart :
      (t : Root) (step : Option Entry × Enumerator) (es : List Entry)
      → step.0 ≡ none
      → First tree (seek_first t) es
      → es ≢ []
      → (e : Enumerator) × (reposition tree t step ≡ ok e) × Enumerates tree e es
  unfolding reposition First
  reposition-restart t (some entry, e) es ended first full = absurd (ground arith)
  reposition-restart t (none, e) es ended first full = started (seek_first t) first
    where
      started :
          (o : Option Enumerator)
          → First tree o es
          → (e : Enumerator) × (or_panic {E = Unit {0}} o ≡ ok e) × Enumerates tree e es
      started none first = absurd (full first)
      started (some e) first = (e, refl, first)

  module _ (h : IsNamed reg) (laws : TreeLaws tree) (t : Root) where
    open laws use {entries, first_entries}

    reposition-Started :
        (before after : List Entry) (e : Enumerator)
        → entries t ≡ unwind before after
        → entries t ≢ []
        → AreEntries (unwind before after)
        → All (λ e. position (fully_qualified_table reg) reg.start_key e.1 ≡ Ordering.gt) before
        → All (λ e. position (fully_qualified_table reg) reg.start_key e.1 ≡ Ordering.lt) after
        → Stands tree e before after
        → (e' : Enumerator) × (reposition tree t (next (prev e).1) ≡ ok e')
          × Started e' (unwind before after)
    unfolding Stands Enumerates
    reposition-Started [] [] e split full cached behind ahead stands = absurd (full split)
    reposition-Started [] (x ∷ after) e split full cached behind ahead (before_first, ended) =
        let (e', ran, walk) =
          reposition-restart t (next (prev e).1) (x ∷ after) ended
            (subst (First tree (seek_first t)) split (first_entries t)) (λ n. full (split ∙ n)) in
        (
          e',
          ran,
          record {
            x = x;
            xs = after;
            walk = walk;
            down = (ahead-Downward reg h (x ∷ after) cached ahead).1;
            same = refl;
            shorter = omega arith;
          },
        )
    reposition-Started (x ∷ []) after e split full (named, disjoint) behind ahead (_, ended) =
        let (e', ran, walk) =
          reposition-restart t (next (prev e).1) (x ∷ after) ended
            (subst (First tree (seek_first t)) split (first_entries t)) (λ n. full (split ∙ n)) in
        (
          e',
          ran,
          record {
            x = x;
            xs = after;
            walk = walk;
            down = ahead-Downward reg h after (named.1, disjoint.1) ahead;
            same = refl;
            shorter = omega arith;
          },
        )
    reposition-Started (x ∷ w ∷ before) after e split full (named, disjoint) (gt, behind) ahead
          (_, (at_w, walk)) =
        let (named_before, named_rest) = All-unwind IsEntry (w ∷ before) (x ∷ after) named in
        let (each, rest) = AreDisjoint-unwind (w ∷ before) (x ∷ after) disjoint in
        (
          (next (prev e).1).1,
          reposition-some t (next (prev e).1) w at_w,
          record {
            x = x;
            xs = after;
            walk = walk;
            down = ahead-Downward reg h after (named_rest.1, rest.1) ahead;
            same =
                overlapping-unwind reg (w ∷ before) (x ∷ after)
                  (apart x gt (w ∷ before) named_before (All-map (λ y b. b.0) (w ∷ before) each));
            shorter = omega (arith, length-unwind (x ∷ w ∷ before) after);
          },
        )
      where
        apart :
            (x : Entry)
            → position (fully_qualified_table reg) reg.start_key x.1 ≡ Ordering.gt
            → (ys : List Entry) → All IsEntry ys
            → All (λ y. Before y.1 x.1) ys
            → All (λ y. is_region_overlap y.1 reg ≡ false) ys
        apart x gt [] named each = tt
        apart x gt (y ∷ ys) (hy, named) (b, each) =
            (overlap-behind reg h y.1 x.1 hy.1 b gt, apart x gt ys named each)

    -- getOverlaps ends without a panic and returns the cached regions that overlap a region, all of
    -- them and in their order, wherever its start key stands among the cached ones, before the first
    -- of them too. The cached regions are stored under their names, in order, and do not overlap
    -- each other, and the search key is not so long that it is shortened.
    pub get_overlaps-overlapping :
        length (fully_qualified_table reg) + length reg.start_key + 3 ≤ max_int16
        → AreEntries (entries t)
        → get_overlaps tree t reg ≡ ok (overlapping reg (entries t))
    unfolding get_overlaps overlapping
    get_overlaps-overlapping short cached = elim (List-cases (entries t)) [
      | inl empty ↦ ground (arith, ap (overlapping reg) empty, ap length empty, laws.len_entries t)
      | inr (x, xs, some_entry) ↦ collected x xs some_entry
    ]
      where
        collected :
            (x : Entry) (xs : List Entry)
            → entries t ≡ x ∷ xs
            → get_overlaps tree t reg ≡ ok (overlapping reg (entries t))
        collected x xs some_entry =
            let full : entries t ≢ [] = λ empty. ground (arith, empty, some_entry) in
            let place = Place-of (fully_qualified_table reg) reg.start_key (entries t) cached in
            let searched = region_name (fully_qualified_table reg) reg.start_key (colon ∷ []) in
            let (missed, stands) =
              seek-Place tree laws t (fully_qualified_table reg) reg.start_key h.lacks_comma short
                cached.0 place in
            let (e, ran, s) =
              reposition-Started place.before place.after (seek t searched).0 place.split full
                (subst AreEntries place.split cached) place.behind place.ahead stands in
            let shorter : length s.xs < suc (len t) =
              omega (arith, s.shorter, ap length place.split, laws.len_entries t) in
            let found : first_overlap tree (suc (len t)) reg (next e)
                ≡ ok (overlapping reg (entries t)) =
              first_overlap-overlapping (suc (len t)) s.x s.xs (next e) shorter s.down
                (next-Walked (s.x ∷ s.xs) e s.walk)
              ∙ ap ok (sym s.same ∙ ap (overlapping reg) (sym place.split)) in
            let nonempty : (len t == 0) ≡ false =
              ground (arith, laws.len_entries t, ap length some_entry) in
            ground (
              arith,
              nonempty,
              search_key-region_name (fully_qualified_table reg) reg.start_key short,
              missed,
              ran,
              found,
            )
