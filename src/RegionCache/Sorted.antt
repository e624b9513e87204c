-- ===== src/RegionCache/Sorted.antt =====
-- Entries in the order of their names: where a new region's name belongs, and which entries stay
-- when it is added.
use gohbase.Prelude.{
  All-both, Pairwise, Pairwise-insert, All-map, Pairwise-map, ◌≡◌, refl, sym, ap, subst, ◌∙◌, ◌⊎◌,
  inl, inr, true, false, List, [], ◌∷◌, ◌++◌, arith, if◌then◌else◌, Bool-cases, All, All-append,
  All-append_left, All-append_right,
}
use Prim.Native.Nat.{Ordering}
use gohbase.Bytes.{Bytes}
use gohbase.Bytes.Compare.{flip}
use gohbase.Region.{Region, is_region_overlap}
use gohbase.Region.Overlap.{SameTable, Holds, is_region_overlap_iff}
use gohbase.RegionCache.{Entry}
use gohbase.RegionCache.Entries.{IsNamed, IsEntry, Before, AreEntries, AreDisjoint}
use gohbase.RegionCache.Names.{
  rank, rank-Compares, rank-flip, rank-eq, rank-Before, rank_trans, rank-apart,
}
use gohbase.RegionCache.Overlapping.{overlapping}
use gohbase.RegionCache.Laws.{Compares}

-- One key stands before another one.
abbrev pub Below : Bytes → Bytes → Type 0
Below a b = Compares a b Ordering.lt × Compares b a Ordering.gt

abbrev pub AreSorted : List Entry → Type 0
AreSorted = Pairwise (λ e e'. Below e.0 e'.0)

pub Compares-unique : (a b : Bytes) (o o' : Ordering) → Compares a b o → Compares a b o' → o ≡ o'
Compares-unique a b o o' (d, ran, s) (d', ran', s') = ground (arith, ran, ran', s, s')

rank-Below :
    (a b : Region) (ha : IsNamed a) (hb : IsNamed b)
    → rank ha hb ≡ Ordering.lt
    → Below a.name b.name
rank-Below a b ha hb lt = (
  subst (Compares a.name b.name) lt (rank-Compares a b ha hb),
  subst (Compares b.name a.name) (rank-flip a b ha hb ∙ ap flip lt) (rank-Compares b a hb ha),
)

entries-Below : (a b : Entry) → IsEntry a → IsEntry b → Before a.1 b.1 → Below a.0 b.0
entries-Below a b (sa, ha) (sb, hb) before =
    rw (sa, sb) (rank-Below a.1 b.1 ha hb (rank-Before a.1 b.1 ha hb before))

pub entries-AreSorted : (es : List Entry) → AreEntries es → AreSorted es
entries-AreSorted es (named, disjoint) = Pairwise-map IsEntry entries-Below es named disjoint

-- Where the name of a region belongs.
pub data NamePlace (name : Bytes) (es : List Entry) : Type 0 where
  absent :
      (before after : List Entry)
      → es ≡ before ++ after
      → All (λ e. Below e.0 name) before
      → All (λ e. Below name e.0) after
      → NamePlace name es
  present :
      (before : List Entry) (reg : Region) (after : List Entry)
      → es ≡ before ++ ((name, reg) ∷ after)
      → All (λ e. Below e.0 name) before
      → All (λ e. Below name e.0) after
      → NamePlace name es

module _ (reg : Region) (h : IsNamed reg) where
  above_rest :
      (e : Entry) (es : List Entry)
      → (he : IsNamed e.1) → rank h he ≡ Ordering.lt
      → All IsEntry es
      → All (λ e'. Before e.1 e'.1) es
      → All (λ e'. Below reg.name e'.0) es
  above_rest e [] he lt named each = tt
  above_rest e (y ∷ es) he lt ((stored, hy), named) (b, each) = (
    subst (Below reg.name) (sym stored)
        (rank-Below reg y.1 h hy (rank_trans reg e.1 y.1 h he hy lt b)),
    above_rest e es he lt named each,
  )

  rank-cases :
      {e : Region} (he : IsNamed e)
      → (rank he h ≡ Ordering.lt) ⊎ ((rank he h ≡ Ordering.eq) ⊎ (rank h he ≡ Ordering.lt))
  rank-cases {e} he = ground (arith, rank-flip e reg he h)

  pub name_place : (es : List Entry) → AreEntries es → NamePlace reg.name es
  name_place [] cached = absent [] [] refl tt tt
  name_place (e ∷ es) (((stored, he), named), (each, disjoint)) = elim (rank-cases he) [
    | inl lt ↦
        let below : Below e.0 reg.name =
          subst (λ k. Below k reg.name) (sym stored) (rank-Below e.1 reg he h lt) in
        elim (name_place es (named, disjoint)) [
          | absent before after split behind ahead ↦
              absent (e ∷ before) after (ap (◌∷◌ e) split) (below, behind) ahead
          | present before v after split behind ahead ↦
              present (e ∷ before) v after (ap (◌∷◌ e) split) (below, behind) ahead
        ]
    | inr (inl same) ↦
        let name : e.0 ≡ reg.name = stored ∙ rank-eq e.1 reg he h same in
        present [] e.1 es (ap (λ k. (k, e.1) ∷ es) name) tt (
          All-map (λ y b. subst (λ k. Below k y.0) name b) es
            (entries-AreSorted (e ∷ es) (((stored, he), named), (each, disjoint))).0)
    | inr (inr gt) ↦ absent [] (e ∷ es) refl tt (
      subst (Below reg.name) (sym stored) (rank-Below reg e.1 h he gt),
      above_rest e es he gt named each,
    )
  ]

-- The entries that do not overlap a region.
unfoldable pub keep : Region → List Entry → List Entry
keep reg [] = []
keep reg (e ∷ es) = if is_region_overlap e.1 reg then keep reg es else e ∷ keep reg es

pub All-keep {κ} :
    (P : Entry → Type κ) (reg : Region) (es : List Entry) → All P es → All P (keep reg es)
unfolding keep
All-keep P reg [] h = tt
All-keep P reg (e ∷ es) (he, h) = elim (Bool-cases (is_region_overlap e.1 reg)) [
  | inl shares ↦ rw shares (All-keep P reg es h)
  | inr apart ↦ rw apart (he, All-keep P reg es h)
]

Pairwise-keep {κ} :
    (R : Entry → Entry → Type κ) (reg : Region) (es : List Entry)
    → Pairwise R es
    → Pairwise R (keep reg es)
unfolding keep
Pairwise-keep R reg [] h = tt
Pairwise-keep R reg (e ∷ es) (he, h) = elim (Bool-cases (is_region_overlap e.1 reg)) [
  | inl shares ↦ rw shares (Pairwise-keep R reg es h)
  | inr apart ↦ rw apart (All-keep (R e) reg es he, Pairwise-keep R reg es h)
]

keep-apart :
    (reg : Region) (es : List Entry) → All (λ e. is_region_overlap e.1 reg ≡ false) (keep reg es)
unfolding keep
keep-apart reg [] = tt
keep-apart reg (e ∷ es) = elim (Bool-cases (is_region_overlap e.1 reg)) [
  | inl shares ↦ rw shares (keep-apart reg es)
  | inr apart ↦ rw apart (apart, keep-apart reg es)
]

pub keep-append :
    (reg : Region) (xs ys : List Entry) → keep reg (xs ++ ys) ≡ keep reg xs ++ keep reg ys
unfolding keep
keep-append reg [] ys = refl
keep-append reg (x ∷ xs) ys = ground (arith, keep-append reg xs ys)

pub overlapping-append :
    (reg : Region) (xs ys : List Entry)
    → overlapping reg (xs ++ ys) ≡ overlapping reg xs ++ overlapping reg ys
unfolding overlapping
overlapping-append reg [] ys = refl
overlapping-append reg (x ∷ xs) ys = ground (arith, overlapping-append reg xs ys)

module _ (reg : Region) (h : IsNamed reg) where
  apart_keys :
      (e : Entry)
      → IsNamed e.1
      → is_region_overlap e.1 reg ≡ false
      → (key : Bytes) → SameTable e.1 reg
      → Holds e.1 key
      → Holds reg key
      → ⊥
  apart_keys e he apart key same in_e in_reg =
      let shares : is_region_overlap e.1 reg ≡ true =
        (is_region_overlap_iff e.1 reg he.is_range h.is_range).1 (same, (key, in_e, in_reg)) in
      ground (arith, shares, apart)

  ends-Before :
      (e : Entry)
      → IsEntry e
      → Below e.0 reg.name
      → is_region_overlap e.1 reg ≡ false
      → Before e.1 reg
  ends-Before e (stored, he) below apart =
      rank-apart e.1 reg he h
        (Compares-unique e.1.name reg.name _ _ (rank-Compares e.1 reg he h)
          (subst (λ k. Compares k reg.name Ordering.lt) stored below.0))
        (λ key same in_e in_reg. apart_keys e he apart key same in_e in_reg)

  starts_after :
      (e : Entry)
      → IsEntry e
      → Below reg.name e.0
      → is_region_overlap e.1 reg ≡ false
      → Before reg e.1
  starts_after e (stored, he) below apart =
      rank-apart reg e.1 h he
        (Compares-unique reg.name e.1.name _ _ (rank-Compares reg e.1 h he)
          (subst (λ k. Compares reg.name k Ordering.lt) stored below.0))
        (λ key same in_reg in_e. apart_keys e he apart key (sym same.0, sym same.1) in_e in_reg)

  -- Around the new region, the entries that do not overlap it are in order.
  pub keep-AreEntries :
      (before after : List Entry)
      → AreEntries (before ++ after)
      → All (λ e. Below e.0 reg.name) before
      → All (λ e. Below reg.name e.0) after
      → AreEntries (keep reg before ++ ((reg.name, reg) ∷ keep reg after))
  keep-AreEntries before after (named, disjoint) behind ahead =
      let kept = All-keep IsEntry reg in
      (
        All-append IsEntry (keep reg before) ((reg.name, reg) ∷ keep reg after)
            (kept before (All-append_left IsEntry before after named))
            ((refl, h), kept after (All-append_right IsEntry before after named)),
        Pairwise-insert (λ e e'. Before e.1 e'.1) (keep reg before) (keep reg after) (reg.name, reg)
            (subst AreDisjoint (keep-append reg before after)
              (Pairwise-keep _ reg (before ++ after) disjoint))
            (All-map (λ e p. ends-Before e p.0 p.1.0 p.1.1) (keep reg before)
              (All-both IsEntry (λ e. (Below e.0 reg.name) × (is_region_overlap e.1 reg ≡ false))
                (keep reg before) (kept before (All-append_left IsEntry before after named))
                (All-both (λ e. Below e.0 reg.name) (λ e. is_region_overlap e.1 reg ≡ false)
                  (keep reg before) (All-keep _ reg before behind) (keep-apart reg before))))
            (All-map (λ e p. starts_after e p.0 p.1.0 p.1.1) (keep reg after)
              (All-both IsEntry (λ e. (Below reg.name e.0) × (is_region_overlap e.1 reg ≡ false))
                (keep reg after) (kept after (All-append_right IsEntry before after named))
                (All-both (λ e. Below reg.name e.0) (λ e. is_region_overlap e.1 reg ≡ false)
                  (keep reg after) (All-keep _ reg after ahead) (keep-apart reg after)))),
      )
