-- ===== src/Mutate/Reordered.antt =====
-- Two visits of a mutation's maps by range, whose order Go does not fix.
use gohbase.Prelude.{ℕ, ◌≡◌, refl, ◌∙◌, Bool, true, false, Option, none, some, List, [], ◌∷◌}
use gohbase.Prelude.Permuted.{
  Permuted, nil, cons, swap, trans, Permuted-refl, Permuted-append_left, Permuted-append_right,
  Permuted-exchange,
}
use gohbase.Bytes.{Bytes}
use gohbase.Cellblock.{Cell}
use gohbase.Mutate.{Mutate, MutationType, append, increment, put, delete, Qualifiers, Values}
use gohbase.Mutate.Described.{qualifier_cells, described, timestamp_meant, families_cells}

-- The same map of qualifiers, nil or not.
abbrev pub SameQualifiers : Option Qualifiers → Option Qualifiers → Type 0
SameQualifiers none none = Unit
SameQualifiers none (some qs) = ⊥
SameQualifiers (some ps) none = ⊥
SameQualifiers (some ps) (some qs) = Permuted ps qs

-- The same map of families: the families come in another order, and so may the qualifiers of each.
pub data SameMap : Values → Values → Type 0 where
  empty : SameMap [] []
  entry :
      (family : Bytes) {v w : Option Qualifiers} {vs ws : Values}
      → SameQualifiers v w
      → SameMap vs ws
      → SameMap ((family, v) ∷ vs) ((family, w) ∷ ws)
  exchanged : (e e' : Bytes × Option Qualifiers) (vs : Values) → SameMap (e ∷ e' ∷ vs) (e' ∷ e ∷ vs)
  followed : {us vs ws : Values} → SameMap us vs → SameMap vs ws → SameMap us ws

type-cons :
    (typ : MutationType) (one : Bool) (p q : Bytes × Bytes) (ps qs : Qualifiers)
    → (described typ one (some (p ∷ ps))).0 ≡ (described typ one (some (q ∷ qs))).0
unfolding described
type-cons delete true p q ps qs = refl
type-cons delete false p q ps qs = refl
type-cons put one p q ps qs = refl
type-cons append one p q ps qs = refl
type-cons increment one p q ps qs = refl

type-Permuted :
    (typ : MutationType) (one : Bool) {ps qs : Qualifiers}
    → Permuted ps qs
    → (described typ one (some ps)).0 ≡ (described typ one (some qs)).0
type-Permuted typ one nil = refl
type-Permuted typ one (cons x {xs} {ys} p) = type-cons typ one x x xs ys
type-Permuted typ one (swap x y xs) = type-cons typ one x y (y ∷ xs) (x ∷ xs)
type-Permuted typ one (trans p q) = type-Permuted typ one p ∙ type-Permuted typ one q

described-some :
    (typ : MutationType) (one : Bool) (qs : Qualifiers) → (described typ one (some qs)).1 ≡ qs
unfolding described
described-some delete true [] = refl
described-some delete true (q ∷ qs) = refl
described-some delete false [] = refl
described-some delete false (q ∷ qs) = refl
described-some put one qs = refl
described-some append one qs = refl
described-some increment one qs = refl

qualifier_cells-Permuted :
    (key family : Bytes) (ts mt : ℕ) {ps qs : Qualifiers}
    → Permuted ps qs
    → Permuted (qualifier_cells key family ts mt ps) (qualifier_cells key family ts mt qs)
qualifier_cells-Permuted key family ts mt nil = nil
qualifier_cells-Permuted key family ts mt (cons x p) =
    cons _ (qualifier_cells-Permuted key family ts mt p)
qualifier_cells-Permuted key family ts mt (swap x y xs) = swap _ _ _
qualifier_cells-Permuted key family ts mt (trans p q) =
    trans (qualifier_cells-Permuted key family ts mt p)
      (qualifier_cells-Permuted key family ts mt q)

module _ (m : Mutate) where
  cells_in : Bytes → Option Qualifiers → List Cell
  cells_in family v =
      let (mt, qualifiers) = described m.mutation_type m.delete_one_version v in
      qualifier_cells m.key family (timestamp_meant m.timestamp) mt qualifiers

  cells_in-Permuted :
      (family : Bytes) (v w : Option Qualifiers)
      → SameQualifiers v w
      → Permuted (cells_in family v) (cells_in family w)
  unfolding cells_in
  cells_in-Permuted family none none same = Permuted-refl _
  cells_in-Permuted family none (some w) same = absurd same
  cells_in-Permuted family (some v) none same = absurd same
  cells_in-Permuted family (some v) (some w) same =
      rw
        (
          described-some m.mutation_type m.delete_one_version v,
          described-some m.mutation_type m.delete_one_version w,
          type-Permuted m.mutation_type m.delete_one_version same,
        )
        (qualifier_cells-Permuted m.key family (timestamp_meant m.timestamp) _ same)

  -- The cells of the map come in the order in which it is visited.
  pub families_cells-Permuted :
      {vs ws : Values} → SameMap vs ws → Permuted (families_cells m vs) (families_cells m ws)
  unfolding families_cells cells_in
  families_cells-Permuted empty = nil
  families_cells-Permuted (entry family {v} {w} {vs} {ws} same rest) =
      trans (Permuted-append_right (families_cells m vs) (cells_in-Permuted family v w same))
        (Permuted-append_left (cells_in family w) (families_cells-Permuted rest))
  families_cells-Permuted (exchanged (f, v) (g, w) vs) =
      Permuted-exchange (cells_in f v) (cells_in g w) (families_cells m vs)
  families_cells-Permuted (followed p q) =
      trans (families_cells-Permuted p) (families_cells-Permuted q)
