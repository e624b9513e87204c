-- ===== src/Mutate/Described.antt =====
-- hrpc/mutate.go: the cells that a mutation stands for, by HBase's own codes.
use gohbase.Prelude.{
  ℕ, ◌-◌, ◌^◌, ◌≡◌, refl, Bool, true, false, Option, none, some, List, [], ◌∷◌, ◌++◌, arith, ◌==◌,
  if◌then◌else◌,
}
use gohbase.Bytes.{Bytes}
use gohbase.Cellblock.{Cell}
use gohbase.Mutate.{
  Mutate, MutationType, append, increment, put, delete, Qualifiers, Values, family_cells,
  empty_qualifier, cell_timestamp,
}

-- The cells of one family; `mt` is their type.
abbrev pub qualifier_cells : Bytes → Bytes → ℕ → ℕ → Qualifiers → List Cell
qualifier_cells key family ts mt [] = []
qualifier_cells key family ts mt ((k1, v1) ∷ more) =
    record {
      row = key;
      family = family;
      qualifier = k1;
      timestamp = ts;
      value = v1;
      cell_type = mt;
    }
    ∷ qualifier_cells key family ts mt more

-- The type of a family's cells and their qualifiers with their values. HBase's types are 4 for a
-- put, 8 for one version of a column, 12 for all its versions, 10 for one version of a family and
-- 14 for all its versions. A deletion with a nil map is one of the whole family, which is one cell; an
-- empty map that is not nil stands for no cell. The flag says whether one version is deleted.
unfoldable pub described : MutationType → Bool → Option Qualifiers → ℕ × Qualifiers
described delete true none = (10, ([], []) ∷ [])
described delete true (some []) = (10, [])
described delete true (some (q ∷ qs)) = (8, q ∷ qs)
described delete false none = (14, ([], []) ∷ [])
described delete false (some []) = (14, [])
described delete false (some (q ∷ qs)) = (12, q ∷ qs)
described put one none = (4, [])
described put one (some qs) = (4, qs)
described append one none = (4, [])
described append one (some qs) = (4, qs)
described increment one none = (4, [])
described increment one (some qs) = (4, qs)

-- The greatest uint64 stands for no timestamp, and Java's greatest long is then sent.
unfoldable pub timestamp_meant : ℕ → ℕ
timestamp_meant ts = if ts == 2 ^ 64 - 1 then 2 ^ 63 - 1 else ts

-- The cells of a mutation, family by family.
unfoldable pub families_cells : Mutate → Values → List Cell
families_cells m [] = []
families_cells m ((family, v) ∷ more) =
    qualifier_cells m.key family (timestamp_meant m.timestamp)
      (described m.mutation_type m.delete_one_version v).0
      (described m.mutation_type m.delete_one_version v).1
    ++ families_cells m more

pub family_cells-described :
    (typ : MutationType) (one : Bool) (v : Option Qualifiers)
    → family_cells typ one v ≡ described typ one v
unfolding family_cells described empty_qualifier
family_cells-described delete true none = refl
family_cells-described delete true (some []) = refl
family_cells-described delete true (some (q ∷ qs)) = ground arith
family_cells-described delete false none = refl
family_cells-described delete false (some []) = refl
family_cells-described delete false (some (q ∷ qs)) = ground arith
family_cells-described put one none = refl
family_cells-described put one (some qs) = refl
family_cells-described append one none = refl
family_cells-described append one (some qs) = refl
family_cells-described increment one none = refl
family_cells-described increment one (some qs) = refl

pub cell_timestamp-timestamp_meant : (m : Mutate) → cell_timestamp m ≡ timestamp_meant m.timestamp
unfolding cell_timestamp timestamp_meant
cell_timestamp-timestamp_meant m = refl
