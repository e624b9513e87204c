-- ===== src/Mutate/Measured.antt =====
-- hrpc/mutate.go (valuesToCellblocks): what its first loop measures, against what the second one
-- writes.
use gohbase.Prelude.{
  ℕ, suc, ◌+◌, ◌≤◌, ◌<◌, ◌≡◌, refl, sym, ap, ◌∙◌, ◌≢◌, ◌⊎◌, inl, inr, Bool, true, false, Option,
  none, some, [], ◌∷◌, arith, length, All, length-append,
}
use gohbase.Bytes.{Bytes}
use gohbase.Cellblock.{append_cellblock, cellblock_len}
use gohbase.Cellblock.Encode.{length-append_cellblock}
use gohbase.Mutate.Described.{
  qualifier_cells, described, timestamp_meant, families_cells, family_cells-described,
}
use gohbase.Mutate.{
  Mutate, MutationType, is_delete, Qualifiers, Values, or_empty_qualifier, qualifiers_len, measure,
  family_cells, append_qualifiers, append_families, empty_qualifier,
}

-- A family's entry that both loops of valuesToCellblocks treat alike.
abbrev pub Settled : MutationType → Option Qualifiers → Type 0
Settled typ v = (is_delete typ ≡ true) ⊎ (v ≢ none)

abbrev pub SettledValues : MutationType → Values → Type 0
SettledValues typ = All (λ e. Settled typ e.1)

abbrev pub HasNil : Values → Type 0
HasNil [] = ⊥
HasNil ((family, v) ∷ more) = (v ≡ none) ⊎ HasNil more

family_cells-Settled :
    (typ : MutationType) (one : Bool) (v : Option Qualifiers)
    → Settled typ v
    → (family_cells typ one v).1 ≡ or_empty_qualifier v
unfolding family_cells empty_qualifier
family_cells-Settled typ one none (inl d) = ground arith
family_cells-Settled typ one none (inr h) = absurd (h refl)
family_cells-Settled typ one (some []) s = ground arith
family_cells-Settled typ one (some (q ∷ qs)) s = ground arith

length-append_qualifiers :
    (key family : Bytes) (ts mt : ℕ) (qs : Qualifiers) (cbs : Bytes)
    → length (append_qualifiers key family ts mt qs cbs) ≡ length cbs + qualifiers_len key family qs
unfolding append_qualifiers qualifiers_len
length-append_qualifiers key family ts mt [] cbs = omega arith
length-append_qualifiers key family ts mt ((k1, v1) ∷ more) cbs = omega (
  arith,
  length-append_qualifiers key family ts mt more (append_cellblock key family k1 v1 ts mt cbs),
  length-append_cellblock
      (record {
        row = key;
        family = family;
        qualifier = k1;
        timestamp = ts;
        value = v1;
        cell_type = mt;
      })
      cbs,
)

length-qualifier_cells :
    (key family : Bytes) (ts mt : ℕ) (qs : Qualifiers)
    → length (qualifier_cells key family ts mt qs) ≡ length qs
length-qualifier_cells key family ts mt [] = refl
length-qualifier_cells key family ts mt (q ∷ more) =
    ap suc (length-qualifier_cells key family ts mt more)

-- Where every entry is settled, the first loop measures what the second one writes.
pub measure-append_families :
    (m : Mutate) (ts : ℕ) (vs : Values) (cbs : Bytes)
    → SettledValues m.mutation_type vs
    → length (append_families m ts vs cbs) ≡ length cbs + (measure m.key vs).0
unfolding append_families measure
measure-append_families m ts [] cbs s = omega arith
measure-append_families m ts ((family, v) ∷ more) cbs (s, ss) =
    let typ = family_cells m.mutation_type m.delete_one_version v in
    omega (
      arith,
      measure-append_families m ts more (append_qualifiers m.key family ts typ.0 typ.1 cbs) ss,
      length-append_qualifiers m.key family ts typ.0 typ.1 cbs,
      ap (qualifiers_len m.key family)
          (family_cells-Settled m.mutation_type m.delete_one_version v s),
    )

pub measure-families_cells :
    (m : Mutate) (vs : Values)
    → SettledValues m.mutation_type vs
    → length (families_cells m vs) ≡ (measure m.key vs).1
unfolding families_cells measure
measure-families_cells m [] s = refl
measure-families_cells m ((family, v) ∷ more) (s, ss) =
    let typ = described m.mutation_type m.delete_one_version v in
    omega (
      arith,
      length-append (qualifier_cells m.key family (timestamp_meant m.timestamp) typ.0 typ.1)
          (families_cells m more),
      length-qualifier_cells m.key family (timestamp_meant m.timestamp) typ.0 typ.1,
      measure-families_cells m more ss,
      ap length (
          ap (λ t. t.1) (sym (family_cells-described m.mutation_type m.delete_one_version v))
          ∙ family_cells-Settled m.mutation_type m.delete_one_version v s),
    )

family_cells-le :
    (typ : MutationType) (one : Bool) (key family : Bytes) (v : Option Qualifiers)
    → qualifiers_len key family (family_cells typ one v).1
      ≤ qualifiers_len key family (or_empty_qualifier v)
unfolding family_cells empty_qualifier qualifiers_len
family_cells-le typ one key family none = ground arith
family_cells-le typ one key family (some []) = ground arith
family_cells-le typ one key family (some (q ∷ qs)) = ground arith

family_cells-lt :
    (typ : MutationType) (one : Bool) (key family : Bytes) (v : Option Qualifiers)
    → is_delete typ ≡ false
    → v ≡ none
    → qualifiers_len key family (family_cells typ one v).1
      < qualifiers_len key family (or_empty_qualifier v)
unfolding family_cells empty_qualifier qualifiers_len cellblock_len
family_cells-lt typ one key family none put nil = ground arith
family_cells-lt typ one key family (some v) put nil = cc

-- Otherwise the second loop writes less.
append_families-le :
    (m : Mutate) (ts : ℕ) (vs : Values) (cbs : Bytes)
    → length (append_families m ts vs cbs) ≤ length cbs + (measure m.key vs).0
unfolding append_families measure
append_families-le m ts [] cbs = omega arith
append_families-le m ts ((family, v) ∷ more) cbs =
    let typ = family_cells m.mutation_type m.delete_one_version v in
    omega (
      arith,
      append_families-le m ts more (append_qualifiers m.key family ts typ.0 typ.1 cbs),
      length-append_qualifiers m.key family ts typ.0 typ.1 cbs,
      family_cells-le m.mutation_type m.delete_one_version m.key family v,
    )

pub append_families-lt :
    (m : Mutate) (ts : ℕ) (vs : Values) (cbs : Bytes)
    → is_delete m.mutation_type ≡ false
    → HasNil vs
    → length (append_families m ts vs cbs) < length cbs + (measure m.key vs).0
unfolding append_families measure
append_families-lt m ts [] cbs put nil = absurd nil
append_families-lt m ts ((family, v) ∷ more) cbs put (inl nil) =
    let typ = family_cells m.mutation_type m.delete_one_version v in
    omega (
      arith,
      append_families-le m ts more (append_qualifiers m.key family ts typ.0 typ.1 cbs),
      length-append_qualifiers m.key family ts typ.0 typ.1 cbs,
      family_cells-lt m.mutation_type m.delete_one_version m.key family v put nil,
    )
append_families-lt m ts ((family, v) ∷ more) cbs put (inr nil) =
    let typ = family_cells m.mutation_type m.delete_one_version v in
    omega (
      arith,
      append_families-lt m ts more (append_qualifiers m.key family ts typ.0 typ.1 cbs) put nil,
      length-append_qualifiers m.key family ts typ.0 typ.1 cbs,
      family_cells-le m.mutation_type m.delete_one_version m.key family v,
    )
