-- ===== src/RegionCache/Names.antt =====
-- The order of the cached regions by their names.
use gohbase.Prelude.{◌≡◌, sym, ap, subst, ◌∙◌, ◌≢◌, inl, inr, true, [], ◌∷◌, arith, Bool-cases}
use Prim.Native.Nat.{Ordering}
use gohbase.Bytes.{Bytes}
use gohbase.Bytes.Compare.{
  equal, equal_iff, compare_bytes, compare_bytes-flip, flip, bytes_le, bytes_lt, bytes_le_refl,
  bytes_le_lt_trans, bytes_lt_le_trans,
}
use gohbase.RegionName.Order.{compare_bytes_refl, compare_bytes-eq, compare_names-lex, then_by}
use gohbase.Region.{Region, fully_qualified_table}
use gohbase.Region.Overlap.{SameTable, IsRange, Holds}
use gohbase.RegionCache.Entries.{IsNamed, Before}
use gohbase.RegionCache.Tables.{fully_qualified_table-SameTable}
use gohbase.RegionCache.Laws.{Compares}

-- How the names of two regions compare.
unfoldable pub rank : {a b : Region} → IsNamed a → IsNamed b → Ordering
rank {a} {b} ha hb = then_by (compare_bytes (fully_qualified_table a) (fully_qualified_table b)) (
    then_by (compare_bytes a.start_key b.start_key)
      (compare_bytes (ha.digit ∷ ha.code) (hb.digit ∷ hb.code)))

pub rank-Compares :
    (a b : Region) (ha : IsNamed a) (hb : IsNamed b) → Compares a.name b.name (rank ha hb)
unfolding rank
rank-Compares a b ha hb =
    let (d, ran, ordered) =
      compare_names-lex (fully_qualified_table a) a.start_key (ha.digit ∷ ha.code)
        (fully_qualified_table b) b.start_key (hb.digit ∷ hb.code) ha.lacks_comma
        ha.code_lacks_comma hb.lacks_comma hb.code_lacks_comma in
    (d, rw (ha.is_name, hb.is_name) ran, ordered)

pub rank-flip : (a b : Region) (ha : IsNamed a) (hb : IsNamed b) → rank hb ha ≡ flip (rank ha hb)
unfolding rank
rank-flip a b ha hb = ground (
  arith,
  compare_bytes-flip (fully_qualified_table a) (fully_qualified_table b),
  compare_bytes-flip a.start_key b.start_key,
  compare_bytes-flip (ha.digit ∷ ha.code) (hb.digit ∷ hb.code),
)

pub name-Compares : (a : Region) → IsNamed a → Compares a.name a.name Ordering.eq
unfolding rank
name-Compares a h =
    subst (Compares a.name a.name)
      (ground (
        arith,
        compare_bytes_refl (fully_qualified_table a),
        compare_bytes_refl a.start_key,
        compare_bytes_refl (h.digit ∷ h.code),
      ))
      (rank-Compares a a h h)

pub rank-eq :
    (a b : Region) (ha : IsNamed a) (hb : IsNamed b) → rank ha hb ≡ Ordering.eq → a.name ≡ b.name
unfolding rank
rank-eq a b ha hb same =
    let table : fully_qualified_table a ≡ fully_qualified_table b =
      compare_bytes-eq _ _ (ground (arith, same)) in
    let key : a.start_key ≡ b.start_key = compare_bytes-eq _ _ (ground (arith, same)) in
    let code : ha.digit ∷ ha.code ≡ hb.digit ∷ hb.code =
      compare_bytes-eq _ _ (ground (arith, same)) in
    ha.is_name ∙ rw (table, key, code) (sym hb.is_name)

starts_below :
    (b c : Region)
    → IsRange b
    → b.stop_key ≢ []
    → bytes_le b.stop_key c.start_key ≡ true
    → bytes_lt b.start_key c.start_key ≡ true
starts_below b c (inl open_end) ended le = absurd (ended open_end)
starts_below b c (inr range) ended le =
    bytes_lt_le_trans b.start_key b.stop_key c.start_key range le

compare_same : (a b : Bytes) → a ≡ b → compare_bytes a b ≡ Ordering.eq
compare_same a b e = subst (λ u. compare_bytes a u ≡ Ordering.eq) e (compare_bytes_refl a)

pub rank-Before :
    (a b : Region) (ha : IsNamed a) (hb : IsNamed b) → Before a b → rank ha hb ≡ Ordering.lt
unfolding rank
rank-Before a b ha hb (inl lt) = ground (arith, lt)
rank-Before a b ha hb (inr (same, ended, le)) =
    ground (arith, compare_same _ _ same, starts_below a b ha.is_range ended le)

pub rank_trans :
    (a b c : Region) (ha : IsNamed a) (hb : IsNamed b) (hc : IsNamed c)
    → rank ha hb ≡ Ordering.lt
    → Before b c
    → rank ha hc ≡ Ordering.lt
unfolding rank
rank_trans a b c ha hb hc lt (inl below) =
    let le : bytes_le (fully_qualified_table a) (fully_qualified_table b) ≡ true =
      ground (arith, lt) in
    ground (arith, bytes_le_lt_trans _ _ _ le below)
rank_trans a b c ha hb hc lt (inr (same, ended, le)) =
    let start : bytes_lt b.start_key c.start_key ≡ true = starts_below b c hb.is_range ended le in
    let tables : compare_bytes (fully_qualified_table a) (fully_qualified_table b)
        ≡ compare_bytes (fully_qualified_table a) (fully_qualified_table c) =
      ap (compare_bytes (fully_qualified_table a)) same in
    ground (
      arith,
      lt,
      tables,
      start,
      bytes_lt_le_trans a.start_key b.start_key c.start_key,
      bytes_le_lt_trans a.start_key b.start_key c.start_key,
    )

-- Of two regions that do not overlap, the one with the lesser name ends before the other starts.
pub rank-apart :
    (a b : Region) (ha : IsNamed a) (hb : IsNamed b)
    → rank ha hb ≡ Ordering.lt
    → ((key : Bytes) → SameTable a b → Holds a key → Holds b key → ⊥)
    → Before a b
unfolding rank
rank-apart a b ha hb lt apart =
    elim (Bool-cases (equal (fully_qualified_table a) (fully_qualified_table b))) [
      | inl alike ↦ same_table ((equal_iff _ _).0 alike)
      | inr other ↦ inl (
          ground (
            arith,
            other,
            lt,
            compare_bytes-eq (fully_qualified_table a) (fully_qualified_table b),
            (equal_iff (fully_qualified_table a) (fully_qualified_table b)).1,
          ))
    ]
  where
    same_table : fully_qualified_table a ≡ fully_qualified_table b → Before a b
    same_table e =
        let tables : SameTable a b = fully_qualified_table-SameTable a b ha hb e in
        let starts : bytes_le a.start_key b.start_key ≡ true =
          ground (arith, lt, compare_same _ _ e) in
        let b_holds : Holds b b.start_key = (bytes_le_refl b.start_key, hb.is_range) in
        elim (Bool-cases (bytes_lt b.start_key a.stop_key)) [
          | inl within ↦ absurd (apart b.start_key tables (starts, inr within) b_holds)
          | inr behind ↦ inr (
            e,
            (λ open_end. apart b.start_key tables (starts, inl open_end) b_holds),
            ground (arith, behind, compare_bytes-flip a.stop_key b.start_key),
          )
        ]
