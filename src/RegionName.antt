-- ===== src/RegionName.antt =====
-- region/info.go (Compare, findCommaFromEnd): the order of region names in the cache.
-- A loop over an index is a recursion over what the index has not reached.
pub mod Order
use gohbase.Prelude.{
  ℕ, zero, suc, ◌+◌, ◌-◌, Bool, false, not, Option, none, some, [], ◌∷◌, ltb, ◌==◌, if◌then◌else◌,
  length, get_elem?,
}
use gohbase.Prelude.Int.{ℤ, pos, negsuc, sub_ℕ}
use gohbase.Bytes.{Bytes}

abbrev pub comma : ℕ
comma = b','

-- Where the loop over the table names ends: with the result of Compare, or at an index.
pub data TableEnd : Type 0 where
  differ : ℤ → TableEnd
  stop : ℕ → TableEnd

unfoldable pub table_loop : ℕ → Bytes → Bytes → TableEnd
table_loop i [] b = stop i
table_loop i (ai ∷ a) [] = stop i
table_loop i (ai ∷ a) (bi ∷ b) =
    let next = table_loop (suc i) a b in
    if not (ai == bi)
    then (if ai == comma
        then differ (negsuc 1000)
        else if bi == comma
        then differ (pos 1001)
        else differ (sub_ℕ ai bi))
    else if ai == comma
    then stop i
    else next

abbrev pub is_comma_at : Bytes → ℕ → Bool
is_comma_at b i = elim (get_elem? b i) [ none ↦ false | some c ↦ c == comma ]

-- The loop of findCommaFromEnd, for the indices below `k`; `none` is the panic.
unfoldable pub comma_below : Bytes → ℕ → ℕ → Option ℕ
comma_below b offset zero = none
comma_below b offset (suc i) =
    let next = comma_below b offset i in
    if ltb offset i then (if is_comma_at b i then some i else next) else none

unfoldable pub find_comma_from_end : Bytes → ℕ → Option ℕ
find_comma_from_end b offset = comma_below b offset (length b)

unfoldable pub drop : ℕ → Bytes → Bytes
drop zero b = b
drop (suc n) [] = []
drop (suc n) (x ∷ b) = drop n b

-- The first difference in the next `n` bytes.
unfoldable pub difference : ℕ → Bytes → Bytes → Option ℤ
difference zero a b = none
difference (suc n) (ai ∷ a) (bi ∷ b) =
    let next = difference n a b in if not (ai == bi) then some (sub_ℕ ai bi) else next
difference (suc n) _ _ = none

abbrev pub lesser : ℕ → ℕ → ℕ
lesser x y = if ltb x y then x else y

-- Compare behind the table names, from the index `i` of the commas that end them.
unfoldable pub compare_keys : Bytes → Bytes → ℕ → ℕ → ℕ → ℤ
compare_keys a b i a_comma b_comma =
    let first_comma = lesser a_comma b_comma in
    let start = i + 1 in
    let at_keys = difference (first_comma - start) (drop start a) (drop start b) in
    let from = if ltb start first_comma then first_comma else start in
    let at_codes = difference (lesser (length a) (length b) - from) (drop from a) (drop from b) in
    elim at_keys [
      | some d ↦ d
      | none ↦
          if ltb a_comma b_comma
          then negsuc 1001
          else if ltb b_comma a_comma
          then pos 1002
          else elim at_codes [ some d ↦ d | none ↦ sub_ℕ (length a) (length b) ]
    ]

-- `none` is a panic of findCommaFromEnd.
unfoldable pub compare_names : Bytes → Bytes → Option ℤ
compare_names a b = elim (table_loop 0 a b) [
  | differ d ↦ some d
  | stop i ↦ elim (find_comma_from_end a i) [
    | none ↦ none
    | some a_comma ↦ elim (find_comma_from_end b i) [
      | none ↦ none
      | some b_comma ↦ some (compare_keys a b i a_comma b_comma)
    ]
  ]
]
