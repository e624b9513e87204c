-- ===== src/RegionName/Order.antt =====
-- region/info.go (Compare): the names of regions by their parts.
use gohbase.Prelude.{
  ℕ, zero, suc, ◌+◌, ◌-◌, ◌≤◌, ◌<◌, ◌≡◌, refl, sym, ap, subst, ◌∙◌, ◌≢◌, false, Option, none, some,
  [], ◌∷◌, ◌++◌, append-nil, append_assoc, arith, ltb, ◌==◌, if◌then◌else◌, length, get_elem?, All,
  length-append,
}
use Prim.Native.Nat.add
use Prim.Native.Nat.{Ordering, compare}
use gohbase.Prelude.Int.{ℤ, pos, negsuc, sub_ℕ, sign}
use gohbase.Bytes.{Bytes}
use gohbase.Bytes.Compare.{compare_bytes}
use gohbase.RegionName.{
  comma, TableEnd, differ, stop, table_loop, comma_below, find_comma_from_end, drop, difference,
  lesser, compare_keys, compare_names,
}

abbrev pub Lacks : ℕ → Bytes → Type 0
Lacks c = All (λ x. x ≢ c)

-- `table,start_key,timestamp[.MD5.]`
unfoldable pub region_name : Bytes → Bytes → Bytes → Bytes
region_name table key code = table ++ (comma ∷ (key ++ (comma ∷ code)))

-- The lexicographic order of two comparisons.
abbrev pub then_by : Ordering → Ordering → Ordering
then_by Ordering.lt o = Ordering.lt
then_by Ordering.eq o = o
then_by Ordering.gt o = Ordering.gt

pub compare_bytes-eq : (a b : Bytes) → compare_bytes a b ≡ Ordering.eq → a ≡ b
unfolding compare_bytes
compare_bytes-eq [] [] h = refl
compare_bytes-eq [] (y ∷ b) h = cc
compare_bytes-eq (x ∷ a) [] h = cc
compare_bytes-eq (x ∷ a) (y ∷ b) h = ground (arith, compare_bytes-eq a b)

-- What the first loop finds out.
abbrev TableOrder : ℕ → Bytes → Bytes → TableEnd → Type 0
TableOrder i t t' (stop j) = (t ≡ t') × (j ≡ i + length t)
TableOrder i t t' (differ d) = (compare_bytes t t' ≢ Ordering.eq) × (sign d ≡ compare_bytes t t')

table_loop-TableOrder :
    (i : ℕ) (t t' a b : Bytes)
    → Lacks comma t
    → Lacks comma t'
    → TableOrder i t t' (table_loop i (t ++ (comma ∷ a)) (t' ++ (comma ∷ b)))
unfolding table_loop compare_bytes
table_loop-TableOrder i [] [] a b l l' = ground arith
table_loop-TableOrder i [] (y ∷ t') a b l (ly, l') = ground arith
table_loop-TableOrder i (x ∷ t) [] a b (lx, l) l' = ground arith
table_loop-TableOrder i (x ∷ t) (y ∷ t') a b (lx, l) (ly, l') =
    ground (arith, table_loop-TableOrder (suc i) t t' a b l l')

get_elem?-append : (p s : Bytes) (j : ℕ) → get_elem? (p ++ s) (length p + j) ≡ get_elem? s j
get_elem?-append [] s j = ap (get_elem? s) (omega arith)
get_elem?-append (x ∷ p) s j = rw add.suc (get_elem?-append p s j)

Lacks-is_comma_at :
    (s : Bytes) (j : ℕ)
    → Lacks comma s
    → (elim (get_elem? s j) [ none ↦ false | some c ↦ c == comma ]) ≡ false
Lacks-is_comma_at [] j l = refl
Lacks-is_comma_at (x ∷ s) zero (lx, l) = ground arith
Lacks-is_comma_at (x ∷ s) (suc j) (lx, l) = Lacks-is_comma_at s j l

-- The search from the end stops at the last comma.
comma_below-last :
    (p s : Bytes) (offset k : ℕ)
    → Lacks comma s
    → offset < length p
    → k ≤ length s
    → comma_below (p ++ (comma ∷ s)) offset (suc (length p + k)) ≡ some (length p)
unfolding comma_below
comma_below-last p s offset zero l lt le = ground (arith, get_elem?-append p (comma ∷ s) 0)
comma_below-last p s offset (suc k) l lt le =
    let shift : length p + suc k ≡ suc (length p + k) = omega arith in
    ground (
      arith,
      get_elem?-append p (comma ∷ s) (suc k),
      Lacks-is_comma_at s k l,
      ap (comma_below (p ++ (comma ∷ s)) offset) shift,
      comma_below-last p s offset k l lt (omega arith),
    )

find_comma_from_end-last :
    (p s : Bytes) (offset : ℕ)
    → Lacks comma s
    → offset < length p
    → find_comma_from_end (p ++ (comma ∷ s)) offset ≡ some (length p)
unfolding find_comma_from_end
find_comma_from_end-last p s offset l lt =
    ap (comma_below (p ++ (comma ∷ s)) offset) (omega (arith, length-append p (comma ∷ s)))
    ∙ comma_below-last p s offset (length s) l lt (omega arith)

drop-append : (p s : Bytes) → drop (length p) (p ++ s) ≡ s
unfolding drop
drop-append [] s = refl
drop-append (x ∷ p) s = drop-append p s

-- What a loop over the shorter of two keys finds out.
abbrev Difference : Bytes → Bytes → Option ℤ → Type 0
Difference k k' none = compare_bytes k k' ≡ compare (length k) (length k')
Difference k k' (some d) = (compare_bytes k k' ≢ Ordering.eq) × (sign d ≡ compare_bytes k k')

difference-Difference :
    (k k' x y : Bytes) (n : ℕ)
    → n ≡ lesser (length k) (length k')
    → Difference k k' (difference n (k ++ x) (k' ++ y))
unfolding difference compare_bytes
difference-Difference [] [] x y zero e = refl
difference-Difference [] (b ∷ k') x y zero e = ground arith
difference-Difference [] k' x y (suc n) e = absurd (ground arith)
difference-Difference (a ∷ k) [] x y zero e = ground arith
difference-Difference (a ∷ k) [] x y (suc n) e = absurd (ground arith)
difference-Difference (a ∷ k) (b ∷ k') x y zero e = absurd (ground arith)
difference-Difference (a ∷ k) (b ∷ k') x y (suc n) e =
    ground (arith, difference-Difference k k' x y n (ground arith))

-- A region name around its last comma, and behind its table.
region_name-code : (t k s : Bytes) → region_name t k s ≡ (t ++ (comma ∷ k)) ++ (comma ∷ s)
unfolding region_name
region_name-code t k s = sym (append_assoc t (comma ∷ k) (comma ∷ s))

last_comma :
    (t k s : Bytes)
    → Lacks comma s
    → find_comma_from_end (region_name t k s) (length t) ≡ some (length t + suc (length k))
last_comma t k s l = rw region_name-code (
    find_comma_from_end-last (t ++ (comma ∷ k)) s (length t) l
      (omega (arith, length-append t (comma ∷ k)))
    ∙ ap some (length-append t (comma ∷ k)))

drop_table : (t k s : Bytes) → drop (length t + 1) (region_name t k s) ≡ k ++ (comma ∷ s)
unfolding region_name drop
drop_table t k s =
    rw (← append_assoc t (comma ∷ []) (k ++ (comma ∷ s)), ← length-append t (comma ∷ []))
      (drop-append (t ++ (comma ∷ [])) (k ++ (comma ∷ s)))

drop_key :
    (t k s : Bytes) (n : ℕ) → n ≡ length t + suc (length k) → drop n (region_name t k s) ≡ comma ∷ s
drop_key t k s n e =
    rw (e, region_name-code, ← length-append t (comma ∷ k))
      (drop-append (t ++ (comma ∷ k)) (comma ∷ s))

length-region_name :
    (t k s : Bytes) → length (region_name t k s) ≡ length t + length k + length s + 2
unfolding region_name
length-region_name t k s = simp length-append (omega arith)

difference-all :
    (k k' : Bytes) (n : ℕ) → n ≡ lesser (length k) (length k') → Difference k k' (difference n k k')
difference-all k k' n e = rw (append-nil k, append-nil k') at (difference-Difference k k' [] [] n e)

Difference-tail :
    (s s' : Bytes) (r : Option ℤ) → Difference (comma ∷ s) (comma ∷ s') r → Difference s s' r
unfolding compare_bytes
Difference-tail s s' none h = ground arith
Difference-tail s s' (some d) h = ground arith

-- The keys decide first, then their lengths, then the codes and their lengths.
order_of :
    (k k' s s' : Bytes) (at_keys at_codes : Option ℤ) (la lb a_comma b_comma n : ℕ)
    → Difference k k' at_keys
    → (length k ≡ length k' → Difference s s' at_codes)
    → a_comma ≡ n + suc (length k)
    → b_comma ≡ n + suc (length k')
    → la ≡ n + length k + length s + 2
    → lb ≡ n + length k' + length s' + 2
    → sign (elim at_keys [
      | some d ↦ d
      | none ↦
          if ltb a_comma b_comma
          then negsuc 1001
          else if ltb b_comma a_comma
          then pos 1002
          else elim at_codes [ some d ↦ d | none ↦ sub_ℕ la lb ]
    ])
      ≡ then_by (compare_bytes k k') (compare_bytes s s')
order_of k k' s s' (some d) at_codes la lb ac bc n hk hs ea eb el el' = ground arith
order_of k k' s s' none (some d) la lb ac bc n hk hs ea eb el el' = ground arith
order_of k k' s s' none none la lb ac bc n hk hs ea eb el el' = ground arith

module _ (t k s k' s' : Bytes) where
  keys_difference : Difference k k' (
      difference
        (lesser (length t + suc (length k)) (length t + suc (length k')) - (length t + 1))
        (drop (length t + 1) (region_name t k s))
        (drop (length t + 1) (region_name t k' s')))
  keys_difference = rw (drop_table, drop_table) (difference-Difference k k' _ _ _ (ground arith))

  codes_difference :
      (from : ℕ)
      → length k ≡ length k'
      → from ≡ length t + suc (length k)
      → Difference s s' (
          difference
            (lesser (length (region_name t k s)) (length (region_name t k' s')) - from)
            (drop from (region_name t k s))
            (drop from (region_name t k' s')))
  codes_difference from same e = Difference-tail s s' _ (
      rw (drop_key t k s from e, drop_key t k' s' from (omega arith))
        (difference-all (comma ∷ s) (comma ∷ s') _ fewer))
    where
      fewer :
          lesser (length (region_name t k s)) (length (region_name t k' s')) - from
          ≡ lesser (length (comma ∷ s)) (length (comma ∷ s'))
      fewer = ground (arith, length-region_name t k s, length-region_name t k' s')

  keys_order :
      sign (
        compare_keys
          (region_name t k s)
          (region_name t k' s')
          (length t)
          (length t + suc (length k))
          (length t + suc (length k')))
      ≡ then_by (compare_bytes k k') (compare_bytes s s')
  unfolding compare_keys
  keys_order =
      order_of k k' s s' _ _ (length (region_name t k s)) (length (region_name t k' s')) _ _
        (length t) keys_difference
        (λ same.
          codes_difference
            (if ltb (length t + 1) (lesser (length t + suc (length k)) (length t + suc (length k')))
              then lesser (length t + suc (length k)) (length t + suc (length k'))
              else length t + 1)
            same (ground arith))
        refl refl (length-region_name t k s) (length-region_name t k' s')

-- Compare's result on two region names orders them by table, then start key, then the rest.
abbrev pub Ordered : Bytes → Bytes → Bytes → Bytes → Bytes → Bytes → Type 0
Ordered t k s t' k' s' =
    (d : ℤ) × (compare_names (region_name t k s) (region_name t' k' s') ≡ some d)
    × (sign d ≡ then_by (compare_bytes t t') (then_by (compare_bytes k k') (compare_bytes s s')))

pub compare_bytes_refl : (a : Bytes) → compare_bytes a a ≡ Ordering.eq
unfolding compare_bytes
compare_bytes_refl [] = refl
compare_bytes_refl (x ∷ a) = ground (arith, compare_bytes_refl a)

same_tables :
    (t k s k' s' : Bytes)
    → Lacks comma s
    → Lacks comma s'
    → table_loop 0 (region_name t k s) (region_name t k' s') ≡ stop (length t)
    → Ordered t k s t k' s'
same_tables t k s k' s' ls ls' e = (
  compare_keys (region_name t k s) (region_name t k' s') (length t) (length t + suc (length k))
      (length t + suc (length k')),
  unfold compare_names in ground (arith, e, last_comma t k s ls, last_comma t k' s' ls'),
  keys_order t k s k' s' ∙ rw (compare_bytes_refl t),
)

-- Compare never panics on two region names whose tables and codes hold no comma, and orders them
-- by table, then by start key (which may hold commas), then by what follows the last comma, each
-- in the byte order of bytes.Compare.
pub compare_names-lex :
    (t k s t' k' s' : Bytes)
    → Lacks comma t
    → Lacks comma s
    → Lacks comma t'
    → Lacks comma s'
    → Ordered t k s t' k' s'
compare_names-lex t k s t' k' s' lt ls lt' ls' =
    by_tables (table_loop 0 (region_name t k s) (region_name t' k' s')) refl (
      unfold region_name in
      table_loop-TableOrder 0 t t' (k ++ (comma ∷ s)) (k' ++ (comma ∷ s')) lt lt')
  where
    by_tables :
        (e : TableEnd)
        → table_loop 0 (region_name t k s) (region_name t' k' s') ≡ e
        → TableOrder 0 t t' e
        → Ordered t k s t' k' s'
    by_tables (differ d) e (ne, eq) = (d, unfold compare_names in ground (arith, e), ground arith)
    by_tables (stop j) e (same, eq) =
        subst (λ u. Ordered t k s u k' s') same
          (same_tables t k s k' s' ls ls' (
            subst (λ u. table_loop 0 (region_name t k s) (region_name u k' s') ≡ stop j) (sym same)
              e
            ∙ ap stop (omega arith)))
