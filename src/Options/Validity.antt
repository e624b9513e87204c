-- ===== src/Options/Validity.antt =====
-- What the options keep true of a request.
use gohbase.Prelude.{
  ℕ, ◌/◌, ◌^◌, ◌≤◌, ◌<◌, ◌≡◌, refl, ap, ◌∙◌, inl, inr, true, Option, none, some, List, [], ◌∷◌,
  arith, ltb, leb, ◌==◌, if◌then◌else◌, Bool-cases, Result, ok, err, panics, ◌>>=◌,
}
use gohbase.Prelude.Int.{ℤ, pos, negsuc}
use gohbase.Bytes.{Bytes}
use gohbase.Bytes.BigEndian.{put_uint64}
use gohbase.Mutate.{Values}
use gohbase.Options.{
  max_int32, BaseQuery, ScanCall, GetCall, MutateCall, Request, scan, get, mutate, other,
  CallOption, families, filters, time_range, time_range_uint64, max_versions,
  max_results_per_column_family, result_offset, cache_blocks, consistency, scanner_id,
  close_scanner, max_result_size, number_of_rows, allow_partial_results, reversed, ttl, timestamp,
  timestamp_uint64, durability, delete_one_version, skip_batch, OptionError, zero_result_size,
  set_filter, set_timestamp, with_query, with_scan, with_mutate, set_time_range, checked,
  set_skip_batch, set_durability, apply_option, apply_options,
}

-- A query's time range is not empty, and its numbers fit a signed field of 32 bits.
abbrev pub ValidQuery : BaseQuery → Type 0
ValidQuery q =
    (q.from_timestamp < q.to_timestamp)
    × (q.max_versions ≤ max_int32)
    × (q.store_limit ≤ max_int32)
    × (q.store_offset ≤ max_int32)

abbrev pub ValidScan : ScanCall → Type 0
ValidScan s = ValidQuery s.query × (0 < s.max_result_size)

abbrev pub ValidGet : GetCall → Type 0
ValidGet g = ValidQuery g.query

abbrev pub ValidMutate : MutateCall → Type 0
ValidMutate m = m.durability ≤ 4

abbrev pub Valid : Request → Type 0
Valid (scan s) = ValidScan s
Valid (get g) = ValidGet g
Valid (mutate m) = ValidMutate m
Valid other = Unit {0}

-- What no option changes.
pub data Identity : Type 0 where
  of_scan : Bytes → Identity
  of_get : Bytes → Bytes → Identity
  of_mutate : Bytes → Bytes → Values → Identity
  of_other : Identity

abbrev pub identity : Request → Identity
identity (scan s) = of_scan s.table
identity (get g) = of_get g.table g.key
identity (mutate m) = of_mutate m.table m.mutation.key m.mutation.values
identity other = of_other

-- A result that is no panic, and that has a property where it is no error.
abbrev pub Outcome {ℓ κ} : {E : Type ℓ} {A : Type κ} → (A → Type 0) → Result E A → Type 0
Outcome P (ok a) = P a
Outcome P (err e) = Unit {0}
Outcome P panics = ⊥

pub Outcome->>= {ℓ κ μ} :
    {E : Type ℓ} {A : Type κ} {B : Type μ} (P : A → Type 0) (Q : B → Type 0) (first : Result E A)
    (next : A → Result E B)
    → Outcome P first
    → ((x : A) → P x → Outcome Q (next x))
    → Outcome Q (first >>= next)
Outcome->>= P Q panics next h keeps = h
Outcome->>= P Q (err e) next h keeps = h
Outcome->>= P Q (ok x) next h keeps = keeps x h

pub Outcome-mono {ℓ κ} :
    {E : Type ℓ} {A : Type κ} (P Q : A → Type 0) (r : Result E A)
    → ((x : A) → P x → Q x)
    → Outcome P r
    → Outcome Q r
Outcome-mono P Q panics imp h = h
Outcome-mono P Q (err e) imp h = h
Outcome-mono P Q (ok x) imp h = imp x h

abbrev pub Kept : Request → Request → Type 0
Kept r r' = Valid r' × (identity r' ≡ identity r)

with_query-Kept :
    (change : BaseQuery → Result OptionError BaseQuery) (r : Request)
    → ((q : BaseQuery) → ValidQuery q → Outcome ValidQuery (change q))
    → Valid r
    → Outcome (Kept r) (with_query change r)
unfolding with_query
with_query-Kept change (scan s) keeps (v, some_size) =
    Outcome->>= ValidQuery (Kept (scan s)) (change s.query) _ (keeps s.query v)
      (λ q h. ((h, some_size), refl))
with_query-Kept change (get g) keeps v =
    Outcome->>= ValidQuery (Kept (get g)) (change g.query) _ (keeps g.query v) (λ q h. (h, refl))
with_query-Kept change (mutate m) keeps v = tt
with_query-Kept change other keeps v = tt

abbrev KeptScan : ScanCall → ScanCall → Type 0
KeptScan s s' = ValidScan s' × (s'.table ≡ s.table)

with_scan-Kept :
    (change : ScanCall → Result OptionError ScanCall) (r : Request)
    → ((s : ScanCall) → ValidScan s → Outcome (KeptScan s) (change s))
    → Valid r
    → Outcome (Kept r) (with_scan change r)
unfolding with_scan
with_scan-Kept change (scan s) keeps v =
    Outcome->>= (KeptScan s) (Kept (scan s)) (change s) _ (keeps s v)
      (λ s' h. (h.0, ap of_scan h.1))
with_scan-Kept change (get g) keeps v = tt
with_scan-Kept change (mutate m) keeps v = tt
with_scan-Kept change other keeps v = tt

abbrev KeptMutate : MutateCall → MutateCall → Type 0
KeptMutate m m' = ValidMutate m' × (identity (mutate m') ≡ identity (mutate m))

with_mutate-Kept :
    (change : MutateCall → Result OptionError MutateCall) (r : Request)
    → ((m : MutateCall) → ValidMutate m → Outcome (KeptMutate m) (change m))
    → Valid r
    → Outcome (Kept r) (with_mutate change r)
unfolding with_mutate
with_mutate-Kept change (mutate m) keeps v =
    Outcome->>= (KeptMutate m) (Kept (mutate m)) (change m) _ (keeps m v) (λ m' h. h)
with_mutate-Kept change (scan s) keeps v = tt
with_mutate-Kept change (get g) keeps v = tt
with_mutate-Kept change other keeps v = tt

set_time_range-ValidQuery :
    (from to : ℕ) (q : BaseQuery) → ValidQuery q → Outcome ValidQuery (set_time_range from to q)
unfolding set_time_range
set_time_range-ValidQuery from to q v = elim (Bool-cases (leb to from)) [
  | inl empty ↦ simp empty tt
  | inr range ↦ simp range (ground arith, v.1, v.2, v.3)
]

checked-ValidQuery :
    (n : ℕ) (q : BaseQuery) → (n ≤ max_int32 → ValidQuery q) → Outcome ValidQuery (checked n q)
unfolding checked
checked-ValidQuery n q v = elim (Bool-cases (ltb max_int32 n)) [
  | inl large ↦ simp large tt
  | inr fits ↦ simp fits (v (ground arith))
]

set_durability-KeptMutate :
    (d : ℤ) (m : MutateCall) → ValidMutate m → Outcome (KeptMutate m) (set_durability d m)
set_durability-KeptMutate (negsuc n) m v = tt
set_durability-KeptMutate (pos d) m v = elim (Bool-cases (ltb 4 d)) [
  | inl large ↦ simp large tt
  | inr fits ↦ simp fits (ground arith, refl)
]

result_size-KeptScan :
    (n : ℕ) (s : ScanCall)
    → ValidScan s
    → Outcome
        (KeptScan s)
        (if n == 0 then err zero_result_size else ok (record s { max_result_size = n }))
result_size-KeptScan n s v = elim (Bool-cases (n == 0)) [
  | inl none_left ↦ simp none_left tt
  | inr some_left ↦ simp some_left ((v.0, ground arith), refl)
]

set_skip_batch-Kept : (r : Request) → Valid r → Outcome (Kept r) (set_skip_batch r)
unfolding set_skip_batch
set_skip_batch-Kept (scan s) v = tt
set_skip_batch-Kept (get g) v = (v, refl)
set_skip_batch-Kept (mutate m) v = (v, refl)
set_skip_batch-Kept other v = tt

set_filter-ValidQuery :
    (f : Option Bytes) (q : BaseQuery) → ValidQuery q → Outcome ValidQuery (set_filter f q)
set_filter-ValidQuery none q v = tt
set_filter-ValidQuery (some f) q v = v

apply_option-Kept : (o : CallOption) (r : Request) → Valid r → Outcome (Kept r) (apply_option o r)
unfolding apply_option
apply_option-Kept (families f) r v =
    with_query-Kept (λ q. ok (record q { families = f })) r (λ q w. w) v
apply_option-Kept (filters f) r v = with_query-Kept (set_filter f) r (set_filter-ValidQuery f) v
apply_option-Kept (time_range from to) r v =
    with_query-Kept _ r (set_time_range-ValidQuery (from / 10 ^ 6) (to / 10 ^ 6)) v
apply_option-Kept (time_range_uint64 from to) r v =
    with_query-Kept _ r (set_time_range-ValidQuery from to) v
apply_option-Kept (max_versions n) r v =
    with_query-Kept (λ q. checked n (record q { max_versions = n })) r
      (λ q w. checked-ValidQuery n (record q { max_versions = n }) (λ h. (w.0, h, w.2, w.3))) v
apply_option-Kept (max_results_per_column_family n) r v =
    with_query-Kept (λ q. checked n (record q { store_limit = n })) r
      (λ q w. checked-ValidQuery n (record q { store_limit = n }) (λ h. (w.0, w.1, h, w.3))) v
apply_option-Kept (result_offset n) r v =
    with_query-Kept (λ q. checked n (record q { store_offset = n })) r
      (λ q w. checked-ValidQuery n (record q { store_offset = n }) (λ h. (w.0, w.1, w.2, h))) v
apply_option-Kept (cache_blocks b) r v =
    with_query-Kept (λ q. ok (record q { cache_blocks = b })) r (λ q w. w) v
apply_option-Kept (consistency c) r v =
    with_query-Kept (λ q. ok (record q { consistency = c })) r (λ q w. w) v
apply_option-Kept (scanner_id id) r v =
    with_scan-Kept (λ s. ok (record s { scanner_id = id })) r (λ s w. (w, refl)) v
apply_option-Kept close_scanner r v =
    with_scan-Kept (λ s. ok (record s { close_scanner = true })) r (λ s w. (w, refl)) v
apply_option-Kept (max_result_size n) r v = with_scan-Kept _ r (result_size-KeptScan n) v
apply_option-Kept (number_of_rows n) r v =
    with_scan-Kept (λ s. ok (record s { number_of_rows = n })) r (λ s w. (w, refl)) v
apply_option-Kept allow_partial_results r v =
    with_scan-Kept (λ s. ok (record s { allow_partial_results = true })) r (λ s w. (w, refl)) v
apply_option-Kept reversed r v =
    with_scan-Kept (λ s. ok (record s { reversed = true })) r (λ s w. (w, refl)) v
apply_option-Kept (ttl t) r v =
    with_mutate-Kept (λ m. ok (record m { ttl = put_uint64 (t / 10 ^ 6) })) r (λ m w. (w, refl)) v
apply_option-Kept (timestamp ts) r v =
    with_mutate-Kept (set_timestamp (ts / 10 ^ 6)) r (λ m w. (w, refl)) v
apply_option-Kept (timestamp_uint64 ts) r v =
    with_mutate-Kept (set_timestamp ts) r (λ m w. (w, refl)) v
apply_option-Kept (durability d) r v = with_mutate-Kept _ r (set_durability-KeptMutate d) v
apply_option-Kept delete_one_version r v =
    with_mutate-Kept
      (λ m. ok (record m { mutation = record m.mutation { delete_one_version = true } })) r
      (λ m w. (w, refl)) v
apply_option-Kept skip_batch r v = set_skip_batch-Kept r v

pub apply_options-Kept :
    (r : Request) (options : List CallOption) → Valid r → Outcome (Kept r) (apply_options r options)
unfolding apply_options
apply_options-Kept r [] v = (v, refl)
apply_options-Kept r (o ∷ options) v =
    Outcome->>= (Kept r) (Kept r) (apply_option o r) _ (apply_option-Kept o r v) (λ r' h.
      Outcome-mono (Kept r') (Kept r) (apply_options r' options) (λ r'' k. (k.0, k.1 ∙ h.1))
        (apply_options-Kept r' options h.0))
