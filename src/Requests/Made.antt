-- ===== src/Requests/Made.antt =====
-- The requests that the constructors make of their arguments and options.
use gohbase.Prelude.{
  ◌≤◌, ◌≡◌, refl, ◌≢◌, inl, inr, true, ◌&&◌, List, [], arith, ◌==◌, Bool-cases, length, ok, ◌>>=◌,
}
use gohbase.Bytes.{Bytes}
use gohbase.Mutate.{MutationType, append, increment, put, delete, Values}
use gohbase.Options.{
  ScanCall, GetCall, MutateCall, Request, scan, get, mutate, other, CallOption, apply_options,
}
use gohbase.Options.Validity.{
  ValidScan, ValidGet, ValidMutate, Valid, Outcome, Outcome->>=, Outcome-mono, Kept, identity,
  of_scan, of_get, of_mutate, apply_options-Kept,
}
use gohbase.Requests.{
  as_scan, as_get, as_mutate, default_scan, base_scan, new_scan_range, default_get, base_get,
  default_mutate, base_mutate, of_type, new_put, new_app, new_inc, deletion_of, new_del,
}

abbrev IsScan : Bytes → ScanCall → Type 0
IsScan table s = ValidScan s × (s.table ≡ table)

abbrev IsGet : Bytes → Bytes → GetCall → Type 0
IsGet table key g = ValidGet g × (of_get g.table g.key ≡ of_get table key)

abbrev IsMutate : Bytes → Bytes → Values → MutateCall → Type 0
IsMutate table key values m =
    ValidMutate m
    × (of_mutate m.table m.mutation.key m.mutation.values ≡ of_mutate table key values)

as_scan-IsScan :
    (table : Bytes) (r : Request)
    → Valid r
    → identity r ≡ of_scan table
    → Outcome (IsScan table) (as_scan r)
unfolding as_scan
as_scan-IsScan table (scan s) v same = (v, ground arith)
as_scan-IsScan table (get g) v same = cc
as_scan-IsScan table (mutate m) v same = cc
as_scan-IsScan table other v same = cc

as_get-IsGet :
    (table key : Bytes) (r : Request)
    → Valid r
    → identity r ≡ of_get table key
    → Outcome (IsGet table key) (as_get r)
unfolding as_get
as_get-IsGet table key (get g) v same = (v, same)
as_get-IsGet table key (scan s) v same = cc
as_get-IsGet table key (mutate m) v same = cc
as_get-IsGet table key other v same = cc

as_mutate-IsMutate :
    (table key : Bytes) (values : Values) (r : Request)
    → Valid r
    → identity r ≡ of_mutate table key values
    → Outcome (IsMutate table key values) (as_mutate r)
unfolding as_mutate
as_mutate-IsMutate table key values (mutate m) v same = (v, same)
as_mutate-IsMutate table key values (scan s) v same = cc
as_mutate-IsMutate table key values (get g) v same = cc
as_mutate-IsMutate table key values other v same = cc

base_scan-IsScan :
    (table : Bytes) (options : List CallOption) → Outcome (IsScan table) (base_scan table options)
unfolding base_scan default_scan
base_scan-IsScan table options =
    Outcome->>= (Kept (scan (default_scan table))) (IsScan table)
      (apply_options (scan (default_scan table)) options) as_scan
      (apply_options-Kept (scan (default_scan table)) options
        ((omega arith, omega arith, omega arith, omega arith), omega arith))
      (λ r k. as_scan-IsScan table r k.0 k.1)

base_get-IsGet :
    (table key : Bytes) (options : List CallOption)
    → Outcome (IsGet table key) (base_get table key options)
unfolding base_get default_get
base_get-IsGet table key options =
    Outcome->>= (Kept (get (default_get table key))) (IsGet table key)
      (apply_options (get (default_get table key)) options) as_get
      (apply_options-Kept (get (default_get table key)) options
        (omega arith, omega arith, omega arith, omega arith))
      (λ r k. as_get-IsGet table key r k.0 k.1)

base_mutate-IsMutate :
    (table key : Bytes) (values : Values) (options : List CallOption)
    → Outcome (IsMutate table key values) (base_mutate table key values options)
unfolding base_mutate default_mutate
base_mutate-IsMutate table key values options =
    Outcome->>= (Kept (mutate (default_mutate table key values))) (IsMutate table key values)
      (apply_options (mutate (default_mutate table key values)) options) as_mutate
      (apply_options-Kept (mutate (default_mutate table key values)) options (omega arith))
      (λ r k. as_mutate-IsMutate table key values r k.0 k.1)

-- Making a scan or a get never panics, whatever the options; what is made has a time range that is
-- not empty, numbers of versions, of cells and an offset of 31 bits, and the table and the rows that
-- it was made of. A scan's key is its start row, and its maximal result size is above 0.
pub new_query-Valid :
    (table start_row stop_row : Bytes) (options : List CallOption)
    → Outcome
        (λ s.
          ValidScan s
          × (s.table ≡ table)
          × (s.start_row ≡ start_row)
          × (s.stop_row ≡ stop_row)
          × (s.key ≡ start_row))
        (new_scan_range table start_row stop_row options)
      × Outcome
          (λ g. ValidGet g × (g.table ≡ table) × (g.key ≡ start_row))
          (base_get table start_row options)
unfolding new_scan_range
new_query-Valid table start_row stop_row options = (
  Outcome->>= (IsScan table) _ (base_scan table options) _ (base_scan-IsScan table options)
      (λ s h. (h.0, h.1, refl, refl, refl)),
  Outcome-mono (IsGet table start_row) _ (base_get table start_row options)
      (λ g h. (h.0, ground (arith, h.1), ground (arith, h.1)))
      (base_get-IsGet table start_row options),
)

-- What a mutation of a type is made of.
abbrev pub IsMade : MutationType → Bytes → Bytes → Values → MutateCall → Type 0
IsMade typ table key values m =
    (m.durability ≤ 4)
    × (m.mutation.mutation_type ≡ typ)
    × (m.table ≡ table)
    × (m.mutation.key ≡ key)
    × (m.mutation.values ≡ values)

IsMutate-IsMade :
    (typ : MutationType) (table key : Bytes) (values : Values) (m : MutateCall)
    → IsMutate table key values m
    → IsMade typ table key values (of_type typ m)
IsMutate-IsMade typ table key values m (v, same) =
    (v, refl, ground arith, ground arith, ground arith)

of_type-IsMade :
    (typ : MutationType) (table key : Bytes) (values : Values) (options : List CallOption)
    → Outcome
        (IsMade typ table key values)
        (base_mutate table key values options >>= (λ m. ok (of_type typ m)))
of_type-IsMade typ table key values options =
    Outcome->>= (IsMutate table key values) (IsMade typ table key values)
      (base_mutate table key values options) _ (base_mutate-IsMutate table key values options)
      (IsMutate-IsMade typ table key values)

abbrev pub IsDeletion : Bytes → Bytes → Values → MutateCall → Type 0
IsDeletion table key values m =
    IsMade delete table key values m × (m.mutation.delete_one_version ≡ true → values ≢ [])

deletion_of-IsDeletion :
    (table key : Bytes) (values : Values) (m : MutateCall)
    → IsMutate table key values m
    → Outcome (IsDeletion table key values) (deletion_of m)
unfolding deletion_of
deletion_of-IsDeletion table key values m h =
    elim (Bool-cases (length m.mutation.values == 0 && m.mutation.delete_one_version)) [
      | inl refused ↦ simp refused tt
      | inr allowed ↦ simp allowed (
        IsMutate-IsMade delete table key values m h,
        λ one empty.
            let same : m.mutation.values ≡ values =
              (IsMutate-IsMade delete table key values m h).4 in
            ground arith,
      )
    ]

-- Making a put, an append, an increment or a delete never panics, whatever the options; the
-- mutation that is made has its type, the table, key and values that it was made of, and one of the
-- five durabilities, and a delete of one version has values.
pub new_mutation-IsMade :
    (table key : Bytes) (values : Values) (options : List CallOption)
    → Outcome (IsMade put table key values) (new_put table key values options)
      × Outcome (IsMade append table key values) (new_app table key values options)
      × Outcome (IsMade increment table key values) (new_inc table key values options)
      × Outcome (IsDeletion table key values) (new_del table key values options)
unfolding new_put new_app new_inc new_del
new_mutation-IsMade table key values options = (
  of_type-IsMade put table key values options,
  of_type-IsMade append table key values options,
  of_type-IsMade increment table key values options,
  Outcome->>= (IsMutate table key values) (IsDeletion table key values)
      (base_mutate table key values options) deletion_of
      (base_mutate-IsMutate table key values options) (deletion_of-IsDeletion table key values),
)
