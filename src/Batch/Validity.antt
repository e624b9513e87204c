-- ===== src/Batch/Validity.antt =====
-- Which batches SendBatch accepts, and what its first loop makes of a batch.
use gohbase.Prelude.{
  ℕ, zero, suc, ◌+◌, ◌≡◌, refl, ap, ◌∙◌, inl, inr, Bool, true, false, ◌&&◌, ◌||◌, not, Option, none,
  some, List, [], ◌∷◌, arith, ◌==◌, Option-cases, length, get_elem?, All,
}
use gohbase.Bytes.{Bytes}
use gohbase.Bytes.Compare.{equal}
use gohbase.Batch.{
  BatchCall, BatchError, is_none, duplicate, not_executed, CallResult, Indexes, index_of,
  lookup_index, check_call, Validated, refuse, accept, validate,
}
use gohbase.Batch.Results.{AreIndexed}

unfoldable pub has_pointer : ℕ → List BatchCall → Bool
has_pointer p [] = false
has_pointer p (c ∷ cs) = c.pointer == p || has_pointer p cs

-- No call is there twice.
unfoldable pub are_distinct : List BatchCall → Bool
are_distinct [] = true
are_distinct (c ∷ cs) = not (has_pointer c.pointer cs) && are_distinct cs

-- All calls are for the table and may be in a batch.
unfoldable pub are_batchable : Bytes → List BatchCall → Bool
are_batchable table [] = true
are_batchable table (c ∷ cs) = (equal c.table table && c.batchable) && are_batchable table cs

unfoldable pub is_valid : List BatchCall → Bool
is_valid [] = true
is_valid (c ∷ cs) = are_distinct (c ∷ cs) && are_batchable c.table (c ∷ cs)

abbrev pub HasError : CallResult → Type 0
HasError r = (r.msg ≡ none) × ((e : BatchError) × (r.error ≡ some e))

are_new : Indexes → List BatchCall → Bool
are_new m [] = true
are_new m (c ∷ cs) = elim (lookup_index c.pointer m) [ none ↦ are_new m cs | some i ↦ false ]

are_new-cons :
    (p i : ℕ) (m : Indexes) (cs : List BatchCall)
    → are_new ((p, i) ∷ m) cs ≡ (not (has_pointer p cs) && are_new m cs)
unfolding are_new lookup_index has_pointer
are_new-cons p i m [] = refl
are_new-cons p i m (c ∷ cs) = ground (arith, are_new-cons p i m cs)

is_none-check_call :
    (table : Bytes) (c : BatchCall)
    → is_none (check_call table c) ≡ (equal c.table table && c.batchable)
unfolding check_call
is_none-check_call table c = ground arith

accept-all_ok :
    (o : Option BatchError) (v : Validated) → (accept o v).all_ok ≡ (is_none o && v.all_ok)
accept-all_ok none v = refl
accept-all_ok (some e) v = refl

accept-rpc_to_res : (o : Option BatchError) (v : Validated) → (accept o v).rpc_to_res ≡ v.rpc_to_res
accept-rpc_to_res none v = refl
accept-rpc_to_res (some e) v = refl

accept-HasError :
    (o : Option BatchError) (v : Validated) {n : ℕ}
    → All HasError v.res × (length v.res ≡ n)
    → All HasError (accept o v).res × (length (accept o v).res ≡ suc n)
accept-HasError none v (errors, as_long) = (((refl, (not_executed, refl)), errors), ap suc as_long)
accept-HasError (some e) v (errors, as_long) = (((refl, (e, refl)), errors), ap suc as_long)

module _ (table : Bytes) (i : ℕ) (m : Indexes) (c : BatchCall) (batch : List BatchCall) where
  validate-new :
      lookup_index c.pointer m ≡ none
      → validate table i m (c ∷ batch)
        ≡ accept (check_call table c) (validate table (suc i) ((c.pointer, i) ∷ m) batch)
  unfolding validate
  validate-new e = rw (e, validate) refl

  validate-duplicate :
      {j : ℕ}
      → lookup_index c.pointer m ≡ some j
      → validate table i m (c ∷ batch) ≡ refuse (duplicate j) (validate table (suc i) m batch)
  unfolding validate
  validate-duplicate e = rw (e, validate) refl

validate-all_ok :
    (table : Bytes) (i : ℕ) (m : Indexes) (batch : List BatchCall)
    → (validate table i m batch).all_ok
      ≡ (are_new m batch && (are_distinct batch && are_batchable table batch))
unfolding validate are_new are_distinct are_batchable
validate-all_ok table i m [] = refl
validate-all_ok table i m (c ∷ batch) = elim (Option-cases (lookup_index c.pointer m)) [
  | inl e ↦
      rw (validate-new table i m c batch e, e, are_new)
        (accept-all_ok (check_call table c) (validate table (suc i) ((c.pointer, i) ∷ m) batch)
          ∙ ground (
            arith,
            is_none-check_call table c,
            validate-all_ok table (suc i) ((c.pointer, i) ∷ m) batch,
            are_new-cons c.pointer i m batch,
          ))
  | inr (j, e) ↦ rw (validate-duplicate table i m c batch e, e, are_new) refl
]

are_new-nil : (cs : List BatchCall) → are_new [] cs ≡ true
unfolding are_new lookup_index
are_new-nil [] = refl
are_new-nil (c ∷ cs) = are_new-nil cs

pub is_valid-all_ok :
    (c : BatchCall) (cs : List BatchCall)
    → (validate c.table 0 [] (c ∷ cs)).all_ok ≡ is_valid (c ∷ cs)
unfolding is_valid are_new lookup_index
is_valid-all_ok c cs =
    validate-all_ok c.table 0 [] (c ∷ cs)
    ∙ ap (λ b. b && (are_distinct (c ∷ cs) && are_batchable c.table (c ∷ cs)))
        (are_new-nil (c ∷ cs))

pub validate-HasError :
    (table : Bytes) (i : ℕ) (m : Indexes) (batch : List BatchCall)
    → All HasError (validate table i m batch).res
      × (length (validate table i m batch).res ≡ length batch)
unfolding validate
validate-HasError table i m [] = (tt, refl)
validate-HasError table i m (c ∷ batch) = elim (Option-cases (lookup_index c.pointer m)) [
  | inl e ↦ rw (validate-new table i m c batch e) (
      accept-HasError (check_call table c) (validate table (suc i) ((c.pointer, i) ∷ m) batch)
        (validate-HasError table (suc i) ((c.pointer, i) ∷ m) batch))
  | inr (j, e) ↦ rw (validate-duplicate table i m c batch e) (
      accept-HasError (some (duplicate j)) (validate table (suc i) m batch)
        (validate-HasError table (suc i) m batch))
]

lookup-validate :
    (table : Bytes) (i : ℕ) (m : Indexes) (batch : List BatchCall) (p j : ℕ)
    → lookup_index p m ≡ some j
    → lookup_index p (validate table i m batch).rpc_to_res ≡ some j
unfolding validate lookup_index
lookup-validate table i m [] p j h = h
lookup-validate table i m (c ∷ batch) p j h = elim (Option-cases (lookup_index c.pointer m)) [
  | inl e ↦
      rw (e, validate)
        (ap (lookup_index p) (
            accept-rpc_to_res (check_call table c)
              (validate table (suc i) ((c.pointer, i) ∷ m) batch))
          ∙ lookup-validate table (suc i) ((c.pointer, i) ∷ m) batch p j
              (ground (arith, e, h, ap (λ q. lookup_index q m))))
  | inr (j', e) ↦ rw (e, validate) (lookup-validate table (suc i) m batch p j h)
]

-- Where all is well the first call is new.
validate-accepts :
    (table : Bytes) (i : ℕ) (m : Indexes) (x : BatchCall) (batch : List BatchCall)
    → (validate table i m (x ∷ batch)).all_ok ≡ true
    → (validate table i m (x ∷ batch)
        ≡ accept (check_call table x) (validate table (suc i) ((x.pointer, i) ∷ m) batch))
      × ((validate table (suc i) ((x.pointer, i) ∷ m) batch).all_ok ≡ true)
unfolding validate
validate-accepts table i m x batch fine = elim (Option-cases (lookup_index x.pointer m)) [
  | inl e ↦
      let known =
        accept-all_ok (check_call table x) (validate table (suc i) ((x.pointer, i) ∷ m) batch) in
      (validate-new table i m x batch e, ground (arith, e, fine, known))
  | inr (j, e) ↦ ground (arith, e, fine)
]

validate-indexes :
    (table : Bytes) (i : ℕ) (m : Indexes) (batch : List BatchCall) (k : ℕ) (c : BatchCall)
    → (validate table i m batch).all_ok ≡ true
    → get_elem? batch k ≡ some c
    → lookup_index c.pointer (validate table i m batch).rpc_to_res ≡ some (i + k)
unfolding lookup_index
validate-indexes table i m [] k c fine h = cc
validate-indexes table i m (x ∷ batch) zero c fine h =
    let later = validate table (suc i) ((x.pointer, i) ∷ m) batch in
    let (accepted, _) = validate-accepts table i m x batch fine in
    ap (λ v. lookup_index c.pointer v.rpc_to_res) accepted
    ∙ ap (lookup_index c.pointer) (accept-rpc_to_res (check_call table x) later)
    ∙ lookup-validate table (suc i) ((x.pointer, i) ∷ m) batch c.pointer (i + 0) (ground (arith, h))
validate-indexes table i m (x ∷ batch) (suc k) c fine h =
    let later = validate table (suc i) ((x.pointer, i) ∷ m) batch in
    let (accepted, rest) = validate-accepts table i m x batch fine in
    ap (λ v. lookup_index c.pointer v.rpc_to_res) accepted
    ∙ ap (lookup_index c.pointer) (accept-rpc_to_res (check_call table x) later)
    ∙ validate-indexes table (suc i) ((x.pointer, i) ∷ m) batch k c rest h
    ∙ ap (λ (n : ℕ). some n) (omega arith)

-- A batch that is valid: each call has its place in the map, and its result says not executed.
pub validate-AreIndexed :
    (c : BatchCall) (cs : List BatchCall)
    → (validate c.table 0 [] (c ∷ cs)).all_ok ≡ true
    → AreIndexed (validate c.table 0 [] (c ∷ cs)).rpc_to_res (c ∷ cs)
unfolding index_of
validate-AreIndexed c cs fine k x at =
    rw (validate-indexes c.table 0 [] (c ∷ cs) k x fine at, index_of) (omega arith)
