-- ===== src/Establish/Released.antt =====
-- rpc.go (establishRegion): what a run holds when it ends.
use gohbase.Prelude.{
  ℕ, ◌≡◌, refl, ◌≢◌, inl, inr, Bool, true, false, not, List, [], ◌∷◌, ◌++◌, arith, ◌==◌,
  if◌then◌else◌, Bool-cases, Option-cases, All, ok,
}
use gohbase.Bytes.{Bytes}
use gohbase.Bytes.Compare.{equal}
use gohbase.Backoff.{sleep_and_increase_backoff, backoff_start}
use gohbase.RegionClient.Exceptions.{
  RpcError, server_error, retryable_error, not_serving_region_error, plain_error,
}
use gohbase.Establish.{
  on_dial, reestablish_region, Reg, Lookup, looked_up, no_table, closed_client, context_ended,
  looking, lookup_region, Round, connected, canceled_dial, failed_dial, Dialed, RegionAction,
  mark_available, mark_unavailable, put_region, dial, put_client, dead, not_replaced, fatal, Run,
  ends, prepend, is_region_established, client_down, down_if_server, settle_with, probe, connect,
  del_clients, replace, look_up, resolve, establish_region,
}
use gohbase.Establish.Ownership.{
  holds, release, act, settle, left, Leaves, Leaves-append, client_down-Leaves, del_clients-Leaves,
}

-- The run gives up what it holds but for what its ending says.
abbrev pub Releases : List ℕ → Run → Type 0
Releases owned run = Leaves (left run.ending) (settle run.actions owned) × (run.ending ≢ fatal)

prepend-Releases :
    (actions : List RegionAction) (owned between : List ℕ) (run : Run)
    → Leaves between (settle actions owned)
    → Releases between run
    → Releases owned (prepend actions run)
unfolding prepend
prepend-Releases actions owned between run h (leaves, alive) =
    (Leaves-append actions run.actions owned between (left run.ending) h leaves, alive)

settle_with-Releases : (r c : ℕ) → Releases (r ∷ []) (settle_with r c)
unfolding settle act holds release left
settle_with-Releases r c = (inl (ground arith), λ e. cc)

dead-Releases : (r : ℕ) → Releases (r ∷ []) (ends (mark_available r ∷ []) dead)
unfolding settle act holds release left
dead-Releases r = (inl (ground arith), λ e. cc)

-- A context that is done stays done: where a lookup ends by the region's context, the context has an error
-- afterwards.
abbrev pub StaysDone : Round → Type 0
StaysDone round =
    lookup_region backoff_start round.tries ≡ context_ended → round.is_dead_after ≡ true

if-Releases :
    (b : Bool) (owned : List ℕ) (x y : Run)
    → Releases owned x
    → Releases owned y
    → Releases owned (if b then x else y)
if-Releases true owned x y hx hy = hx
if-Releases false owned x y hx hy = hy

module _ (admin : ℕ) (round : Round) (again : Reg → Run)
    (rest : (next : Reg) → Releases (next.pointer ∷ []) (again next)) where
  probe-Releases :
      (is_admin : Bool) (reg : Reg)
      → Releases (reg.pointer ∷ []) (probe is_admin round (again reg) reg.pointer)
  unfolding probe settle
  probe-Releases true reg = settle_with-Releases reg.pointer round.client
  probe-Releases false reg = elim (Option-cases (is_region_established round.probed)) [
    | inl e ↦ rw (e, probe) (settle_with-Releases reg.pointer round.client)
    | inr (cause, e) ↦
        rw (e, probe)
          (prepend-Releases (down_if_server cause (client_down reg.pointer round.marked round.down))
            (reg.pointer ∷ []) (reg.pointer ∷ []) (again reg) (down_if_server-Leaves cause)
            (rest reg))
  ]
    where
      down_if_server-Leaves :
          (cause : RpcError)
          → Leaves (reg.pointer ∷ []) (
              settle
                (down_if_server cause (client_down reg.pointer round.marked round.down))
                (reg.pointer ∷ []))
      down_if_server-Leaves (server_error c) =
          client_down-Leaves reg.pointer round.marked round.down (reg.pointer ∷ [])
      down_if_server-Leaves (retryable_error c) = inl refl
      down_if_server-Leaves (not_serving_region_error c) = inl refl
      down_if_server-Leaves (plain_error c) = inl refl

  on_dial-Releases :
      (d : Dialed) (is_admin : Bool) (reg : Reg)
      → Releases (reg.pointer ∷ []) (on_dial d is_admin round (again reg) reg.pointer)
  unfolding on_dial
  on_dial-Releases connected is_admin reg = probe-Releases is_admin reg
  on_dial-Releases canceled_dial is_admin reg = dead-Releases reg.pointer
  on_dial-Releases failed_dial is_admin reg =
      prepend-Releases (client_down reg.pointer round.marked round.down) (reg.pointer ∷ [])
        (reg.pointer ∷ []) (again reg)
        (client_down-Leaves reg.pointer round.marked round.down (reg.pointer ∷ [])) (rest reg)

  connect-Releases :
      (reg : Reg) (addr : Bytes) → Releases (reg.pointer ∷ []) (connect admin round again reg addr)
  unfolding connect settle act
  connect-Releases reg addr =
      let is_admin = reg.pointer == admin in
      let opening : List RegionAction =
        (if is_admin then [] else put_client addr reg.pointer round.client ∷ [])
        ++ (dial round.client ∷ []) in
      let neutral : settle opening (reg.pointer ∷ []) ≡ ok (reg.pointer ∷ []) = ground arith in
      prepend-Releases opening (reg.pointer ∷ []) (reg.pointer ∷ [])
        (on_dial round.dialed is_admin round (again reg) reg.pointer) (inl neutral)
        (on_dial-Releases round.dialed is_admin reg)

  replace-Releases :
      (original reg : Reg) (addr : Bytes)
      → Releases (original.pointer ∷ []) (replace admin round again original reg addr)
  unfolding replace settle act holds release left
  replace-Releases original reg addr =
      let new = reg.pointer in
      let old = original.pointer in
      let marked : Leaves (new ∷ old ∷ [])
          (settle (mark_unavailable new true ∷ put_region new ∷ []) (old ∷ [])) =
        elim (Bool-cases (old == new)) [
          | inl same ↦ inr (ground (arith, same))
          | inr other ↦ inl (ground (arith, other))
        ] in
      let freed : Leaves (new ∷ [])
          (settle (del_clients round.overlaps ++ (mark_available old ∷ [])) (new ∷ old ∷ [])) =
        Leaves-append (del_clients round.overlaps) (mark_available old ∷ []) (new ∷ old ∷ [])
          (new ∷ old ∷ []) (new ∷ []) (del_clients-Leaves round.overlaps (new ∷ old ∷ []))
          (inl (ground arith)) in
      let moved : Releases (new ∷ old ∷ []) (
          prepend (del_clients round.overlaps ++ (mark_available old ∷ []))
            (connect admin round again reg addr)) =
        prepend-Releases (del_clients round.overlaps ++ (mark_available old ∷ [])) (new ∷ old ∷ [])
          (new ∷ []) (connect admin round again reg addr) freed (connect-Releases reg addr) in
      let kept : Releases (new ∷ old ∷ [])
          (ends (mark_available new ∷ mark_available old ∷ []) not_replaced) =
        (inl (ground arith), λ e. cc) in
      prepend-Releases (mark_unavailable new true ∷ put_region new ∷ []) (old ∷ []) (new ∷ old ∷ [])
        _ marked (if-Releases (not round.replaced) (new ∷ old ∷ []) _ _ kept moved)

  -- The context of a region stays done.
  look_up-Releases :
      (reg : Reg) (l : Lookup)
      → (l ≡ context_ended → round.is_dead_after ≡ true)
      → Releases (reg.pointer ∷ []) (look_up admin round again reg l)
  unfolding look_up settle act holds release left
  look_up-Releases reg no_table stays = (inl (ground arith), λ e. cc)
  look_up-Releases reg looking stays = (inl (ground arith), λ e. cc)
  look_up-Releases reg closed_client stays =
      if-Releases round.is_dead_after (reg.pointer ∷ []) _ _ (dead-Releases reg.pointer)
        (inl refl, λ e. cc)
  look_up-Releases reg context_ended stays = rw (stays refl) (dead-Releases reg.pointer)
  look_up-Releases reg (looked_up new addr) stays =
      if-Releases round.is_dead_after (reg.pointer ∷ []) _ _ (dead-Releases reg.pointer) (
        if-Releases (not (equal new.name reg.name)) (reg.pointer ∷ []) _ _
          (replace-Releases reg new addr) (connect-Releases reg addr))

  resolve-Releases :
      (reg : Reg) (addr : Bytes)
      → StaysDone round
      → Releases (reg.pointer ∷ []) (resolve admin round again reg addr)
  unfolding resolve
  resolve-Releases reg [] stays =
      look_up-Releases reg (lookup_region backoff_start round.tries) stays
  resolve-Releases reg (a ∷ addr) stays = connect-Releases reg (a ∷ addr)

-- A run of establishRegion for a region that it holds, whatever the calls of its rounds return: it
-- marks as available or hands over only regions that it holds, each once, and when it ends it has given
-- up all that it held or marked as unavailable, so that those who wait for these regions go on; only the region that it is at is kept, where
-- the client is closed or the run waits for its next round. It never ends the program. A
-- context that is done stays done. The alternative is that the actions cannot all happen, since
-- MarkUnavailable would have returned true for a region that the run holds.
pub establish_region-Releases :
    (admin : ℕ) (rounds : List Round) (backoff : ℕ) (reg : Reg) (addr : Bytes)
    → All StaysDone rounds
    → Releases (reg.pointer ∷ []) (establish_region admin rounds backoff reg addr)
unfolding establish_region settle left
establish_region-Releases admin [] backoff reg addr stays = (inl refl, λ e. cc)
establish_region-Releases admin (round ∷ rounds) backoff reg addr (stays, more) =
    elim (Option-cases (sleep_and_increase_backoff round.is_dead backoff)) [
      | inl e ↦ rw (e, establish_region) (dead-Releases reg.pointer)
      | inr (backoff', e) ↦
          rw (e, establish_region)
            (resolve-Releases admin round (λ next. establish_region admin rounds backoff' next [])
              (λ next. establish_region-Releases admin rounds backoff' next [] more) reg addr stays)
    ]

pub reestablish_region-Releases :
    (is_closed : Bool) (admin : ℕ) (rounds : List Round) (reg : Reg)
    → All StaysDone rounds
    → Releases (reg.pointer ∷ []) (reestablish_region is_closed admin rounds reg)
unfolding reestablish_region settle left
reestablish_region-Releases true admin rounds reg stays = (inl refl, λ e. cc)
reestablish_region-Releases false admin rounds reg stays =
    establish_region-Releases admin rounds 0 reg [] stays
