-- ===== src/Establish/Interleaved.antt =====
-- Goroutines in any interleaving, the regions that they hold, and what they do next.
use gohbase.Prelude.{
  ℕ, ◌+◌, ◌≡◌, refl, sym, ap, subst, ◌∙◌, ◌≢◌, inl, inr, none, List, [], ◌∷◌, ◌++◌, arith, All,
  All-append, All-append_left, All-append_right,
}
use gohbase.Availability.{new_info}
use gohbase.Establish.{
  Reg, RegionAction, mark_available, hand_over, del_region, del_client, put_region,
  mark_unavailable, set_client, put_client, dial, Run,
}
use gohbase.Establish.Ownership.{settle, left, Leaves}
use gohbase.Establish.Harmless.{
  Leaves-ne-panics, client_down-IsHarmless, mark_and_reestablish-IsHarmless, close_all-IsHarmless,
}
use gohbase.Calls.Shared.{send_rpc-IsHarmless}
use gohbase.Establish.Released.{Releases, establish_region-Releases, reestablish_region-Releases}
use gohbase.Establish.System.{
  perform, Happens, Thread, System, keeps, IsStarted, Starts, Begin, sends, took_down, marked_one,
  closed_all, SystemStep, acts, begins, ReachableSystem, start, step, count, total, holders, IsSafe,
}
use gohbase.Establish.Holders.{
  total-append, perform-ne-none, keeps-counted, act-ne-err, keeps-IsSafe, given,
}

Begin-IsSafe : (actions : List RegionAction) → Begin actions → IsSafe ([], actions)
Begin-IsSafe actions (sends admin tries backoff e) =
    subst (λ xs. IsSafe ([], xs)) (sym e) (send_rpc-IsHarmless admin tries backoff [])
Begin-IsSafe actions (took_down reg marked down e) =
    subst (λ xs. IsSafe ([], xs)) (sym e) (client_down-IsHarmless reg marked down [])
Begin-IsSafe actions (marked_one reg marked e) =
    subst (λ xs. IsSafe ([], xs)) (sym e) (mark_and_reestablish-IsHarmless reg marked [])
Begin-IsSafe actions (closed_all regions e) =
    subst (λ xs. IsSafe ([], xs)) (sym e) (close_all-IsHarmless regions [])

IsStarted-Releases : (reg : Reg) (run : Run) → IsStarted reg run → Releases (reg.pointer ∷ []) run
IsStarted-Releases reg run (admin, rounds, stays, inl (addr, e)) =
    subst (Releases (reg.pointer ∷ [])) (sym e)
      (establish_region-Releases admin rounds 0 reg addr stays)
IsStarted-Releases reg run (admin, rounds, stays, inr (is_closed, e)) =
    subst (Releases (reg.pointer ∷ [])) (sym e)
      (reestablish_region-Releases is_closed admin rounds reg stays)

Starts-counted :
    (a : RegionAction) (new : List Thread)
    → Starts a new
    → All IsSafe new × ((q : ℕ) → total q new ≡ given a q)
unfolding total count
Starts-counted (hand_over r) new (reg, run, same, started, e) = rw e (
  (
    Leaves-ne-panics (left run.ending) (settle run.actions (r ∷ [])) (
        subst (λ p. Leaves (left run.ending) (settle run.actions (p ∷ []))) same
          (IsStarted-Releases reg run started).0),
    tt,
  ),
  (λ q. omega arith),
)
Starts-counted (mark_available r) new e = rw e (tt, λ q. refl)
Starts-counted (mark_unavailable r b) new e = rw e (tt, λ q. refl)
Starts-counted (del_region r) new e = rw e (tt, λ q. refl)
Starts-counted (del_client r) new e = rw e (tt, λ q. refl)
Starts-counted (put_region r) new e = rw e (tt, λ q. refl)
Starts-counted (set_client r c) new e = rw e (tt, λ q. refl)
Starts-counted (put_client addr r c) new e = rw e (tt, λ q. refl)
Starts-counted (dial c) new e = rw e (tt, λ q. refl)

-- Every goroutine is safe, and a region that is unavailable is held by one of them.
abbrev pub IsCoherent : System → Type 0
IsCoherent s = All IsSafe s.threads × ((q : ℕ) → total q s.threads ≡ holders (s.infos q))

-- The counts around one goroutine.
around :
    (s : System) (before after : List Thread) (owned : List ℕ) (actions : List RegionAction)
    → s.threads ≡ before ++ ((owned, actions) ∷ after)
    → IsCoherent s
    → (q : ℕ) → count q owned + (total q before + total q after) ≡ holders (s.infos q)
unfolding total
around s before after owned actions e (safe, counted) q =
    let split : total q s.threads ≡ total q before + (count q owned + total q after) =
      ap (total q) e ∙ total-append q before ((owned, actions) ∷ after) in
    omega (arith, split, counted q)

SystemStep-IsCoherent : {s s' : System} → SystemStep s s' → IsCoherent s → IsCoherent s'
unfolding total count
SystemStep-IsCoherent {s} {s'} (acts before after new owned a rest e happens done starts e') h =
    let counted = around s before after owned (a ∷ rest) e h in
    let others : ℕ → ℕ = λ q. total q before + total q after in
    let split = subst (All IsSafe) e h.0 in
    let safe = (All-append_right IsSafe before ((owned, a ∷ rest) ∷ after) split) in
    let (no_panic, safe') =
      keeps-IsSafe a rest owned (act-ne-err s.infos others owned counted a happens) safe.0 in
    let (new_safe, new_total) = Starts-counted a new starts in
    (
      subst (All IsSafe) (sym e') (
          All-append IsSafe new (before ++ ((keeps a owned, rest) ∷ after)) new_safe (
            All-append IsSafe before ((keeps a owned, rest) ∷ after)
              (All-append_left IsSafe before ((owned, a ∷ rest) ∷ after) split) (safe', safe.1))),
      (λ q.
          let whole : total q s'.threads
              ≡ total q new + (total q before + (count q (keeps a owned) + total q after)) =
            ap (total q) e'
            ∙ total-append q new (before ++ ((keeps a owned, rest) ∷ after))
            ∙ ap (λ (n : ℕ). total q new + n)
                (total-append q before ((keeps a owned, rest) ∷ after)) in
          omega (
            arith,
            whole,
            new_total q,
            keeps-counted s.infos others owned counted a no_panic happens done q,
          )),
    )
SystemStep-IsCoherent {s} {s'} (begins actions begin e e') (safe, counted) = (
  subst (All IsSafe) (sym e') (Begin-IsSafe actions begin, safe),
  (λ q.
      let more : total q s'.threads ≡ 0 + total q s.threads = ap (total q) e' in
      let same : holders (s'.infos q) ≡ holders (s.infos q) = ap (λ f. holders (f q)) e in
      omega (arith, more, counted q, same)),
)

ReachableSystem-IsCoherent : {s : System} → ReachableSystem s → IsCoherent s
unfolding total new_info
ReachableSystem-IsCoherent start = (tt, λ q. refl)
ReachableSystem-IsCoherent (step r st) = SystemStep-IsCoherent st (ReachableSystem-IsCoherent r)

-- In every interleaving of goroutines that call SendRPC, that handle the errors of a batch, or that
-- close the client, and of those that they start to reestablish regions: the next action of a
-- goroutine, where it happens, does not panic, so that no channel is closed twice; and the number of
-- goroutines that hold a region, which have yet to make it available again or to hand it over, or
-- have ended with it, is one where the region is unavailable and zero where it is available.
pub ReachableSystem-safe :
    {s : System} (before after : List Thread) (owned : List ℕ) (a : RegionAction)
    (rest : List RegionAction)
    → ReachableSystem s
    → s.threads ≡ before ++ ((owned, a ∷ rest) ∷ after)
    → Happens a s.infos
    → (perform a s.infos ≢ none) × ((q : ℕ) → total q s.threads ≡ holders (s.infos q))
ReachableSystem-safe {s} before after owned a rest r e happens =
    let h = ReachableSystem-IsCoherent r in
    let counted = around s before after owned (a ∷ rest) e h in
    let others : ℕ → ℕ = λ q. total q before + total q after in
    let split = subst (All IsSafe) e h.0 in
    let safe = (All-append_right IsSafe before ((owned, a ∷ rest) ∷ after) split) in
    let (no_panic, _) =
      keeps-IsSafe a rest owned (act-ne-err s.infos others owned counted a happens) safe.0 in
    (perform-ne-none s.infos others owned counted a no_panic happens, h.1)
