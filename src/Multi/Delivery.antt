-- ===== src/Multi/Delivery.antt =====
-- A batch from add over toProto to returnResults: what each of its calls gets.
use gohbase.Prelude.{
  ℕ, suc, ◌^◌, ◌<◌, ◌≡◌, refl, subst, ◌≢◌, inl, inr, Bool, true, some, List, [], ◌∷◌, ◌++◌, map,
  arith, if◌then◌else◌, Option-cases, length, All, concat, ok,
}
use gohbase.Prelude.Permuted.{
  Permuted, nil, Permuted-refl, Permuted-append_left, Permuted-append_right, trans, Permuted-sym,
  All-Permuted, concat-Permuted,
}
use gohbase.Bytes.{Bytes}
use gohbase.Multi.{
  Call, Multi, Actions, Groups, RegionAction, region_action, to_proto, answered, failed, failure,
  Sent, send_all, answer_region, answer_regions, free, return_results, new_multi, add,
  unsupported_response,
}
use gohbase.Multi.Groups.{Entry, live, mark, members, IsGroup, IsBatchable, collect-Grouped}
use gohbase.Multi.Answers.{
  Server, AnswersEach, serve_region, expected, wanted, IsAt, live-IsAt, members-All,
  answer_calls-wanted, send_all-wanted,
}
use gohbase.Multi.Regions.{by_region, by_region-Permuted}

-- The calls that toProto sends.
pub unexpired : List Call → List Call
unexpired [] = []
unexpired (c ∷ cs) = let rest = unexpired cs in if c.expired then rest else c ∷ rest

live-unexpired :
    {B : Type 0} (f : Call → B) (i : ℕ) (cs : List Call)
    → map (λ x. f x.1) (live i cs) ≡ map f (unexpired cs)
unfolding live unexpired
live-unexpired f i [] = refl
live-unexpired f i (c ∷ cs) = ground (arith, live-unexpired f (suc i) cs)

send_all-failure :
    (e : ℕ) (cs : List Call)
    → send_all (λ c. true) (failure e) (map mark cs) ≡ map (λ c. (c.id, failure e)) (unexpired cs)
unfolding send_all unexpired
send_all-failure e [] = refl
send_all-failure e (c ∷ cs) = ground (arith, send_all-failure e cs)

module _ (s : Server) (is_cb : Bool) (cs : List Call) where
  abbrev entries : List Entry
  entries = live 0 cs

  answer_region-wanted :
      (g : ℕ × Actions)
      → AnswersEach s
      → All (IsAt s is_cb (map mark cs)) entries
      → IsGroup is_cb entries g
      → (sent : Sent) × (answer_region (map mark cs) (some g.0) (serve_region s (region_action g))
          ≡ ok sent)
        × Permuted sent (map (wanted s is_cb) (members g.0 entries))
  unfolding answer_region serve_region
  answer_region-wanted (r, acts) each located is_group =
      elim (Option-cases (s.region_exception r)) [
        | inl fine ↦
            let (sent, ran, same) =
              answer_calls-wanted s is_cb (map mark cs) r (members r entries) each fine
                (members-All s is_cb (IsAt s is_cb (map mark cs)) r entries located) in
            (sent, ground (arith, is_group, ran), same)
        | inr (e, failed_region) ↦ (
          map (wanted s is_cb) (members r entries),
          ground (arith, send_all-wanted s is_cb r 0 e cs failed_region),
          Permuted-refl _,
        )
      ]

  answer_regions-wanted :
      (gs : Groups)
      → AnswersEach s
      → All (IsAt s is_cb (map mark cs)) entries
      → All (IsGroup is_cb entries) gs
      → (sent : Sent) × (answer_regions
            (map mark cs)
            (map (λ g. g.0) gs)
            (map (serve_region s) (map region_action gs))
          ≡ ok sent)
        × Permuted sent (by_region (wanted s is_cb) entries gs)
  unfolding answer_regions
  answer_regions-wanted [] each located all_groups = ([], refl, nil)
  answer_regions-wanted (g ∷ gs) each located (here, there) =
      let (sent, ran, same) = answer_region-wanted g each located here in
      let (sent', ran', same') = answer_regions-wanted gs each located there in
      (
        sent ++ sent',
        rw (ran, ran') refl,
        trans (Permuted-append_right sent' same) (Permuted-append_left _ same'),
      )

  -- Each call of a batch whose context has no error gets one result, the one that the server has
  -- for its action or for its whole region, and a call whose context has an error gets none; where
  -- the request fails, the calls sent get that error, in the order of the batch. This holds in
  -- whatever order Go visits the map of regions, for every server that answers each action, in
  -- whatever order it gives the results of a region's actions, where the batch has fewer than 2 ^ 32
  -- calls and every call has messages that a batch supports.
  pub return_results-Permuted :
      (order : Groups → Groups) (queue_size : ℕ) (cbs : List Bytes)
      → ((gs : Groups) → Permuted gs (order gs))
      → AnswersEach s
      → All (IsBatchable is_cb) cs
      → All (λ c. c.response ≢ unsupported_response) cs
      → length cs < 2 ^ 32
      → (actions : List RegionAction) × (cbs' : List Bytes) × (size : ℕ) × (m : Multi)
        × (sent : Sent) × (to_proto order is_cb (add cs (new_multi queue_size)).0 cbs
            ≡ ok (actions, cbs', size, m))
        × (return_results m (answered (map (serve_region s) actions)) ≡ ok (sent, free m))
        × Permuted sent (map (expected s is_cb) (unexpired cs))
        × ((e : ℕ)
            → return_results m (failed e)
              ≡ ok (map (λ c. (c.id, failure e)) (unexpired cs), free m))
  unfolding to_proto return_results add new_multi
  return_results-Permuted order queue_size cbs permuted each batchable supported short =
      let (gs, size, ran, grouped) =
        collect-Grouped is_cb 0 cs [] 0 [] batchable
          (record { groups = tt; distinct = tt; covered = tt }) in
      let located = live-IsAt s is_cb 0 [] cs (map mark cs) refl refl (omega arith) supported in
      let (sent, answers, same) =
        answer_regions-wanted (order gs) each located
          (All-Permuted (IsGroup is_cb entries) (permuted gs) grouped.groups) in
      (
        map region_action (order gs),
        cbs ++ concat (map (λ g. g.1.cellblocks) (order gs)),
        size,
        record { size = queue_size; calls = map mark cs; regions = map (λ g. g.0) (order gs) },
        sent,
        rw ran refl,
        rw answers refl,
        subst (Permuted sent) (live-unexpired (expected s is_cb) 0 cs) (
            trans same (
              trans
                (Permuted-sym
                  (concat-Permuted (λ g. map (wanted s is_cb) (members g.0 entries)) (permuted gs)))
                (by_region-Permuted (wanted s is_cb) entries gs grouped.distinct grouped.covered))),
        λ e. rw (send_all-failure e cs) refl,
      )
