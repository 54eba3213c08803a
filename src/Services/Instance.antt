-- ===== src/Services/Instance.antt =====
-- The partitions that a request stands for, and what it does to the node.
use Prim.Native.String.{◌++◌ as ◌<>◌}
use iceflow.Prelude.{
  ℕ, zero, suc, ◌+◌, ◌-◌, ◌%◌, ◌^◌, ◌<◌, ◌≡◌, ap, true, ◌&&◌, ◌||◌, ◌⊎◌, inl, inr, none, some, List,
  String, arith, ltb, leb, if◌then◌else◌, is_listed, Option-cases,
}
use iceflow.Prelude.Errors.{throw, runtime_error}
use iceflow.Prelude.Dict.{lookup, insert}
use iceflow.Ndn.{Ndn, IsLawful, Generator}
use iceflow.Consumer.{Consumer}
use iceflow.Consumer.Partitions.{Serves, Others, Replaced}
use iceflow.Flow.{Flow, repartition_consumer, no_consumer}
use iceflow.Flow.Setup.{IsReady}
use iceflow.Flow.Routing.{repartition_consumer_lem}
use iceflow.Services.{
  Status, success, failure, invalid_argument, RepartitionRequest, RepartitionResponse, iota,
  requested_partitions, respond, repartition,
}

-- The distance from `value` on, around 2^32, is below the count.
is_listed-iota :
    (count value k : ℕ)
    → count < 2 ^ 32
    → value < 2 ^ 32
    → is_listed k (iota count value) ≡ (ltb k (2 ^ 32) && ltb ((k + 2 ^ 32 - value) % 2 ^ 32) count)
unfolding iota
is_listed-iota zero value k h v = ground arith
is_listed-iota (suc count) value k h v =
    ground (arith, is_listed-iota count ((value + 1) % 2 ^ 32) k)

-- The partitions of a request with 32-bit bounds are those from the lower bound on and below the
-- upper one; if the lower bound is above the upper one, they are all the 32-bit numbers but those
-- from the upper bound on and below the lower one.
pub is_listed-requested_partitions :
    (lower upper k : ℕ)
    → lower < 2 ^ 32
    → upper < 2 ^ 32
    → is_listed k (requested_partitions lower upper) ≡ (
        if leb lower upper
        then (leb lower k && ltb k upper)
        else (ltb k upper || (leb lower k && ltb k (2 ^ 32))))
unfolding requested_partitions
is_listed-requested_partitions lower upper k l u =
    ground (arith, is_listed-iota ((upper + 2 ^ 32 - lower) % 2 ^ 32) lower k)

module _ (N : Ndn) (E : Generator) {C K R : Type 0} where
  refused :
      (request : RepartitionRequest) (response : RepartitionResponse) (t : Flow N E C K R)
      → lookup request.edge_name t.consumers ≡ none
      → repartition_consumer N E request.edge_name
          (requested_partitions request.lower_partition_bound request.upper_partition_bound)
          t
        ≡ (throw (runtime_error (no_consumer request.edge_name)), t)
  unfolding repartition_consumer
  refused request response t e = rw (e, repartition_consumer)

module _ (N : Ndn) (E : Generator) {C K R : Type 0} where
  -- A node before and after the consumer of an edge got partitions: it holds one subscription for
  -- each, in order, in place of those that it held.
  abbrev pub Repartitioned : String → List ℕ → Flow N E C K R → Flow N E C K R → Type 0
  Repartitioned edge partitions t t' =
      (c : Consumer K R) × (handles : List ℕ) × (s s' : N.Svs) × (lookup edge t.consumers ≡ some c)
      × (t.svs ≡ some s)
      × (t' ≡ record t {
        svs = some s';
        consumers = insert edge (record c { subscription_handles = handles }) t.consumers;
      })
      × Serves N (t.sync_prefix <> ("/" <> edge)) edge partitions handles s'
      × Others N c.subscription_handles s s'
      × Replaced N c.subscription_handles handles s s'

module _ (N : Ndn) (L : IsLawful N) (E : Generator) {C K R : Type 0} where
  -- A request to repartition an edge of a ready node. Without a consumer for the edge it is answered
  -- by an error, with `success` as it was, and nothing changes. Otherwise it is answered by a
  -- success; the consumer then holds one subscription for each requested partition of the edge's topic,
  -- in order, and no other; those that it held before are gone, every live one that it did not hold
  -- is as it was, and nothing else of the node changes.
  pub repartition_request_lem :
      (request : RepartitionRequest) (response : RepartitionResponse) (t : Flow N E C K R)
      → IsReady t
      → let (status, response', t') = repartition N E request response t in
        let edge = request.edge_name in
        let lower = request.lower_partition_bound in
        let upper = request.upper_partition_bound in
        ((lookup edge t.consumers ≡ none)
          × (status ≡ failure invalid_argument "Consumer repartitioning has failed.")
          × (response'.success ≡ response.success)
          × (t' ≡ t))
        ⊎ ((status ≡ success)
            × (response'.success ≡ true)
            × Repartitioned N E edge (requested_partitions lower upper) t t')
  unfolding repartition respond
  repartition_request_lem request response t ready =
      elim (Option-cases (lookup request.edge_name t.consumers)) [
        | inl e ↦
            let done = ap (respond request response) (refused N E request response t e) in
            inl (
              e,
              ap (λ (r : Status × RepartitionResponse × Flow N E C K R). r.0) done,
              ap (λ (r : Status × RepartitionResponse × Flow N E C K R). r.1.success) done,
              ap (λ (r : Status × RepartitionResponse × Flow N E C K R). r.2) done,
            )
        | inr (c, e) ↦
            let (handles, s, s', live, run, serves, others, replaced) =
              repartition_consumer_lem N L E request.edge_name
                (requested_partitions request.lower_partition_bound request.upper_partition_bound) t
                c ready e in
            let done = ap (respond request response) run in
            inr (
              ap (λ (r : Status × RepartitionResponse × Flow N E C K R). r.0) done,
              ap (λ (r : Status × RepartitionResponse × Flow N E C K R). r.1.success) done,
              (
                c,
                handles,
                s,
                s',
                e,
                live,
                ap (λ (r : Status × RepartitionResponse × Flow N E C K R). r.2) done,
                serves,
                others,
                replaced,
              ),
            )
      ]
