-- ===== src/Services/Executor/Joined.antt =====
-- What an executor learns of the edges of its node.
use iceflow.Prelude.{
  ℕ, ◌%◌, ◌^◌, ◌≡◌, refl, ap, ◌∙◌, Option, none, some, [], ◌∷◌, arith, String, str_eq_iff,
  if◌then◌else◌, Option-cases, ◌⊎◌, inl, inr, false,
}
use iceflow.Prelude.Errors.{ok}
use iceflow.Prelude.Dict.{Dict, lookup, insert, lookup-insert, NodupKeys}
use iceflow.Ndn.{Ndn, IsLawful, Generator}
use iceflow.Flow.{Flow, get_consumer_stats, get_producer_stats}
use iceflow.Flow.Statistics.{
  holds_handle, told_of_producer, told_of_consumer, get_producer_stats-told,
  get_consumer_stats-told, get_consumer_stats_unsubscribes,
}
use iceflow.Services
use iceflow.Services.Executor
use iceflow.Services.Executor.{
  IceflowExecutor, add_production, add_consumption, with_consumption, query_edge_stats, Stub,
}
use iceflow.Services.{
  RepartitionRequest, RepartitionResponse, requested_partitions, Status, success, failure,
  UnitStats, StatsResponse, query_stats, add_production_stats, add_consumption_stats,
}
use iceflow.Services.Instance.{Repartitioned, repartition_request_lem}
use iceflow.Flow.Setup.{IsReady}
use iceflow.Stats.{EdgeStats, EdgeProductionStats, EdgeConsumptionStats}

-- The statistics of an edge as they arrive: the units modulo 2^32.
abbrev pub received_production : Option EdgeProductionStats → Option EdgeProductionStats
received_production none = none
received_production (some x) = some (record x { units_produced = x.units_produced % 2 ^ 32 })

abbrev pub received_consumption : Option EdgeConsumptionStats → Option EdgeConsumptionStats
received_consumption none = none
received_consumption (some x) = some (record x { units_consumed = x.units_consumed % 2 ^ 32 })

-- What is known of an edge, from what is known of its two ends.
abbrev pub joined : Option EdgeProductionStats → Option EdgeConsumptionStats → Option EdgeStats
joined none none = none
joined p c = some (record { production_stats = p; consumption_stats = c })

abbrev pub or_else : Option EdgeProductionStats → Option EdgeStats → Option EdgeStats
or_else none o = o
or_else (some x) o = some (record { production_stats = some x; consumption_stats = none })

abbrev produced_entry : EdgeProductionStats → EdgeStats
produced_entry x = record {
  production_stats = some (record x { units_produced = x.units_produced % 2 ^ 32 });
  consumption_stats = none;
}

and_then : Option EdgeConsumptionStats → Option EdgeStats → Option EdgeStats
unfolding with_consumption
and_then none o = o
and_then (some x) o = some (with_consumption x o)

lookup-add_production :
    (edge : String) (produced : Dict EdgeProductionStats) (d : Dict EdgeStats)
    → NodupKeys produced
    → lookup edge (add_production (add_production_stats produced) d)
      ≡ or_else (received_production (lookup edge produced)) (lookup edge d)
unfolding add_production add_production_stats
lookup-add_production edge [] d h = refl
lookup-add_production edge ((k, x) ∷ produced) d h = ground (
  arith,
  str_eq_iff k edge,
  h.0,
  Option-cases (lookup edge produced),
  lookup-insert k edge (produced_entry x) d,
  lookup-add_production edge produced (insert k (produced_entry x) d) h.1,
)

lookup-add_consumption :
    (edge : String) (consumed : Dict EdgeConsumptionStats) (d : Dict EdgeStats)
    → NodupKeys consumed
    → lookup edge (add_consumption (add_consumption_stats consumed) d)
      ≡ and_then (received_consumption (lookup edge consumed)) (lookup edge d)
unfolding add_consumption add_consumption_stats and_then
lookup-add_consumption edge [] d h = refl
lookup-add_consumption edge ((k, x) ∷ consumed) d h =
    let v =
      with_consumption (record x { units_consumed = x.units_consumed % 2 ^ 32 }) (lookup k d) in
    ground (
      arith,
      str_eq_iff k edge,
      h.0,
      Option-cases (lookup edge consumed),
      lookup-insert k edge v d,
      lookup-add_consumption edge consumed (insert k v d) h.1,
    )

joined_lem :
    (p : Option EdgeProductionStats) (c : Option EdgeConsumptionStats)
    → and_then c (or_else p none) ≡ joined p c
unfolding and_then with_consumption
joined_lem none none = refl
joined_lem none (some c) = refl
joined_lem (some p) none = refl
joined_lem (some p) (some c) = refl

module _ (N : Ndn) (E : Generator) {C K R : Type 0} where
  -- The client of a channel that always reaches the node.
  abbrev pub direct : ℕ → Stub (Flow N E C K R)
  direct now = record { repartition = Services.repartition N E; query_stats = query_stats N E now }

module _ (N : Ndn) (L : IsLawful N) (E : Generator) {C K R : Type 0} where
  -- An executor that reaches its node learns, of each edge that has a producer or a consumer there
  -- and of no other, what those two tell, with the units modulo 2^32, where the SVS instance is
  -- live and no edge stands twice in the node's maps. The query ends every subscription that the
  -- node's consumers hold, and no other.
  pub query_edge_stats_lem :
      (now : ℕ) (t : Flow N E C K R) (s : N.Svs)
      → t.svs ≡ some s
      → NodupKeys t.producers
      → NodupKeys t.consumers
      → let (result, t') = query_edge_stats (direct N E now) t in
        (stats : Dict EdgeStats) × (s' : N.Svs) × (result ≡ ok stats)
        × ((edge : String)
            → lookup edge stats
              ≡ joined
                  (received_production (told_of_producer now (lookup edge t.producers)))
                  (received_consumption (told_of_consumer now (lookup edge t.consumers))))
        × (t' ≡ record t { svs = some s' })
        × ((k : ℕ)
            → N.subscription s' k
              ≡ (if holds_handle k t.consumers then none else N.subscription s k))
  unfolding query_edge_stats query_stats
  query_edge_stats_lem now t s live distinct distinct' =
      let (s', after, gone) = get_consumer_stats_unsubscribes N L E now t s live in
      let t' = (get_consumer_stats N E now t).1 in
      let kept : t'.producers ≡ t.producers = ap (λ (u : Flow N E C K R). u.producers) after in
      let (nodup, told) = get_producer_stats-told N E now t' in
      let (nodup', told') = get_consumer_stats-told N E now t in
      let nodup'' : NodupKeys t'.producers = rw kept distinct in
      (
        _,
        s',
        refl,
        (λ edge.
            lookup-add_consumption edge (get_consumer_stats N E now t).0
              (add_production (add_production_stats (get_producer_stats now t')) [])
              (nodup' distinct')
            ∙ rw
                (
                  lookup-add_production edge (get_producer_stats now t') [] (nodup nodup''),
                  told edge,
                  told' edge,
                  kept,
                )
                (joined_lem (received_production (told_of_producer now (lookup edge t.producers)))
                  (received_consumption (told_of_consumer now (lookup edge t.consumers))))),
        after,
        gone,
      )

module _ (N : Ndn) (L : IsLawful N) (E : Generator) {C K R A : Type 0} where
  -- `IceflowExecutor::repartition` of an edge of a ready node. Without a client, or without a consumer
  -- for the edge, nothing changes at the node. Otherwise the consumer then holds one subscription for
  -- each requested partition of the edge's topic, in order, and no other; those that it held before
  -- are gone, every live one that it did not hold is as it was, and nothing else of the node changes.
  pub repartition-direct :
      (now lower upper : ℕ) (edge : String) (x : IceflowExecutor (Flow N E C K R) A)
      (t : Flow N E C K R)
      → IsReady t
      → (x.node_instance_service ≡ none) ⊎ (x.node_instance_service ≡ some (direct N E now))
      → let t' = Executor.repartition x edge lower upper t in
        ((x.node_instance_service ≡ none) × (t' ≡ t))
        ⊎ ((lookup edge t.consumers ≡ none) × (t' ≡ t))
        ⊎ ((x.node_instance_service ≡ some (direct N E now))
            × Repartitioned N E edge (requested_partitions lower upper) t t')
  unfolding Executor.repartition
  repartition-direct now lower upper edge x t ready (inl away) =
      inl (away, rw (away, Executor.repartition))
  repartition-direct now lower upper edge x t ready (inr there) =
      let request : RepartitionRequest = record {
        edge_name = edge;
        lower_partition_bound = lower;
        upper_partition_bound = upper;
      } in
      let response : RepartitionResponse = record {
        edge_name = "";
        success = false;
        lower_partition_bound = 0;
        upper_partition_bound = 0;
      } in
      rw (there, Executor.repartition)
        (elim (repartition_request_lem N L E request response t ready) [
          | inl (missing, _, _, same) ↦ inr (inl (missing, same))
          | inr (_, _, done) ↦ inr (inr (refl, done))
        ])
