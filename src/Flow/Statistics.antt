-- ===== src/Flow/Statistics.antt =====
-- What asking a node for its statistics does to the subscriptions of its consumers.
use iceflow.Prelude.{
  ℕ, ◌≡◌, refl, ap, ◌∙◌, Bool, Option, none, some, ◌⊎◌, inl, inr, Option-cases, [], ◌∷◌, arith,
  String, any, is_listed, if◌then◌else◌,
}
use iceflow.Prelude.Dict.{Dict, lookup, NodupKeys}
use iceflow.Ndn.{Ndn, IsLawful, Generator}
use iceflow.Consumer
use iceflow.Consumer.{Consumer}
use iceflow.Consumer.Partitions.{subscription-destroy}
use iceflow.Producer
use iceflow.Producer.{Producer}
use iceflow.Stats.{EdgeProductionStats, EdgeConsumptionStats}
use iceflow.Timestamps.{clean_up_timestamps}
use iceflow.Flow.{
  Flow, IceFlow, consumer_stats, get_consumer_stats, producer_stats, get_producer_stats,
}
use iceflow.Flow.Setup.{IsReady, ServesEdge}

-- Whether one of the consumers holds the handle.
abbrev pub holds_handle : {K R : Type 0} → ℕ → Dict (Consumer K R) → Bool
holds_handle k = any (λ e. is_listed k e.1.subscription_handles)

module _ (N : Ndn) (L : IsLawful N) {K R : Type 0} where
  open N use {Svs, subscription}

  asked_handles :
      (now : ℕ) (c : Consumer K R)
      → (Consumer.get_consumption_stats now c).1.subscription_handles ≡ c.subscription_handles
  unfolding Consumer.get_consumption_stats
  asked_handles now c = refl

  -- What the loop over the consumers leaves of a live instance.
  Silenced : Dict (Consumer K R) → Svs → Option Svs → Type 0
  Silenced consumers s svs =
      (s' : Svs) × (svs ≡ some s')
      × ((k : ℕ)
          → subscription s' k ≡ (if holds_handle k consumers then none else subscription s k))

  consumer_stats-Silenced :
      (now : ℕ) (consumers : Dict (Consumer K R)) (s : Svs)
      → Silenced consumers s (consumer_stats N now consumers (some s)).1
  unfolding Silenced consumer_stats
  consumer_stats-Silenced now [] s = (s, refl, λ k. refl)
  consumer_stats-Silenced now ((name, c) ∷ consumers) s =
      let asked = (Consumer.get_consumption_stats now c).1 in
      let (s1, e1, gone) = subscription-destroy N L asked s in
      let (s2, e2, rest) = consumer_stats-Silenced now consumers s1 in
      (
        s2,
        ap (λ (o : Option Svs). (consumer_stats N now consumers o).1) e1 ∙ e2,
        λ k. ground (arith, rest k, gone k, asked_handles now c),
      )

module _ (N : Ndn) (L : IsLawful N) (E : Generator) {C K R : Type 0} where
  -- Asking a node with a live SVS instance for its consumer statistics ends every subscription that
  -- its consumers hold, and no other, while the consumers keep the handles: the loop destroys a
  -- copy of each.
  pub get_consumer_stats_unsubscribes :
      (now : ℕ) (t : Flow N E C K R) (s : N.Svs)
      → t.svs ≡ some s
      → (s' : N.Svs) × ((get_consumer_stats N E now t).1 ≡ record t { svs = some s' })
        × ((k : ℕ)
            → N.subscription s' k
              ≡ (if holds_handle k t.consumers then none else N.subscription s k))
  unfolding get_consumer_stats Silenced
  get_consumer_stats_unsubscribes now t s live =
      let (s', e, gone) = consumer_stats-Silenced N L {R = R} now t.consumers s in
      (
        s',
        ap (λ (o : Option N.Svs). record t { svs = (consumer_stats N now t.consumers o).1 }) live
            ∙ ap (λ (o : Option N.Svs). record t { svs = o }) e,
        gone,
      )

-- What a node tells of one of its producers, or of one of its consumers.
abbrev pub told_of_producer :
    {G R : Type 0} → ℕ → Option (Producer G R) → Option EdgeProductionStats
told_of_producer now none = none
told_of_producer now (some p) = some (Producer.get_production_stats now p).0

abbrev pub told_of_consumer :
    {K R : Type 0} → ℕ → Option (Consumer K R) → Option EdgeConsumptionStats
told_of_consumer now none = none
told_of_consumer now (some c) = some (Consumer.get_consumption_stats now c).0

module _ {G R : Type 0} (now : ℕ) where
  lookup-producer_stats :
      (edge : String) (d : Dict (Producer G R))
      → lookup edge (producer_stats now d) ≡ told_of_producer now (lookup edge d)
  unfolding producer_stats
  lookup-producer_stats edge [] = refl
  lookup-producer_stats edge ((k, p) ∷ d) = ground (arith, lookup-producer_stats edge d)

  producer_stats-NodupKeys :
      (d : Dict (Producer G R)) → NodupKeys d → NodupKeys (producer_stats now d)
  unfolding producer_stats
  producer_stats-NodupKeys [] h = tt
  producer_stats-NodupKeys ((k, p) ∷ d) h = (
    ground (arith, h.0, Option-cases (lookup k d), lookup-producer_stats k d),
    producer_stats-NodupKeys d h.1,
  )

module _ (N : Ndn) {K R : Type 0} (now : ℕ) where
  lookup-consumer_stats :
      (edge : String) (d : Dict (Consumer K R)) (svs : Option N.Svs)
      → lookup edge (consumer_stats N now d svs).0 ≡ told_of_consumer now (lookup edge d)
  unfolding consumer_stats
  lookup-consumer_stats edge [] svs = refl
  lookup-consumer_stats edge ((k, c) ∷ d) svs = ground (
    arith,
    lookup-consumer_stats edge d (Consumer.destroy N (Consumer.get_consumption_stats now c).1 svs),
  )

  consumer_stats-NodupKeys :
      (d : Dict (Consumer K R)) (svs : Option N.Svs)
      → NodupKeys d
      → NodupKeys (consumer_stats N now d svs).0
  unfolding consumer_stats
  consumer_stats-NodupKeys [] svs h = tt
  consumer_stats-NodupKeys ((k, c) ∷ d) svs h =
      let rest = Consumer.destroy N (Consumer.get_consumption_stats now c).1 svs in
      (
        ground (arith, h.0, Option-cases (lookup k d), lookup-consumer_stats k d rest),
        consumer_stats-NodupKeys d rest h.1,
      )

module _ (N : Ndn) (E : Generator) {C K R : Type 0} (now : ℕ) (t : Flow N E C K R) where
  pub get_producer_stats-told :
      (NodupKeys t.producers → NodupKeys (get_producer_stats now t))
      × ((edge : String)
          → lookup edge (get_producer_stats now t) ≡ told_of_producer now (lookup edge t.producers))
  unfolding get_producer_stats
  get_producer_stats-told =
      (producer_stats-NodupKeys now t.producers, λ edge. lookup-producer_stats now edge t.producers)

  pub get_consumer_stats-told :
      (NodupKeys t.consumers → NodupKeys (get_consumer_stats N E now t).0)
      × ((edge : String)
          → lookup edge (get_consumer_stats N E now t).0
            ≡ told_of_consumer now (lookup edge t.consumers))
  unfolding get_consumer_stats
  get_consumer_stats-told = (
    consumer_stats-NodupKeys N now t.consumers t.svs,
    λ edge. lookup-consumer_stats N now edge t.consumers t.svs,
  )

units_of :
    {G R : Type 0} (now : ℕ) (sync edge : String) (p : Producer G R)
    → ServesEdge sync edge p
    → (Producer.get_production_stats now p).0.units_produced ≡ 0
unfolding Producer.get_production_stats clean_up_timestamps
units_of now sync edge p h = rw (h.unstamped, clean_up_timestamps)

module _ {C S G K R : Type 0} where
  -- A ready node reports for each of its producers, and for no other edge, that no unit was produced.
  pub get_producer_stats_zero :
      (now : ℕ) (edge : String) (t : IceFlow C S G K R)
      → IsReady t
      → ((lookup edge t.producers ≡ none) × (lookup edge (get_producer_stats now t) ≡ none))
        ⊎ ((stats : EdgeProductionStats) × (lookup edge (get_producer_stats now t) ≡ some stats)
            × (stats.units_produced ≡ 0))
  unfolding get_producer_stats
  get_producer_stats_zero now edge t ready = elim (Option-cases (lookup edge t.producers)) [
    | inl e ↦ inl (e, lookup-producer_stats now edge t.producers ∙ rw e)
    | inr (p, e) ↦ inr (
      (Producer.get_production_stats now p).0,
      lookup-producer_stats now edge t.producers ∙ rw e,
      units_of now t.sync_prefix edge p (ready.producing edge p e),
    )
  ]
