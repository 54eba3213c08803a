-- ===== src/Flow/Routing.antt =====
-- Where the messages of a node go, and which partitions its consumers listen to.
use Prim.Native.String.{◌++◌ as ◌<>◌}
use iceflow.Prelude.{
  ℕ, ◌<◌, ◌≡◌, refl, ap, subst, sym, ◌∙◌, ◌⊎◌, inl, inr, Bool, Option, none, some, List, [], ◌∷◌,
  ◌++◌, String, str_eq, str_eq_iff, Option-cases, Bool-cases,
}
use iceflow.Prelude.Errors.{Result, ok, throw, runtime_error, invalid_argument, Exception}
use iceflow.Prelude.Dict.{Dict, lookup, insert, lookup-insert}
use iceflow.Ndn.{Ndn, IsLawful, Generator}
use iceflow.Consumer
use iceflow.Consumer.{Consumer}
use iceflow.Consumer.Partitions.{Serves, Others, Replaced, repartition_lem}
use iceflow.Producer
use iceflow.Producer.{Producer}
use iceflow.Producer.Topics.{
  set_topic_partitions_lem, push_data_published, push_data-set_topic_partitions,
}
use iceflow.Flow.{Flow, IceFlow, no_producer, push_data, repartition_producer, repartition_consumer}
use iceflow.Flow.Setup.{IsReady}

module _ (N : Ndn) (E : Generator) {C K R : Type 0} where
  pub push_data_known :
      (edge : String) (payload : List ℕ) (t : Flow N E C K R) (p : Producer E.State R)
      → lookup edge t.producers ≡ some p
      → let (p', svs') = Producer.push_data N E payload p t.svs in
        push_data N E edge payload t
        ≡ (ok tt, record t { svs = svs'; producers = insert edge p' t.producers })
  unfolding push_data
  push_data_known edge payload t p e = rw (e, push_data)

  pub push_data_unknown :
      (edge : String) (payload : List ℕ) (t : Flow N E C K R)
      → lookup edge t.producers ≡ none
      → push_data N E edge payload t ≡ (throw (runtime_error (no_producer edge)), t)
  unfolding push_data
  push_data_unknown edge payload t e = rw (e, push_data)

-- What a push leaves of the SVS instance, by the producer that is found.
sent :
    (N : Ndn) (E : Generator) {R : Type 0}
    → List ℕ
    → Option (Producer E.State R)
    → Option N.Svs
    → Option N.Svs
sent N E payload none svs = svs
sent N E payload (some p) svs = (Producer.push_data N E payload p svs).1

module _ (N : Ndn) (L : IsLawful N) (E : Generator) {C K R : Type 0} where
  open N use {Svs, published, subscription}

  -- The message that a push to an edge has published.
  abbrev pub Pushed : String → List ℕ → Flow N E C K R → Result (Unit {0}) × Flow N E C K R → Type 0
  Pushed edge payload t r =
      (p : Producer E.State R) × (s s' : Svs) × (partition : ℕ) × (lookup edge t.producers ≡ some p)
      × (t.svs ≡ some s)
      × (r.0 ≡ ok tt)
      × (r.1.svs ≡ some s')
      × (partition < p.number_of_partitions)
      × (published s'
          ≡ published s
            ++ (N.append_number (N.parse_name (t.sync_prefix <> ("/" <> edge))) partition, payload)
              ∷ [])

  -- A push to an edge without a producer throws and changes nothing. A push of a ready node to one of
  -- its edges publishes the payload once, under the application's name, the edge's and the number of
  -- a partition below the number that the edge's producer was made with.
  pub push_data_cases :
      (edge : String) (payload : List ℕ) (t : Flow N E C K R)
      → IsReady t
      → ((lookup edge t.producers ≡ none)
          × (push_data N E edge payload t ≡ (throw (runtime_error (no_producer edge)), t)))
        ⊎ Pushed edge payload t (push_data N E edge payload t)
  push_data_cases edge payload t ready = elim (Option-cases (lookup edge t.producers)) [
    | inl e ↦ inl (e, push_data_unknown N E edge payload t e)
    | inr (p, e) ↦
        let (s, live) = ready.live in
        let known = push_data_known N E edge payload t p e in
        let (partition, s', sent, below, log) =
          push_data_published N L E payload p s (ready.producing edge p e).positive in
        inr (
          p,
          s,
          s',
          partition,
          e,
          live,
          ap (λ (r : Result (Unit {0}) × Flow N E C K R). r.0) known,
          ap (λ (r : Result (Unit {0}) × Flow N E C K R). r.1.svs) known ∙ rw live sent,
          below,
          rw (← (ready.producing edge p e).topic) log,
        )
  ]

  svs-push_data :
      (edge : String) (payload : List ℕ) (t : Flow N E C K R)
      → (push_data N E edge payload t).1.svs ≡ sent N E payload (lookup edge t.producers) t.svs
  unfolding sent
  svs-push_data edge payload t = elim (Option-cases (lookup edge t.producers)) [
    | inl e ↦
        ap (λ (r : Result (Unit {0}) × Flow N E C K R). r.1.svs)
          (push_data_unknown N E edge payload t e)
        ∙ rw e
    | inr (p, e) ↦
        ap (λ (r : Result (Unit {0}) × Flow N E C K R). r.1.svs)
          (push_data_known N E edge payload t p e)
        ∙ rw e
  ]

module _ {C S G K R : Type 0} where
  -- `repartitionProducer` throws for an unknown edge and for no partitions, and then changes nothing;
  -- otherwise it replaces the edge's producer by one with the new set of topic partitions.
  pub repartition_producer_cases :
      (edge : String) (n : ℕ) (t : IceFlow C S G K R)
      → ((e : Exception) × (repartition_producer edge n t ≡ (throw e, t))
          × ((lookup edge t.producers ≡ none) ⊎ (n ≡ 0)))
        ⊎ ((p p' : Producer G R) × (lookup edge t.producers ≡ some p)
            × (Producer.set_topic_partitions n p ≡ ok p')
            × (repartition_producer edge n t
                ≡ (ok tt, record t { producers = insert edge p' t.producers })))
  unfolding repartition_producer
  repartition_producer_cases edge n t = elim (Option-cases (lookup edge t.producers)) [
    | inl e ↦ inl (runtime_error (no_producer edge), rw (e, repartition_producer), inl e)
    | inr (p, e) ↦ elim (set_topic_partitions_lem n p) [
      | inl (z, f) ↦ inl (
        invalid_argument "At least one topic partition has to be defined!",
        rw (e, repartition_producer) (rw f refl),
        inr z,
      )
      | inr (ps, nz, f, _, _) ↦
          inr
            (p, record p { topic_partitions = ps }, e, f, rw (e, repartition_producer) (rw f refl))
    ]
  ]

module _ (N : Ndn) (L : IsLawful N) (E : Generator) {R : Type 0} where
  sent-insert :
      (edge other : String) (n : ℕ) (payload : List ℕ) (d : Dict (Producer E.State R))
      (svs : Option N.Svs) (p p' : Producer E.State R)
      → lookup edge d ≡ some p
      → Producer.set_topic_partitions n p ≡ ok p'
      → sent N E payload (lookup other (insert edge p' d)) svs
        ≡ sent N E payload (lookup other d) svs
  unfolding sent
  sent-insert edge other n payload d svs p p' found set = elim (Bool-cases (str_eq edge other)) [
    | inl same ↦
        let here : lookup other d ≡ some p =
          subst (λ k. lookup k d ≡ some p) ((str_eq_iff edge other).0 same) found in
        rw (lookup-insert edge other p' d, same, here)
          (push_data-set_topic_partitions N L E n p p' payload svs set).0
    | inr differ ↦ rw (lookup-insert edge other p' d, differ)
  ]

module _ (N : Ndn) (L : IsLawful N) (E : Generator) {C K R : Type 0} where
  -- Repartitioning the producer of an edge has no effect on the next message that is pushed to any
  -- edge: the SVS instance gets what it would have got.
  pub push_data-repartition_producer :
      (edge other : String) (n : ℕ) (payload : List ℕ) (t t' : Flow N E C K R)
      → repartition_producer edge n t ≡ (ok tt, t')
      → (push_data N E other payload t').1.svs ≡ (push_data N E other payload t).1.svs
  push_data-repartition_producer edge other n payload t t' h =
      elim (repartition_producer_cases edge n t) [
        | inl (e, f, _) ↦ absurd (never (sym h ∙ f))
        | inr (p, p', found, set, f) ↦
            ap (λ (u : Flow N E C K R). (push_data N E other payload u).1.svs)
              (ap (λ r. r.1) (sym h ∙ f))
            ∙ svs-push_data N L E other payload
                (record t { producers = insert edge p' t.producers })
            ∙ sent-insert N L E edge other n payload t.producers t.svs p p' found set
            ∙ sym (svs-push_data N L E other payload t)
      ]
    where
      never :
          {e : Exception} {u : Flow N E C K R}
          → ◌≡◌ {A = Result (Unit {0}) × Flow N E C K R} (ok tt, t') (throw e, u)
          → ⊥
      never q = cc

module _ (N : Ndn) (L : IsLawful N) (E : Generator) {C K R : Type 0} where
  open N use {Svs, subscription}

  after :
      String
      → Flow N E C K R
      → Bool × Consumer K R × Option Svs
      → Result (Unit {0}) × Flow N E C K R
  after edge t r = (ok tt, record t { svs = r.2; consumers = insert edge r.1 t.consumers })

  -- Repartitioning the consumer of an edge of a ready node: the call returns, and afterwards that
  -- consumer serves exactly the given partitions of the edge's topic; every live subscription that it
  -- did not hold stays as it was, and those that it held are gone.
  pub repartition_consumer_lem :
      (edge : String) (partitions : List ℕ) (t : Flow N E C K R) (c : Consumer K R)
      → IsReady t
      → lookup edge t.consumers ≡ some c
      → (handles : List ℕ) × (s s' : Svs) × (t.svs ≡ some s)
        × (repartition_consumer N E edge partitions t ≡ (
          ok tt,
          record t {
            svs = some s';
            consumers = insert edge (record c { subscription_handles = handles }) t.consumers;
          },
        ))
        × Serves N (t.sync_prefix <> ("/" <> edge)) edge partitions handles s'
        × Others N c.subscription_handles s s'
        × Replaced N c.subscription_handles handles s s'
  unfolding repartition_consumer after
  repartition_consumer_lem edge partitions t c ready found =
      let (s, live) = ready.live in
      let listens = ready.consuming edge c found in
      let (handles, s', done, serves, others, replaced) = repartition_lem N L partitions c s in
      (
        handles,
        s,
        s',
        live,
        rw (found, repartition_consumer)
            (ap (λ (r : Bool × Consumer K R × Option Svs). after edge t r)
              (ap (Consumer.repartition N partitions c) live ∙ done)),
        subst (λ topic. Serves N topic edge partitions handles s') listens.topic
            (subst (λ e. Serves N c.sub_topic e partitions handles s') listens.edge serves),
        others,
        replaced,
      )
