-- ===== src/Flow/Events/Network/Keeping.antt =====
-- What a node does keeps its subscriptions and its messages in order, together with its invariant.
use Prim.Native.String.{◌++◌ as ◌<>◌}
use iceflow.Prelude.{
  ℕ, ◌≡◌, refl, sym, ap, ◌∙◌, inl, inr, Option, List, [], ◌∷◌, String, Option-cases,
}
use iceflow.Prelude.Errors.{Result-cases}
use iceflow.Prelude.Dict.{Dict, lookup}
use iceflow.Ndn.{Ndn, IsLawful, Generator}
use iceflow.Ndn.Messages.{MayBeTidy}
use iceflow.Json.{Json}
use iceflow.Consumer
use iceflow.Consumer.{Consumer}
use iceflow.Consumer.Listening.{repartition-MayBeTidy, destroy-MayBeTidy}
use iceflow.Producer.Publishing.{push_data-MayBeTidy}
use iceflow.Flow.{
  IceFlow, Flow, push_data, repartition_consumer, register_consumer_callback, consumer_stats,
  get_consumer_stats, shutdown,
}
use iceflow.Flow.Setup.{IsReady}
use iceflow.Flow.Routing.{push_data_known, push_data_unknown, repartition_producer_cases}
use iceflow.Flow.Events.{
  Call, push, repartition_consumers, repartition_producers, register, ask_consumers, stop,
  make_call, push_all,
}
use iceflow.Flow.Events.Calls.{make_call-IsReady, push_data-IsReady}
use iceflow.Flow.Events.Deliveries.{sync_prefix-push_data}

-- A ready node of an application that has published and subscribed to nothing but messages of the
-- application's edges.
pub record IsOrderly (N : Ndn) (J : Json) (prefix : String) {C G K R : Type 0}
    (t : IceFlow C N.Svs G K R) : Type 0 where
  pub ready : IsReady t
  pub named : t.sync_prefix ≡ prefix
  pub tidy : MayBeTidy N J prefix t.svs

module _ (N : Ndn) (L : IsLawful N) (J : Json) (prefix : String) {K R : Type 0} where
  consumer_stats-MayBeTidy :
      (now : ℕ) (d : Dict (Consumer K R)) (svs : Option N.Svs)
      → MayBeTidy N J prefix svs
      → MayBeTidy N J prefix (consumer_stats N now d svs).1
  unfolding consumer_stats
  consumer_stats-MayBeTidy now [] svs h = h
  consumer_stats-MayBeTidy now ((edge, c) ∷ d) svs h =
      consumer_stats-MayBeTidy now d _
        (destroy-MayBeTidy N L J prefix (Consumer.get_consumption_stats now c).1 svs h)

module _ (N : Ndn) (L : IsLawful N) (J : Json) (prefix : String) (E : Generator)
    {C K R : Type 0} where
  push_data-tidy :
      (edge : String) (payload : List ℕ) (t : Flow N E C K R)
      → IsOrderly N J prefix t
      → MayBeTidy N J prefix (push_data N E edge payload t).1.svs
  push_data-tidy edge payload t h = elim (Option-cases (lookup edge t.producers)) [
    | inl e ↦ rw (push_data_unknown N E edge payload t e) h.tidy
    | inr (p, e) ↦ rw (push_data_known N E edge payload t p e) (
        push_data-MayBeTidy N L J prefix E edge payload p t.svs
          ((h.ready.producing edge p e).topic ∙ ap (λ q. q <> ("/" <> edge)) h.named) h.tidy)
  ]

  push_data-IsOrderly :
      (edge : String) (payload : List ℕ) (t : Flow N E C K R)
      → IsOrderly N J prefix t
      → IsOrderly N J prefix (push_data N E edge payload t).1
  push_data-IsOrderly edge payload t h = record {
    ready = push_data-IsReady N L E edge payload t h.ready;
    named = sync_prefix-push_data N E edge payload t ∙ h.named;
    tidy = push_data-tidy edge payload t h;
  }

  pub push_all-IsOrderly :
      {S : Type 0} (pushes : List (S × String × List ℕ)) (after : S) (t : Flow N E C K R)
      → IsOrderly N J prefix t
      → IsOrderly N J prefix (push_all N E pushes after t).1.0
  unfolding push_all
  push_all-IsOrderly [] after t h = h
  push_all-IsOrderly ((now, edge, payload) ∷ pushes) after t h =
      elim (Result-cases (push_data N E edge payload t).0) [
        | inl (e, f) ↦ rw (push_all, f) (push_data-IsOrderly edge payload t h)
        | inr (_, f) ↦
            rw (push_all, f)
              (push_all-IsOrderly pushes after (push_data N E edge payload t).1
                (push_data-IsOrderly edge payload t h))
      ]

  repartition_consumer-tidy :
      (edge : String) (partitions : List ℕ) (t : Flow N E C K R)
      → IsOrderly N J prefix t
      → (MayBeTidy N J prefix (repartition_consumer N E edge partitions t).1.svs)
        × ((repartition_consumer N E edge partitions t).1.sync_prefix ≡ t.sync_prefix)
  unfolding repartition_consumer
  repartition_consumer-tidy edge partitions t h = elim (Option-cases (lookup edge t.consumers)) [
    | inl e ↦ rw (e, repartition_consumer) (h.tidy, refl)
    | inr (c, e) ↦
        let listens = h.ready.consuming edge c e in
        rw (e, repartition_consumer)
          (
            repartition-MayBeTidy N L J prefix partitions c t.svs
                (listens.topic
                  ∙ (ap (λ q. q <> ("/" <> edge)) h.named
                      ∙ ap (λ q. prefix <> ("/" <> q)) (sym listens.edge)))
                h.tidy,
            refl,
          )
  ]

  register-tidy :
      (edge : String) (callback : K) (t : Flow N E C K R)
      → ((register_consumer_callback edge callback t).1.svs ≡ t.svs)
        × ((register_consumer_callback edge callback t).1.sync_prefix ≡ t.sync_prefix)
  unfolding register_consumer_callback
  register-tidy edge callback t = elim (Option-cases (lookup edge t.consumers)) [
    | inl e ↦ rw (e, register_consumer_callback) (refl, refl)
    | inr (c, e) ↦ rw (e, register_consumer_callback) (refl, refl)
  ]

  -- Every call of a method keeps a node orderly, whether it throws or not.
  pub make_call-IsOrderly :
      (c : Call K) (t : Flow N E C K R)
      → IsOrderly N J prefix t
      → IsOrderly N J prefix (make_call N E c t).1
  unfolding make_call shutdown get_consumer_stats
  make_call-IsOrderly (push edge payload) t h = push_data-IsOrderly edge payload t h
  make_call-IsOrderly (repartition_consumers edge partitions) t h =
      let (tidy, same) = repartition_consumer-tidy edge partitions t h in
      record {
        ready = make_call-IsReady N L E (repartition_consumers edge partitions) t h.ready;
        named = same ∙ h.named;
        tidy = tidy;
      }
  make_call-IsOrderly (repartition_producers edge n) t h =
      let ready = make_call-IsReady N L E (repartition_producers edge n) t h.ready in
      elim (repartition_producer_cases edge n t) [
        | inl (e, f, _) ↦ rw f h
        | inr (p, p', _, _, f) ↦ record { ready = ready; named = rw f h.named; tidy = rw f h.tidy }
      ]
  make_call-IsOrderly (register edge callback) t h =
      let (tidy, same) = register-tidy edge callback t in
      record {
        ready = make_call-IsReady N L E (register edge callback) t h.ready;
        named = same ∙ h.named;
        tidy = rw tidy h.tidy;
      }
  make_call-IsOrderly (ask_consumers now) t h = record {
    ready = make_call-IsReady N L E (ask_consumers now) t h.ready;
    named = h.named;
    tidy = consumer_stats-MayBeTidy N L J prefix now t.consumers t.svs h.tidy;
  }
  make_call-IsOrderly stop t h = record {
    ready = make_call-IsReady N L E stop t h.ready;
    named = h.named;
    tidy = h.tidy;
  }
