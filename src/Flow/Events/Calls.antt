-- ===== src/Flow/Events/Calls.antt =====
-- The invariant of a node through every call of a method.
use iceflow.Prelude.{ℕ, ◌≡◌, refl, inl, inr, some, List, [], ◌∷◌, arith, String, Option-cases}
use iceflow.Prelude.Errors.{ok, Result-cases}
use iceflow.Prelude.Dict.{lookup, insert-AllEntries}
use iceflow.Ndn.{Ndn, IsLawful, Generator}
use iceflow.Consumer
use iceflow.Consumer.{Consumer, SubscriptionData}
use iceflow.Producer
use iceflow.Producer.{Producer}
use iceflow.Flow.{
  Flow, push_data, repartition_consumer, repartition_producer, register_consumer_callback, shutdown,
}
use iceflow.Flow.Setup.{IsReady, ServesEdge, ListensTo}
use iceflow.Flow.Routing.{
  push_data_known, push_data_unknown, repartition_producer_cases, repartition_consumer_lem,
}
use iceflow.Flow.Statistics.{get_consumer_stats_unsubscribes}
use iceflow.Flow.Events.{
  Call, push, repartition_consumers, repartition_producers, register, ask_consumers, stop,
  make_call, push_all,
}

-- A push keeps a producer's edge, and a live instance live.
module _ (N : Ndn) (E : Generator) {R : Type 0} where
  push_data-ServesEdge :
      (sync edge : String) (payload : List ℕ) (p : Producer E.State R) (s : N.Svs)
      → ServesEdge sync edge p
      → ServesEdge sync edge (Producer.push_data N E payload p (some s)).0
        × ((s' : N.Svs) × ((Producer.push_data N E payload p (some s)).1 ≡ some s'))
  unfolding Producer.push_data
  push_data-ServesEdge sync edge payload p s h =
      (record { positive = h.positive; topic = h.topic; unstamped = h.unstamped }, (_, refl))

set_topic_partitions-ServesEdge :
    {G R : Type 0} (sync edge : String) (n : ℕ) (p p' : Producer G R)
    → Producer.set_topic_partitions n p ≡ ok p'
    → ServesEdge sync edge p
    → ServesEdge sync edge p'
unfolding Producer.set_topic_partitions
set_topic_partitions-ServesEdge sync edge n p p' e h = ground arith

module _ (N : Ndn) (L : IsLawful N) (E : Generator) {C K R : Type 0} where
  pub push_data-IsReady :
      (edge : String) (payload : List ℕ) (t : Flow N E C K R)
      → IsReady t
      → IsReady (push_data N E edge payload t).1
  push_data-IsReady edge payload t h = elim (Option-cases (lookup edge t.producers)) [
    | inl e ↦ rw (push_data_unknown N E edge payload t e) h
    | inr (p, e) ↦
        let (s, live) = h.live in
        let (serves, (s', live')) =
          push_data-ServesEdge N E t.sync_prefix edge payload p s (h.producing edge p e) in
        rw (push_data_known N E edge payload t p e, live)
          (record {
            live = (s', live');
            producing =
                insert-AllEntries (ServesEdge t.sync_prefix) edge _ t.producers serves h.producing;
            consuming = h.consuming;
          })
  ]

  repartition_producer-IsReady :
      (edge : String) (n : ℕ) (t : Flow N E C K R)
      → IsReady t
      → IsReady (repartition_producer edge n t).1
  repartition_producer-IsReady edge n t h = elim (repartition_producer_cases edge n t) [
    | inl (e, f, _) ↦ rw f h
    | inr (p, p', found, set, f) ↦ rw f (record {
      live = h.live;
      producing =
          insert-AllEntries (ServesEdge t.sync_prefix) edge p' t.producers
            (set_topic_partitions-ServesEdge t.sync_prefix edge n p p' set
              (h.producing edge p found))
            h.producing;
      consuming = h.consuming;
    })
  ]

  pub repartition_consumer-IsReady :
      (edge : String) (partitions : List ℕ) (t : Flow N E C K R)
      → IsReady t
      → IsReady (repartition_consumer N E edge partitions t).1
  unfolding repartition_consumer
  repartition_consumer-IsReady edge partitions t h = elim (Option-cases (lookup edge t.consumers)) [
    | inl e ↦ rw (e, repartition_consumer) h
    | inr (c, e) ↦
        let (handles, s, s', live, f, _, _, _) =
          repartition_consumer_lem N L E edge partitions t c h e in
        let listens = h.consuming edge c e in
        rw f (record {
          live = (s', refl);
          producing = h.producing;
          consuming =
              insert-AllEntries (ListensTo t.sync_prefix) edge _ t.consumers
                (record { topic = listens.topic; edge = listens.edge }) h.consuming;
        })
  ]

  pub register-IsReady :
      (edge : String) (callback : K) (t : Flow N E C K R)
      → IsReady t
      → IsReady (register_consumer_callback edge callback t).1
  unfolding register_consumer_callback Consumer.set_consumer_callback
  register-IsReady edge callback t h = elim (Option-cases (lookup edge t.consumers)) [
    | inl e ↦ rw (e, register_consumer_callback) h
    | inr (c, e) ↦
        let listens = h.consuming edge c e in
        rw (e, register_consumer_callback)
          (record {
            live = h.live;
            producing = h.producing;
            consuming =
                insert-AllEntries (ListensTo t.sync_prefix) edge _ t.consumers
                  (record { topic = listens.topic; edge = listens.edge }) h.consuming;
          })
  ]

  -- Every call of a method keeps a node ready, whether it throws or not.
  pub make_call-IsReady :
      (c : Call K) (t : Flow N E C K R) → IsReady t → IsReady (make_call N E c t).1
  unfolding make_call shutdown
  make_call-IsReady (push edge payload) t h = push_data-IsReady edge payload t h
  make_call-IsReady (repartition_consumers edge partitions) t h =
      repartition_consumer-IsReady edge partitions t h
  make_call-IsReady (repartition_producers edge n) t h = repartition_producer-IsReady edge n t h
  make_call-IsReady (register edge callback) t h = register-IsReady edge callback t h
  make_call-IsReady (ask_consumers now) t h =
      let (s', e, _) = get_consumer_stats_unsubscribes N L E now t h.live.0 h.live.1 in
      rw e (record { live = (s', refl); producing = h.producing; consuming = h.consuming })
  make_call-IsReady stop t h = record {
    live = h.live;
    producing = h.producing;
    consuming = h.consuming;
  }

  pub push_all-IsReady :
      {S : Type 0} (pushes : List (S × String × List ℕ)) (after : S) (t : Flow N E C K R)
      → IsReady t
      → IsReady (push_all N E pushes after t).1.0
  unfolding push_all
  push_all-IsReady [] after t h = h
  push_all-IsReady ((now, edge, payload) ∷ pushes) after t h =
      elim (Result-cases (push_data N E edge payload t).0) [
        | inl (e, f) ↦ rw (push_all, f) (push_data-IsReady edge payload t h)
        | inr (_, f) ↦
            rw (push_all, f)
              (push_all-IsReady pushes after (push_data N E edge payload t).1
                (push_data-IsReady edge payload t h))
      ]
