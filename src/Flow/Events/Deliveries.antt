-- ===== src/Flow/Events/Deliveries.antt =====
-- The invariant of a node through every delivery of the SVS instance.
use Prim.Native.String.{◌++◌ as ◌<>◌}
use iceflow.Prelude.{
  ℕ, ◌≡◌, refl, ap, sym, ◌∙◌, inl, inr, some, List, [], ◌∷◌, String, Option-cases,
}
use iceflow.Prelude.Errors.{Result, ok, Result-cases}
use iceflow.Prelude.Dict.{lookup, insert-AllEntries}
use iceflow.Ndn.{Ndn, IsLawful, Generator, Handler}
use iceflow.Json.{Json}
use iceflow.Consumer
use iceflow.Consumer.{Consumer, SubscriptionData}
use iceflow.Consumer.Delivery.{
  subscribe_callback-none, subscribe_callback_thrown, subscribe_callback_called,
}
use iceflow.Flow.{Flow, push_data}
use iceflow.Flow.Setup.{IsReady, ListensTo}
use iceflow.Flow.Routing.{push_data_known, push_data_unknown}
use iceflow.Flow.Events.Calls.{make_call-IsReady, push_all-IsReady}
use iceflow.Flow.Events.{
  Application, CallbackOf, Callback, Event, delivery, call, World, push_all, invoke, surroundings,
  deliver_to, acknowledged, deliver, handle_event,
}

module _ (N : Ndn) (E : Generator) {C K R : Type 0} where
  pub sync_prefix-push_data :
      (edge : String) (payload : List ℕ) (t : Flow N E C K R)
      → (push_data N E edge payload t).1.sync_prefix ≡ t.sync_prefix
  sync_prefix-push_data edge payload t = elim (Option-cases (lookup edge t.producers)) [
    | inl e ↦ rw (push_data_unknown N E edge payload t e)
    | inr (p, e) ↦ rw (push_data_known N E edge payload t p e)
  ]

  pub sync_prefix-push_all :
      {S : Type 0} (pushes : List (S × String × List ℕ)) (after : S) (t : Flow N E C K R)
      → (push_all N E pushes after t).1.0.sync_prefix ≡ t.sync_prefix
  unfolding push_all
  sync_prefix-push_all [] after t = refl
  sync_prefix-push_all ((now, edge, payload) ∷ pushes) after t =
      elim (Result-cases (push_data N E edge payload t).0) [
        | inl (e, f) ↦ rw (push_all, f) (sync_prefix-push_data edge payload t)
        | inr (_, f) ↦
            rw (push_all, f)
              (sync_prefix-push_all pushes after (push_data N E edge payload t).1
                ∙ sync_prefix-push_data edge payload t)
      ]

module _ (N : Ndn) (L : IsLawful N) (E : Generator) (A : Application) {C R : Type 0} where
  pub invoke-IsReady :
      (callback : CallbackOf A) (payload : List ℕ) (w : World N E A C R)
      → IsReady w.0
      → IsReady (invoke N E A callback payload w).1.0
  unfolding invoke
  invoke-IsReady (Callback.consuming f) payload w h = h
  invoke-IsReady (Callback.prosuming f) payload w h =
      (let (pushes, a) = A.prosume f payload w.1 in push_all-IsReady N L E pushes a w.0 h)

  sync_prefix-invoke :
      (callback : CallbackOf A) (payload : List ℕ) (w : World N E A C R)
      → (invoke N E A callback payload w).1.0.sync_prefix ≡ w.0.sync_prefix
  unfolding invoke
  sync_prefix-invoke (Callback.consuming f) payload w = refl
  sync_prefix-invoke (Callback.prosuming f) payload w =
      (let (pushes, a) = A.prosume f payload w.1 in sync_prefix-push_all N E pushes a w.0)

  -- What a delivery to a consumer leaves of the node and of that consumer.
  Kept :
      Flow N E C (CallbackOf A) R
      → Consumer (CallbackOf A) R
      → Result (Unit {0}) × Consumer (CallbackOf A) R × World N E A C R
      → Type 0
  Kept t c r =
      IsReady r.2.0
      × (r.2.0.sync_prefix ≡ t.sync_prefix)
      × (r.1.sub_topic ≡ c.sub_topic)
      × (r.1.upstream_edge_name ≡ c.upstream_edge_name)

  module _ (J : Json) where
    called-Kept :
        (now : ℕ) (s : N.Svs) (c : Consumer (CallbackOf A) R) (w w' : World N E A C R)
        → IsReady w'.0
        → w'.0.sync_prefix ≡ w.0.sync_prefix
        → Kept w.0 c (ok tt, Consumer.save_consumption now c, (record w'.0 { svs = some s }, w'.1))
    unfolding Kept Consumer.save_consumption
    called-Kept now s c w w' h same = (
      record { live = (s, refl); producing = h.producing; consuming = h.consuming },
      same,
      refl,
      refl,
    )

    subscribe_callback-Kept :
        (sub : SubscriptionData) (now : ℕ) (c : Consumer (CallbackOf A) R) (w : World N E A C R)
        → IsReady w.0
        → Kept w.0 c (Consumer.subscribe_callback N J (surroundings N E A) sub now c w)
    unfolding Kept
    subscribe_callback-Kept sub now c w h = elim (Option-cases c.consumer_callback) [
      | inl e ↦
          rw (subscribe_callback-none N J (surroundings N E A) sub now c w e) (h, refl, refl, refl)
      | inr (f, e) ↦
          let w' = (invoke N E A f sub.payload w).1 in
          let ready = invoke-IsReady f sub.payload w h in
          let same = sync_prefix-invoke f sub.payload w in
          elim (Result-cases (invoke N E A f sub.payload w).0) [
            | inl (x, g) ↦
                rw (subscribe_callback_thrown N J (surroundings N E A) sub now c w f x e g)
                  (ready, same, refl, refl)
            | inr (_, g) ↦
                let (s, live) = ready.live in
                rw (subscribe_callback_called N J (surroundings N E A) sub now c w f s e g live) (
                  called-Kept now
                    (N.publish (N.append (N.parse_name c.sub_topic) "backchannel")
                      (J.dump_number sub.seq_no) s).1
                    c w w' ready same)
          ]
    ]

    deliver_to-IsReady :
        (edge : String) (sub : SubscriptionData) (now : ℕ) (w : World N E A C R)
        → IsReady w.0
        → IsReady (deliver_to N E A J edge sub now (lookup edge w.0.consumers) w).1.0
    unfolding deliver_to Kept
    deliver_to-IsReady edge sub now w h = elim (Option-cases (lookup edge w.0.consumers)) [
      | inl e ↦ rw (e, deliver_to) h
      | inr (c, e) ↦
          let (ready, same, topic, name) = subscribe_callback-Kept sub now c w h in
          let listens = h.consuming edge c e in
          rw (e, deliver_to)
            (record {
              live = ready.live;
              producing = ready.producing;
              consuming =
                  insert-AllEntries (ListensTo _) edge _ _
                    (record {
                      topic = topic ∙ (listens.topic ∙ ap (λ p. p <> ("/" <> edge)) (sym same));
                      edge = name ∙ listens.edge;
                    })
                    ready.consuming;
            })
    ]

    deliver-IsReady :
        (handler : Handler) (sub : SubscriptionData) (now : ℕ) (w : World N E A C R)
        → IsReady w.0
        → IsReady (deliver N E A J handler sub now w).1.0
    unfolding deliver
    deliver-IsReady (Handler.consumer edge) sub now w h = deliver_to-IsReady edge sub now w h
    deliver-IsReady (Handler.backchannel node sync) sub now w h =
        let (s, live) = h.live in
        rw (live, acknowledged)
          (record { live = (_, refl); producing = h.producing; consuming = h.consuming })

    -- Every event keeps a node ready: each delivery of the SVS instance, whatever the application's
    -- callback does with it, and each call of a method.
    pub handle_event-IsReady :
        (event : Event (CallbackOf A)) (w : World N E A C R)
        → IsReady w.0
        → IsReady (handle_event N E A J event w).1.0
    unfolding handle_event
    handle_event-IsReady (delivery handler sub now) w h = deliver-IsReady handler sub now w h
    handle_event-IsReady (call c) w h = make_call-IsReady N L E c w.0 h
