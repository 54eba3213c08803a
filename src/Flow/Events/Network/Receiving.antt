-- ===== src/Flow/Events/Network/Receiving.antt =====
-- Every event of a node keeps it orderly.
use Prim.Native.String.{◌++◌ as ◌<>◌}
use iceflow.Prelude.{ℕ, ◌≡◌, ap, ◌∙◌, subst, refl, inl, inr, List, String, Option-cases}
use iceflow.Prelude.Errors.{Result-cases}
use iceflow.Prelude.Dict.{lookup}
use iceflow.Ndn.{Ndn, IsLawful, Generator, Handler}
use iceflow.Ndn.Messages.{MayBeTidy, publish-IsTidy}
use iceflow.Json.{Json}
use iceflow.Consumer
use iceflow.Consumer.{Consumer, SubscriptionData}
use iceflow.Consumer.Delivery.{
  subscribe_callback-none, subscribe_callback_thrown, subscribe_callback_called,
}
use iceflow.Producer.Publishing.{handle_backchannel-IsTidy}
use iceflow.Flow.Events.{
  Application, CallbackOf, Callback, Event, delivery, call, World, invoke, surroundings, deliver_to,
  acknowledged, deliver, handle_event,
}
use iceflow.Flow.Events.Deliveries.{handle_event-IsReady}
use iceflow.Flow.Events.Network.Keeping.{IsOrderly, push_all-IsOrderly, make_call-IsOrderly}

module _ (N : Ndn) (L : IsLawful N) (J : Json) (prefix : String) (E : Generator) (A : Application)
    {C R : Type 0} where
  invoke-IsOrderly :
      (callback : CallbackOf A) (payload : List ℕ) (w : World N E A C R)
      → IsOrderly N J prefix w.0
      → IsOrderly N J prefix (invoke N E A callback payload w).1.0
  unfolding invoke
  invoke-IsOrderly (Callback.consuming f) payload w h = h
  invoke-IsOrderly (Callback.prosuming f) payload w h =
      (let (pushes, a) = A.prosume f payload w.1 in
        push_all-IsOrderly N L J prefix E pushes a w.0 h)

  -- What a node has left of its instance and its name.
  Remains : World N E A C R → Type 0
  Remains w = MayBeTidy N J prefix w.0.svs × (w.0.sync_prefix ≡ prefix)

  subscribe_callback-Remains :
      (edge : String) (sub : SubscriptionData) (now : ℕ) (c : Consumer (CallbackOf A) R)
      (w : World N E A C R)
      → c.sub_topic ≡ prefix <> ("/" <> edge)
      → IsOrderly N J prefix w.0
      → Remains (Consumer.subscribe_callback N J (surroundings N E A) sub now c w).2
  unfolding Remains
  subscribe_callback-Remains edge sub now c w topic h = elim (Option-cases c.consumer_callback) [
    | inl e ↦ rw (subscribe_callback-none N J (surroundings N E A) sub now c w e) (h.tidy, h.named)
    | inr (f, e) ↦
        let after = invoke-IsOrderly f sub.payload w h in
        elim (Result-cases (invoke N E A f sub.payload w).0) [
          | inl (x, g) ↦
              rw (subscribe_callback_thrown N J (surroundings N E A) sub now c w f x e g)
                (after.tidy, after.named)
          | inr (_, g) ↦
              let (s, live) = after.ready.live in
              rw (subscribe_callback_called N J (surroundings N E A) sub now c w f s e g live) (
                publish-IsTidy N L J prefix _ (J.dump_number sub.seq_no) s
                    (edge, inr (sub.seq_no, rw topic, refl))
                    (subst (MayBeTidy N J prefix) live after.tidy),
                after.named,
              )
        ]
  ]

  deliver-Remains :
      (handler : Handler) (sub : SubscriptionData) (now : ℕ) (w : World N E A C R)
      → IsOrderly N J prefix w.0
      → Remains (deliver N E A J handler sub now w).1
  unfolding deliver deliver_to acknowledged Remains
  deliver-Remains (Handler.consumer edge) sub now w h =
      elim (Option-cases (lookup edge w.0.consumers)) [
        | inl e ↦ rw (e, deliver_to) (h.tidy, h.named)
        | inr (c, e) ↦
            rw (e, deliver_to)
              (subscribe_callback-Remains edge sub now c w
                ((h.ready.consuming edge c e).topic ∙ ap (λ q. q <> ("/" <> edge)) h.named) h)
      ]
  deliver-Remains (Handler.backchannel node_prefix sync_prefix) sub now w h =
      let (s, live) = h.ready.live in
      rw (live, acknowledged)
        (
          handle_backchannel-IsTidy N L J prefix node_prefix sync_prefix sub.payload s
              (subst (MayBeTidy N J prefix) live h.tidy),
          h.named,
        )

  -- Every event keeps a node orderly: each delivery, whatever the application's callback does with
  -- it, and each call of a method.
  pub handle_event-IsOrderly :
      (event : Event (CallbackOf A)) (w : World N E A C R)
      → IsOrderly N J prefix w.0
      → IsOrderly N J prefix (handle_event N E A J event w).1.0
  unfolding handle_event Remains
  handle_event-IsOrderly (delivery handler sub now) w h =
      let (tidy, named) = deliver-Remains handler sub now w h in
      record {
        ready = handle_event-IsReady N L E A J (delivery handler sub now) w h.ready;
        named = named;
        tidy = tidy;
      }
  handle_event-IsOrderly (call c) w h = make_call-IsOrderly N L J prefix E c w.0 h
