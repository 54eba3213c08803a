-- ===== src/Flow/Events/Acknowledged.antt =====
-- From a delivery at a consumer, over the back channel, to the data store of the producer.
use Prim.Native.String.{◌++◌ as ◌<>◌}
use iceflow.Prelude.{ℕ, ◌^◌, ◌<◌, ◌≡◌, refl, ap, none, some, List, [], ◌∷◌, ◌++◌, String}
use iceflow.Prelude.Errors.{Result, ok}
use iceflow.Prelude.Dict.{lookup, insert}
use iceflow.Ndn.{Ndn, IsLawful, Generator, Handler}
use iceflow.Json.{Json, DumpsNumbers}
use iceflow.Consumer
use iceflow.Consumer.{Consumer, SubscriptionData}
use iceflow.Consumer.Delivery.{subscribe_callback_called}
use iceflow.Producer.Backchannel.{data_name, handle_backchannel-dump_number}
use iceflow.Flow.Setup.{IsReady}
use iceflow.Flow.Events.Deliveries.{invoke-IsReady}
use iceflow.Flow.Events.{
  Application, CallbackOf, World, invoke, surroundings, deliver_to, acknowledged, deliver,
}

module _ (N : Ndn) (L : IsLawful N) (E : Generator) (A : Application) {C R : Type 0}
    (J : Json) where
  open N use {Svs, published, stored}

  after :
      String
      → Result (Unit {0}) × Consumer (CallbackOf A) R × World N E A C R
      → Result (Unit {0}) × World N E A C R
  after edge r = (r.0, (record r.2.0 { consumers = insert edge r.1 r.2.0.consumers }, r.2.1))

  pub deliver_lem :
      (edge : String) (sub : SubscriptionData) (now : ℕ) (w : World N E A C R)
      (c : Consumer (CallbackOf A) R) (callback : CallbackOf A) (s : Svs)
      → lookup edge w.0.consumers ≡ some c
      → c.consumer_callback ≡ some callback
      → (invoke N E A callback sub.payload w).0 ≡ ok tt
      → (invoke N E A callback sub.payload w).1.0.svs ≡ some s
      → let v = (invoke N E A callback sub.payload w).1 in
        deliver N E A J (Handler.consumer edge) sub now w ≡ (
          ok tt,
          (
            record v.0 {
              svs =
                  some
                    (N.publish
                      (N.append (N.parse_name c.sub_topic) "backchannel")
                      (J.dump_number sub.seq_no)
                      s).1;
              consumers = insert edge (Consumer.save_consumption now c) v.0.consumers;
            },
            v.1,
          ),
        )
  unfolding deliver after
  deliver_lem edge sub now w c callback s found registered returned live =
      rw (found, deliver_to)
        (ap (after edge) (
          subscribe_callback_called N J (surroundings N E A) sub now c w callback s registered
            returned live))

  -- A delivery at a ready node's consumer whose callback returns publishes one message more than
  -- the callback did: the sequence number, on the back channel of the edge.
  pub deliver_acknowledges :
      (edge : String) (sub : SubscriptionData) (now : ℕ) (w : World N E A C R)
      (c : Consumer (CallbackOf A) R) (callback : CallbackOf A)
      → IsReady w.0
      → lookup edge w.0.consumers ≡ some c
      → c.consumer_callback ≡ some callback
      → (invoke N E A callback sub.payload w).0 ≡ ok tt
      → let topic = w.0.sync_prefix <> ("/" <> edge) in
        let before = (invoke N E A callback sub.payload w).1.0.svs in
        let (result, w') = deliver N E A J (Handler.consumer edge) sub now w in
        (s s' : Svs) × (before ≡ some s)
        × (result ≡ ok tt)
        × (w'.0.svs ≡ some s')
        × (published s'
            ≡ published s
              ++ (N.append (N.parse_name topic) "backchannel", J.dump_number sub.seq_no) ∷ [])
  deliver_acknowledges edge sub now w c callback ready found registered returned =
      let (s, live) = (invoke-IsReady N L E A callback sub.payload w ready).live in
      let done = deliver_lem edge sub now w c callback s found registered returned live in
      (
        s,
        _,
        live,
        ap (λ (r : Result (Unit {0}) × World N E A C R). r.0) done,
        ap (λ (r : Result (Unit {0}) × World N E A C R). r.1.0.svs) done,
        rw (← (ready.consuming edge c found).topic) (L.published-publish _ _ s),
      )

  backchannel_erases :
      (D : DumpsNumbers J) (node sync : String) (n m now : ℕ) (v : World N E A C R) (s : Svs)
      → n < 2 ^ 64
      → v.0.svs ≡ some s
      → let reply : SubscriptionData = record { seq_no = m; payload = J.dump_number n } in
        let (_, v') = deliver N E A J (Handler.backchannel node sync) reply now v in
        (s' : Svs) × (v'.0.svs ≡ some s') × (stored s' (data_name N node sync n) ≡ none)
  unfolding deliver
  backchannel_erases D node sync n m now v s h live =
      rw (live, acknowledged) (_, refl, (handle_backchannel-dump_number N L J D node sync n s h).0)

  -- What a ready node's consumer sends on the back channel when its callback returns, for a delivery
  -- with a 64-bit sequence number, removes from the data store of any ready node that receives it the
  -- message with that number, under the node and sync prefixes of the producer that subscribed there.
  pub acknowledgement-erases :
      (D : DumpsNumbers J) (edge : String) (sub : SubscriptionData) (now : ℕ) (w : World N E A C R)
      (c : Consumer (CallbackOf A) R) (callback : CallbackOf A) (node sync : String) (m later : ℕ)
      (v : World N E A C R)
      → IsReady w.0
      → lookup edge w.0.consumers ≡ some c
      → c.consumer_callback ≡ some callback
      → (invoke N E A callback sub.payload w).0 ≡ ok tt
      → sub.seq_no < 2 ^ 64
      → IsReady v.0
      → let topic = w.0.sync_prefix <> ("/" <> edge) in
        let before = (invoke N E A callback sub.payload w).1.0.svs in
        let (_, w') = deliver N E A J (Handler.consumer edge) sub now w in
        (payload : List ℕ) × (s s' s'' : Svs) × (before ≡ some s)
        × (w'.0.svs ≡ some s')
        × (published s'
            ≡ published s ++ (N.append (N.parse_name topic) "backchannel", payload) ∷ [])
        × (let reply : SubscriptionData = record { seq_no = m; payload = payload } in
            (deliver N E A J (Handler.backchannel node sync) reply later v).1.0.svs ≡ some s'')
        × (stored s'' (data_name N node sync sub.seq_no) ≡ none)
  acknowledgement-erases D edge sub now w c callback node sync m later v ready found registered
        returned small other =
      let (s, s', before, _, after, log) =
        deliver_acknowledges edge sub now w c callback ready found registered returned in
      let (s'', then, gone) =
        backchannel_erases D node sync sub.seq_no m later v other.live.0 small other.live.1 in
      (J.dump_number sub.seq_no, s, s', s'', before, after, log, then, gone)
