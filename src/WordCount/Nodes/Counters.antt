-- ===== src/WordCount/Nodes/Counters.antt =====
-- How a node of wordcount starts, and what it does with the words that it is delivered.
use Prim.Native.String.{◌++◌ as ◌<>◌}
use iceflow.Prelude.{
  ℕ, ◌+◌, ◌≡◌, refl, ap, sym, subst, ◌∙◌, some, List, [], ◌∷◌, ◌++◌, map, String, flatten,
  str_eq_iff,
}
use mathlib.Core.List.{append-nil, append_assoc}
use iceflow.Prelude.Errors.{Result, ok}
use iceflow.Prelude.Dict.{lookup, lookup-insert}
use iceflow.Ndn.{Ndn, IsLawful, Generator, Handler}
use iceflow.Json.{Json}
use iceflow.Consumer
use iceflow.Consumer.{Consumer, SubscriptionData}
use iceflow.Flow.Setup.{IsReady}
use iceflow.Flow.Events.{
  CallbackOf, consuming, World, Event, delivery, invoke, handle_event, process_events,
}
use iceflow.Flow.Events.Deliveries.{handle_event-IsReady}
use iceflow.Flow.Events.Acknowledged.{deliver_lem}
use iceflow.WordCount.Text.{split_words}
use iceflow.WordCount.Counting.{count_of, to_lower, WordCounter}
use iceflow.WordCount.Counting.Counts.{occurrences, count_words, count_words_counts}
use iceflow.WordCount.Nodes.{counting}

-- A message, and the time when it is delivered.
abbrev pub Arrival : Type 0
Arrival = SubscriptionData × ℕ

abbrev pub payloads : List Arrival → List (List ℕ)
payloads arrivals = map (λ a. a.0.payload) arrivals

-- Deliveries to one consumer, in their order.
abbrev pub deliveries : {K : Type 0} → String → List Arrival → List (Event K)
deliveries edge arrivals = map (λ a. delivery (Handler.consumer edge) a.0 a.1) arrivals

module _ (N : Ndn) (J : Json) where
  -- The messages that acknowledge deliveries on the back channel of an edge's topic.
  abbrev pub acknowledgements : (topic : String) → List Arrival → List (N.Name × List ℕ)
  acknowledgements topic arrivals =
      map (λ (a : Arrival). (N.append (N.parse_name topic) "backchannel", J.dump_number a.0.seq_no))
        arrivals

-- A ready node whose consumer of an edge calls the counter.
pub record IsCounting (N : Ndn) (E : Generator) (to_string : ℕ → String) (clock : ℕ → ℕ)
    {C R : Type 0} (edge : String) (w : World N E (counting to_string clock) C R) : Type 0 where
  pub ready : IsReady w.0
  pub consumer : Consumer (CallbackOf (counting to_string clock)) R
  pub found : lookup edge w.0.consumers ≡ some consumer
  pub registered : consumer.consumer_callback ≡ some (consuming tt)

module _ (N : Ndn) (L : IsLawful N) (E : Generator) (J : Json) (to_string : ℕ → String)
    (clock : ℕ → ℕ) {C R : Type 0} where
  open N use {Svs, published}

  -- What a delivery, or several, has left of a counter's node: each is acknowledged, and counted.
  abbrev pub Counted :
      String
      → List Arrival
      → World N E (counting to_string clock) C R
      → Svs
      → Result (Unit {0}) × World N E (counting to_string clock) C R
      → Type 0
  Counted edge arrivals w s r =
      (s' : Svs) × (r.0 ≡ ok tt)
      × IsCounting N E to_string clock edge r.1
      × (r.1.0.svs ≡ some s')
      × (r.1.0.sync_prefix ≡ w.0.sync_prefix)
      × (published s'
          ≡ published s ++ acknowledgements N J (w.0.sync_prefix <> ("/" <> edge)) arrivals)
      × (r.1.1 ≡ count_words to_string clock (payloads arrivals) w.1)

  handle_event-Counted :
      (edge : String) (a : Arrival) (w : World N E (counting to_string clock) C R) (s : Svs)
      → IsCounting N E to_string clock edge w
      → w.0.svs ≡ some s
      → Counted edge (a ∷ []) w s (
          handle_event N E
            (counting to_string clock)
            J
            (delivery (Handler.consumer edge) a.0 a.1)
            w)
  unfolding handle_event invoke Consumer.save_consumption
  handle_event-Counted edge (sub, now) w s h live =
      let A = counting to_string clock in
      let c = h.consumer in
      let c' : Consumer (CallbackOf (counting to_string clock)) R =
        Consumer.save_consumption now c in
      let done =
        deliver_lem N L E A J edge sub now w c (consuming tt) s h.found h.registered refl live in
      subst (Counted edge ((sub, now) ∷ []) w s) (sym done) (
        _,
        refl,
        record {
          ready =
              subst (λ (r : Result (Unit {0}) × World N E A C R). IsReady r.1.0) done
                (handle_event-IsReady N L E A J (delivery (Handler.consumer edge) sub now) w
                  h.ready);
          consumer = c';
          found = lookup-insert edge edge c' w.0.consumers ∙ rw ((str_eq_iff edge edge).1 refl);
          registered = h.registered;
        },
        refl,
        refl,
        subst
            (λ (topic : String).
              published
                (N.publish (N.append (N.parse_name c.sub_topic) "backchannel")
                  (J.dump_number sub.seq_no) s).1
              ≡ published s ++ acknowledgements N J topic ((sub, now) ∷ []))
            (h.ready.consuming edge c h.found).topic (L.published-publish _ _ s),
        refl,
      )

  Counted-cons :
      (edge : String) (a : Arrival) (arrivals : List Arrival)
      (w : World N E (counting to_string clock) C R) (s : Svs)
      (r r' : Result (Unit {0}) × World N E (counting to_string clock) C R)
      → Counted edge (a ∷ []) w s r
      → ((s₁ : Svs) → r.1.0.svs ≡ some s₁ → Counted edge arrivals r.1 s₁ r')
      → Counted edge (a ∷ arrivals) w s r'
  Counted-cons edge a arrivals w s r r' (s₁, _, _, live, prefix, log, one) rest =
      let (s₂, returned, counting, live', prefix', log', all) = rest s₁ live in
      let acks = acknowledgements N J (w.0.sync_prefix <> ("/" <> edge)) in
      (
        s₂,
        returned,
        counting,
        live',
        prefix' ∙ prefix,
        log' ∙ (rw (log, prefix) (append_assoc (published s) (acks (a ∷ [])) (acks arrivals))),
        all ∙ ap (count_words to_string clock (payloads arrivals)) one,
      )

  process_events-Counted :
      (edge : String) (arrivals : List Arrival) (w : World N E (counting to_string clock) C R)
      (s : Svs)
      → IsCounting N E to_string clock edge w
      → w.0.svs ≡ some s
      → Counted edge arrivals w s
          (process_events N E (counting to_string clock) J (deliveries edge arrivals) w)
  unfolding process_events
  process_events-Counted edge [] w s h live =
      (s, refl, h, live, refl, sym (append-nil (published s)), refl)
  process_events-Counted edge (a ∷ arrivals) w s h live =
      let A = counting to_string clock in
      let event : Event (CallbackOf A) = delivery (Handler.consumer edge) a.0 a.1 in
      let r = handle_event N E A J event w in
      let one = handle_event-Counted edge a w s h live in
      rw (one.1, process_events)
        (Counted-cons edge a arrivals w s r (process_events N E A J (deliveries edge arrivals) r.1)
          one (λ s₁ live₁. process_events-Counted edge arrivals r.1 s₁ one.2 live₁))

  -- The deliveries of one round to the consumer of a ready counter's node all return, and publish
  -- nothing but an acknowledgement each, in their order; they add to the count of every word the
  -- number of its occurrences in their payloads, all letters in lower case.
  pub process_events_counts :
      (edge : String) (arrivals : List Arrival) (w : World N E (counting to_string clock) C R)
      (word : List ℕ)
      → IsCounting N E to_string clock edge w
      → let (result, w') =
          process_events N E (counting to_string clock) J (deliveries edge arrivals) w in
        let topic = w.0.sync_prefix <> ("/" <> edge) in
        (s s' : Svs) × (w.0.svs ≡ some s)
        × (result ≡ ok tt)
        × (w'.0.svs ≡ some s')
        × IsReady w'.0
        × (published s' ≡ published s ++ acknowledgements N J topic arrivals)
        × (count_of word w'.1.word_count_map
            ≡ count_of word w.1.word_count_map
              + occurrences word
                  (map (map to_lower) (flatten (map split_words (payloads arrivals)))))
  process_events_counts edge arrivals w word h =
      let (s, live) = h.ready.live in
      let (s', returned, counting, live', _, log, counted) =
        process_events-Counted edge arrivals w s h live in
      (
        s,
        s',
        live,
        returned,
        live',
        counting.ready,
        log,
        ap (λ (c : WordCounter). count_of word c.word_count_map) counted
            ∙ count_words_counts to_string clock word (payloads arrivals) w.1,
      )
