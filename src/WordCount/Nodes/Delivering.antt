-- ===== src/WordCount/Nodes/Delivering.antt =====
-- What an application of examples/wordCount does with a message that its node is delivered.
use Prim.Native.String.{◌++◌ as ◌<>◌}
use iceflow.Prelude.{ℕ, ◌≡◌, ap, subst, sym, ◌∙◌, some, List, [], ◌∷◌, ◌++◌, String}
use mathlib.Core.Option.{some-injective}
use mathlib.Core.List.{append_assoc}
use iceflow.Prelude.Errors.{Result, ok}
use iceflow.Prelude.Dict.{lookup}
use iceflow.Ndn.{Ndn, IsLawful, Generator, Handler}
use iceflow.Json.{Json}
use iceflow.Consumer.{Consumer, SubscriptionData}
use iceflow.Producer.{Producer}
use iceflow.Flow.Setup.{IsReady}
use iceflow.Flow.Events.{CallbackOf, prosuming, World, push_all, invoke, deliver}
use iceflow.Flow.Events.Pushing.{CarriesAll, PushedAll, push_all_published, to_edge}
use iceflow.Flow.Events.Acknowledged.{deliver_lem, deliver_acknowledges}
use iceflow.WordCount.Text.{split_words, split_lines}
use iceflow.Flow.{Flow}
use iceflow.WordCount.Recording.{Recorder}
use iceflow.WordCount.Splitting.{lines2words, text2lines}
use iceflow.WordCount.Splitting.Marks.{pushed-lines2words, pushed-text2lines}
use iceflow.WordCount.Nodes.{split_line, splitting, push_text}

module _ (N : Ndn) (L : IsLawful N) (E : Generator) (J : Json) (to_string : ℕ → String)
    (clock : ℕ → ℕ) {C R : Type 0} where
  open N use {Svs, published}

  -- The callback of a splitter publishes the words of a line.
  invoke_published :
      (out : String) (line : List ℕ) (w : World N E (splitting to_string clock) C R)
      (p : Producer E.State R) (s : Svs)
      → IsReady w.0
      → lookup out w.0.producers ≡ some p
      → w.0.svs ≡ some s
      → PushedAll N L E
          (w.0.sync_prefix <> ("/" <> out))
          p.number_of_partitions
          (split_words line)
          s
          (lines2words to_string clock line w.1).1
          (invoke N E (splitting to_string clock) (prosuming out) line w)
  unfolding invoke split_line
  invoke_published out line w p s ready found live =
      let (pushes, s') = lines2words to_string clock line w.1 in
      subst
        (λ (words : List (List ℕ)).
          PushedAll N L E (w.0.sync_prefix <> ("/" <> out)) p.number_of_partitions words s s'
            (push_all N E (to_edge out pushes) s' w.0))
        (pushed-lines2words to_string clock line w.1)
        (push_all_published N L E out pushes s' w.0 p s ready found live)

  -- `text2lines` at a ready node with a producer for its edge: every line of the text is published, one
  -- message each and in their order, each under the edge's topic and a partition below its producer's
  -- count, and nothing else is; no push throws.
  pub push_text_published :
      {K : Type 0} (out : String) (text : List ℕ) (r : Recorder) (t : Flow N E C K R)
      (p : Producer E.State R) (s : Svs)
      → IsReady t
      → lookup out t.producers ≡ some p
      → t.svs ≡ some s
      → PushedAll N L E
          (t.sync_prefix <> ("/" <> out))
          p.number_of_partitions
          (split_lines text)
          s
          (text2lines to_string clock (some text) r).1
          (push_text N E to_string clock out (some text) r t)
  unfolding push_text
  push_text_published out text r t p s ready found live =
      let (pushes, r') = text2lines to_string clock (some text) r in
      subst
        (λ (lines : List (List ℕ)).
          PushedAll N L E (t.sync_prefix <> ("/" <> out)) p.number_of_partitions lines s r'
            (push_all N E (to_edge out pushes) r' t))
        (pushed-text2lines to_string clock text r)
        (push_all_published N L E out pushes r' t p s ready found live)

  -- What the delivery of a line has left.
  abbrev pub SplitAndAcknowledged :
      (edge out : String)
      → SubscriptionData
      → ℕ
      → World N E (splitting to_string clock) C R
      → Result (Unit {0}) × World N E (splitting to_string clock) C R
      → Type 0
  SplitAndAcknowledged edge out sub count w r =
      let acknowledgement : N.Name × List ℕ = (
        N.append (N.parse_name (w.0.sync_prefix <> ("/" <> edge))) "backchannel",
        J.dump_number sub.seq_no,
      ) in
      (s s' : Svs) × (messages : List (N.Name × List ℕ)) × (w.0.svs ≡ some s)
      × (r.0 ≡ ok tt)
      × (r.1.0.svs ≡ some s')
      × (published s' ≡ published s ++ (messages ++ acknowledgement ∷ []))
      × CarriesAll N (w.0.sync_prefix <> ("/" <> out)) count (split_words sub.payload) messages
      × (r.1.1 ≡ (lines2words to_string clock sub.payload w.1).1)

  -- A line that reaches a splitter's ready node at the consumer with the splitter's callback is
  -- published as its words, one message each and in their order, each under the topic of the edge that
  -- the callback captured and a partition below its producer's count; then, once, it is acknowledged
  -- on the back channel of its own edge. The splitter is as `lines2words` leaves it.
  pub deliver_splits :
      (edge out : String) (sub : SubscriptionData) (now : ℕ)
      (w : World N E (splitting to_string clock) C R)
      (c : Consumer (CallbackOf (splitting to_string clock)) R) (p : Producer E.State R)
      → IsReady w.0
      → lookup edge w.0.consumers ≡ some c
      → c.consumer_callback ≡ some (prosuming out)
      → lookup out w.0.producers ≡ some p
      → SplitAndAcknowledged edge out sub p.number_of_partitions w
          (deliver N E (splitting to_string clock) J (Handler.consumer edge) sub now w)
  deliver_splits edge out sub now w c p ready found registered producer =
      let A = splitting to_string clock in
      let (s, live) = ready.live in
      let (s₁, messages, returned, ended, live₁, pushes, carried) =
        invoke_published out sub.payload w p s ready producer live in
      let (s₂, s', before, result, after, log) =
        deliver_acknowledges N L E A J edge sub now w c (prosuming out) ready found registered
          returned in
      let done =
        deliver_lem N L E A J edge sub now w c (prosuming out) s₁ found registered returned live₁ in
      let acknowledgement : N.Name × List ℕ = (
        N.append (N.parse_name (w.0.sync_prefix <> ("/" <> edge))) "backchannel",
        J.dump_number sub.seq_no,
      ) in
      let same : s₂ ≡ s₁ = some-injective s₂ s₁ (sym before ∙ live₁) in
      (
        s,
        s',
        messages,
        live,
        result,
        after,
        log
            ∙ ap (λ (u : Svs). published u ++ acknowledgement ∷ []) same
            ∙ ap (λ l. l ++ acknowledgement ∷ []) pushes
            ∙ append_assoc (published s) messages (acknowledgement ∷ []),
        carried,
        ap (λ (r : Result (Unit {0}) × World N E A C R). r.1.1) done ∙ ended,
      )
