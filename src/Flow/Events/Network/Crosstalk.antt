-- ===== src/Flow/Events/Network/Crosstalk.antt =====
-- What the nodes of a group can receive from one another.
use iceflow.Prelude.{
  ℕ, ◌≡◌, sym, subst, ◌∙◌, ◌⊎◌, inl, inr, true, List, String, All, All-replace, All-Mem,
}
use mathlib.Core.List.{Memᴰ}
use iceflow.Ndn.{Ndn, IsLawful, TellsApart, Generator, Handler}
use iceflow.Ndn.Messages.{MayBeTidy, MessageOf, IsMessage, MayListen, topic_of}
use iceflow.Json.{Json}
use iceflow.Flow.Events.{Application, World, delivery, call}
use iceflow.Flow.Events.Network.{
  Group, Matches, Step, join, start, act, receive, Reach, alone, then_step,
}
use iceflow.Flow.Events.Network.Keeping.{IsOrderly}
use iceflow.Flow.Events.Network.Making.{create-IsOrderly}
use iceflow.Flow.Events.Network.Receiving.{handle_event-IsOrderly}

module _ (N : Ndn) (L : IsLawful N) (E : Generator) (A : Application) {C R : Type 0} (J : Json)
    (prefix : String) where
  abbrev Orderly : World N E A C R → Type 0
  Orderly w = IsOrderly N J prefix w.0

  Step-IsOrderly :
      (group group' : Group N E A C R)
      → Step N E A C R J prefix group group'
      → All Orderly group
      → All Orderly group'
  Step-IsOrderly _ _ (join group dag node_name reporter uuid seed now a t same made) h = (
    subst (λ p. IsOrderly N J p t) same
        (create-IsOrderly N L J E dag node_name reporter uuid seed now t made),
    h,
  )
  Step-IsOrderly _ _ (start before after w) h =
      All-replace Orderly before w _ after
        (λ k. record {
          ready = record {
            live = k.ready.live;
            producing = k.ready.producing;
            consuming = k.ready.consuming;
          };
          named = k.named;
          tidy = k.tidy;
        })
        h
  Step-IsOrderly _ _ (act before after w c) h =
      All-replace Orderly before w _ after (handle_event-IsOrderly N L J prefix E A (call c) w) h
  Step-IsOrderly _ _ (receive before after u w handler sub now _ _) h =
      All-replace Orderly before w _ after
        (handle_event-IsOrderly N L J prefix E A (delivery handler sub now) w) h

  -- Every node of a group that can come about is orderly.
  pub Reach-IsOrderly :
      (group : Group N E A C R) → Reach N E A C R J prefix group → All Orderly group
  Reach-IsOrderly _ alone = tt
  Reach-IsOrderly _ (then_step group group' reached step) =
      Step-IsOrderly group group' step (Reach-IsOrderly group reached)

module _ (N : Ndn) (J : Json) (prefix : String) where
  -- A message of an edge whose topic itself begins with a name.
  abbrev pub Beneath : N.Name → N.Name × List ℕ → Type 0
  Beneath n message =
      (edge : String) × (N.is_prefix_of n (topic_of N J prefix edge) ≡ true)
      × MessageOf N J prefix edge message

  -- What reaches a subscription to a name: a consumer gets data of the partition of its edge that it
  -- has subscribed to, and a back channel handler an acknowledgement of its edge.
  abbrev pub Received : N.Name → Handler → N.Name × List ℕ → Type 0
  Received n (Handler.consumer edge) (name, payload) =
      ((partition : ℕ) × (n ≡ N.append_number (topic_of N J prefix edge) partition) × (name ≡ n))
      ⊎ Beneath n (name, payload)
  Received n (Handler.backchannel node_prefix sync_prefix) (name, payload) =
      ((edge : String) × (seq_no : ℕ) × (n ≡ N.append (topic_of N J prefix edge) "backchannel")
        × (name ≡ n)
        × (payload ≡ J.dump_number seq_no))
      ⊎ Beneath n (name, payload)

  module _ (T : TellsApart N) where
    matched-Received :
        (n : N.Name) (handler : Handler) (name : N.Name) (payload : List ℕ)
        → MayListen N J prefix n handler
        → IsMessage N J prefix (name, payload)
        → N.is_prefix_of n name ≡ true
        → Received n handler (name, payload)
    matched-Received n (Handler.consumer e) name payload (i, at) (edge, inl (j, named)) begins =
        elim (T.is_prefix_of-append_number n _ j
          (subst (λ m. N.is_prefix_of n m ≡ true) named begins)) [
            | inl same ↦ inl (i, at, named ∙ sym same)
            | inr under ↦ inr (edge, under, inl (j, named))
          ]
    matched-Received n (Handler.consumer e) name payload (i, at) (edge, inr (k, named, dumped))
          begins =
        elim (T.is_prefix_of-append n _ "backchannel"
          (subst (λ m. N.is_prefix_of n m ≡ true) named begins)) [
            | inl same ↦ absurd (T.number-ne-backchannel _ _ i (sym at ∙ same))
            | inr under ↦ inr (edge, under, inr (k, named, dumped))
          ]
    matched-Received n (Handler.backchannel p q) name payload (e, at) (edge, inl (j, named))
          begins =
        elim (T.is_prefix_of-append_number n _ j
          (subst (λ m. N.is_prefix_of n m ≡ true) named begins)) [
            | inl same ↦ absurd (T.number-ne-backchannel _ _ j (sym same ∙ at))
            | inr under ↦ inr (edge, under, inl (j, named))
          ]
    matched-Received n (Handler.backchannel p q) name payload (e, at) (edge, inr (k, named, dumped))
          begins =
        elim (T.is_prefix_of-append n _ "backchannel"
          (subst (λ m. N.is_prefix_of n m ≡ true) named begins)) [
            | inl same ↦ inl (e, k, at, named ∙ sym same, dumped)
            | inr under ↦ inr (edge, under, inr (k, named, dumped))
          ]

module _ (N : Ndn) (L : IsLawful N) (T : TellsApart N) (E : Generator) (A : Application)
    {C R : Type 0} (J : Json) (prefix : String) where
  -- In every group of nodes of an application that can come about, a message of one of the nodes that
  -- matches a subscription of one of them is what that subscription is for: a consumer gets data of
  -- the partition of its edge that it has subscribed to, never an acknowledgement or another edge's
  -- data, and a back channel handler gets a sequence number as a consumer writes it. The only
  -- exception is a message of an edge whose topic itself begins with the subscribed name.
  pub Matches-Received :
      (group : Group N E A C R) (u w : World N E A C R) (handler : Handler) (payload : List ℕ)
      (m : Matches N E A C R u w handler payload)
      → Reach N E A C R J prefix group
      → Memᴰ u group
      → Memᴰ w group
      → Received N J prefix m.subscribed handler (m.name, payload)
  Matches-Received group u w handler payload m reached from to =
      let all = Reach-IsOrderly N L E A J prefix group reached in
      let sends = (All-Mem _ u group all from).tidy in
      let receives = (All-Mem _ w group all to).tidy in
      matched-Received N J prefix T m.subscribed handler m.name payload
        ((subst (MayBeTidy N J prefix) m.receives receives).listening m.handle m.subscribed handler
          m.subscription)
        (All-Mem _ (m.name, payload) _ (subst (MayBeTidy N J prefix) m.sends sends).messages
          m.published)
        m.begins
