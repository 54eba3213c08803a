-- ===== src/Ndn/Messages.antt =====
-- What the nodes of a group publish and subscribe to: data under the partitions of topics, and
-- acknowledgements on their back channels.
use Prim.Native.String.{◌++◌ as ◌<>◌}
use iceflow.Prelude.{
  ℕ, ◌≡◌, ◌⊎◌, sym, subst, ◌∙◌, inl, inr, none, some, Option, List, [], ◌∷◌, ◌++◌, String, All,
  All-append, ◌==◌, Bool-cases,
}
use mathlib.Core.Option.{none-ne-some, some-injective}
use iceflow.Ndn.{Ndn, IsLawful, Handler}
use iceflow.Json.{Json}

module _ (N : Ndn) (J : Json) (prefix : String) where
  open N use {Name, Svs, subscription, published}

  -- The topic of an edge, as a name.
  abbrev pub topic_of : String → Name
  topic_of edge_name = N.parse_name (prefix <> ("/" <> edge_name))

  -- Data of an edge, or the acknowledgement of a sequence number on its back channel.
  abbrev pub MessageOf : String → Name × List ℕ → Type 0
  MessageOf edge (name, payload) =
      ((partition : ℕ) × (name ≡ N.append_number (topic_of edge) partition))
      ⊎ ((seq_no : ℕ) × (name ≡ N.append (topic_of edge) "backchannel")
          × (payload ≡ J.dump_number seq_no))

  abbrev pub IsMessage : Name × List ℕ → Type 0
  IsMessage message = (edge : String) × MessageOf edge message

  -- A consumer listens to partitions of its edge, and a back channel handler to an edge's back channel.
  abbrev pub MayListen : Name → Handler → Type 0
  MayListen name (Handler.consumer edge) =
      (partition : ℕ) × (name ≡ N.append_number (topic_of edge) partition)
  MayListen name (Handler.backchannel node_prefix sync_prefix) =
      (edge : String) × (name ≡ N.append (topic_of edge) "backchannel")

  -- An instance that has published and subscribed to nothing else.
  pub record IsTidy (s : Svs) : Type 0 where
    pub listening :
        (k : ℕ) (name : Name) (handler : Handler)
        → subscription s k ≡ some (name, handler)
        → MayListen name handler
    pub messages : All IsMessage (published s)

  -- The same of an instance that may have expired.
  abbrev pub MayBeTidy : Option Svs → Type 0
  MayBeTidy none = Unit
  MayBeTidy (some s) = IsTidy s

module _ (N : Ndn) (L : IsLawful N) (J : Json) (prefix : String) where
  open N use {Name, Svs, subscription, published}

  -- The subscriptions and the messages of another instance.
  like :
      (s s' : Svs)
      → ((k : ℕ) → subscription s' k ≡ subscription s k)
      → (ms : List (Name × List ℕ)) → published s' ≡ published s ++ ms
      → All (IsMessage N J prefix) ms
      → IsTidy N J prefix s
      → IsTidy N J prefix s'
  like s s' same ms log new h = record {
    listening = λ k name handler e. h.listening k name handler (sym (same k) ∙ e);
    messages =
        subst (All (IsMessage N J prefix)) (sym log)
          (All-append (IsMessage N J prefix) (published s) ms h.messages new);
  }

  pub publish-IsTidy :
      (n : Name) (d : List ℕ) (s : Svs)
      → IsMessage N J prefix (n, d)
      → IsTidy N J prefix s
      → IsTidy N J prefix (N.publish n d s).1
  publish-IsTidy n d s new h =
      like s (N.publish n d s).1 (L.subscription-publish n d s) ((n, d) ∷ [])
        (L.published-publish n d s) (new, tt) h

  pub publish_as-IsTidy :
      (n : Name) (d : List ℕ) (p : Name) (t : ℕ) (s : Svs)
      → IsMessage N J prefix (n, d)
      → IsTidy N J prefix s
      → IsTidy N J prefix (N.publish_as n d p t s).1
  publish_as-IsTidy n d p t s new h =
      like s (N.publish_as n d p t s).1 (L.subscription-publish_as n d p t s) ((n, d) ∷ [])
        (L.published-publish_as n d p t s) (new, tt) h

  pub erase-IsTidy : (n : Name) (s : Svs) → IsTidy N J prefix s → IsTidy N J prefix (N.erase n s)
  erase-IsTidy n s h = record {
    listening =
        λ k name handler e. h.listening k name handler (sym (L.subscription-erase n s k) ∙ e);
    messages = subst (All (IsMessage N J prefix)) (sym (L.published-erase n s)) h.messages;
  }

  pub create-IsTidy : (n p : Name) → IsTidy N J prefix (N.create n p)
  create-IsTidy n p = record {
    listening = λ k name handler e.
        absurd (none-ne-some (name, handler) (sym (L.subscription-create n p k) ∙ e));
    messages = subst (All (IsMessage N J prefix)) (sym (L.published-create n p)) tt;
  }

  pub unsubscribe-IsTidy :
      (j : ℕ) (s : Svs) → IsTidy N J prefix s → IsTidy N J prefix (N.unsubscribe j s)
  unsubscribe-IsTidy j s h = record {
    listening = λ k name handler e. elim (Bool-cases (k == j)) [
      | inl gone ↦
          absurd
            (none-ne-some (name, handler) (sym (L.subscription-unsubscribe j s k ∙ rw gone) ∙ e))
      | inr kept ↦ h.listening k name handler (sym (L.subscription-unsubscribe j s k ∙ rw kept) ∙ e)
    ];
    messages = subst (All (IsMessage N J prefix)) (sym (L.published-unsubscribe j s)) h.messages;
  }

  pub subscribe-IsTidy :
      (n : Name) (handler : Handler) (s : Svs)
      → MayListen N J prefix n handler
      → IsTidy N J prefix s
      → IsTidy N J prefix (N.subscribe n handler s).1
  subscribe-IsTidy n handler s new h = record {
    listening = λ k name other e. elim (Bool-cases (k == (N.subscribe n handler s).0)) [
      | inl same ↦
          let p : ◌≡◌ {A = Name × Handler} (n, handler) (name, other) =
            some-injective _ _ (sym (L.subscription-subscribe n handler s k ∙ rw same) ∙ e) in
          subst (λ (q : Name × Handler). MayListen N J prefix q.0 q.1) p new
      | inr older ↦
          h.listening k name other (sym (L.subscription-subscribe n handler s k ∙ rw older) ∙ e)
    ];
    messages =
        subst (All (IsMessage N J prefix)) (sym (L.published-subscribe n handler s)) h.messages;
  }
