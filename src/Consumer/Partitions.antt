-- ===== src/Consumer/Partitions.antt =====
-- What repartitioning a consumer does to the subscriptions of the SVS instance.
use iceflow.Prelude.{
  ℕ, ◌≡◌, ◌≢◌, refl, ap, ◌∙◌, ◌⊎◌, inl, inr, true, false, none, some, List, [], ◌∷◌, ◌++◌, arith,
  ◌==◌, if◌then◌else◌, is_listed, Bool-cases, Option-cases, String, ==→eq, ==_refl,
}
use mathlib.Core.List.{append-nil, append_assoc}
use iceflow.Prelude.Errors.{ok, throw}
use iceflow.Ndn.{Ndn, IsLawful, Handler}
use iceflow.Consumer.{
  Consumer, Subscribed, prepare_data_name, unsubscribe_all, subscribe_to_partitions, repartition,
  destroy,
}

module _ (N : Ndn) where
  open N use {Name, Svs, subscription}

  -- The handles are subscriptions to the partitions of a topic, in order, and call the consumer of an
  -- edge.
  abbrev pub Serves : String → String → List ℕ → List ℕ → Svs → Type 0
  Serves topic edge [] [] s = Unit
  Serves topic edge (p ∷ ps) (h ∷ hs) s =
      (subscription s h ≡ some (N.append_number (N.parse_name topic) p, Handler.consumer edge))
      × Serves topic edge ps hs s
  Serves topic edge _ _ s = ⊥

  -- Every live subscription but those behind the handles is as it was.
  abbrev pub Others : List ℕ → Svs → Svs → Type 0
  Others handles s s' =
      (k : ℕ)
      → (is_listed k handles ≡ true)
        ⊎ (subscription s k ≡ none)
        ⊎ (subscription s' k ≡ subscription s k)

  -- Every subscription but the new ones is gone, if it was one of the former ones, and else as it was.
  abbrev pub Replaced : (former new : List ℕ) → Svs → Svs → Type 0
  Replaced former new s s' =
      (k : ℕ)
      → (is_listed k new ≡ true)
        ⊎ (subscription s' k ≡ (if is_listed k former then none else subscription s k))

module _ (N : Ndn) (L : IsLawful N) where
  open N use {Name, Svs, subscription}

  subscription-unsubscribe_all :
      (hs : List ℕ) (s : Svs) (k : ℕ)
      → subscription (unsubscribe_all N hs s) k
        ≡ (if is_listed k hs then none else subscription s k)
  unfolding unsubscribe_all
  subscription-unsubscribe_all [] s k = refl
  subscription-unsubscribe_all (h ∷ hs) s k = ground (
    arith,
    subscription-unsubscribe_all hs (N.unsubscribe h s) k,
    L.subscription-unsubscribe h s k,
  )

module _ (N : Ndn) (L : IsLawful N) {K R : Type 0} where
  open N use {Name, Svs, subscription}

  -- What the loop over the partitions has done, from a live instance `s`.
  record Granted (ps : List ℕ) (c : Consumer K R) (s : Svs) : Type 0 where
    handles : List ℕ
    svs : Svs
    result :
        subscribe_to_partitions N ps c (some s)
        ≡ (ok tt, record c { subscription_handles = c.subscription_handles ++ handles }, some svs)
    serves : Serves N c.sub_topic c.upstream_edge_name ps handles svs
    keeps : (k : ℕ) → subscription s k ≢ none → subscription svs k ≡ subscription s k
    adds : (k : ℕ) → is_listed k handles ≡ false → subscription svs k ≡ subscription s k

  module _ (p : ℕ) (ps : List ℕ) (c : Consumer K R) (s : Svs) where
    first : ℕ × Svs
    unfolding prepare_data_name
    first = N.subscribe (prepare_data_name N p c) (Handler.consumer c.upstream_edge_name) s

    grown : Consumer K R
    unfolding first
    grown = record c { subscription_handles = c.subscription_handles ++ first.0 ∷ [] }

    first-some :
        subscription first.1 first.0
        ≡ some (N.append_number (N.parse_name c.sub_topic) p, Handler.consumer c.upstream_edge_name)
    unfolding first
    first-some = rw (L.subscription-subscribe, ==_refl)

    first-ne : (k : ℕ) → (k == first.0) ≡ false → subscription first.1 k ≡ subscription s k
    unfolding first
    first-ne k e = rw (L.subscription-subscribe, e)

    first-keeps : (k : ℕ) → subscription s k ≢ none → subscription first.1 k ≡ subscription s k
    first-keeps k h = elim (Bool-cases (k == first.0)) [
      | inl same ↦ absurd (h (rw (==→eq _ _ same) fresh))
      | inr other ↦ first-ne k other
    ]
      where
        fresh : subscription s first.0 ≡ none
        fresh = unfold first in L.subscribe_fresh _ _ s

    Granted-cons : Granted ps grown first.1 → Granted (p ∷ ps) c s
    unfolding grown subscribe_to_partitions
    Granted-cons g = record {
      handles = first.0 ∷ g.handles;
      svs = g.svs;
      result = g.result ∙ rw append_assoc;
      serves = (g.keeps first.0 (rw first-some (λ e. cc)) ∙ first-some, g.serves);
      keeps = λ k h. g.keeps k (rw (first-keeps k h) h) ∙ first-keeps k h;
      adds = λ k h. g.adds k (ground arith) ∙ first-ne k (ground arith);
    }

  subscribe_to_partitions-Granted : (ps : List ℕ) (c : Consumer K R) (s : Svs) → Granted ps c s
  unfolding subscribe_to_partitions
  subscribe_to_partitions-Granted [] c s = record {
    handles = [];
    svs = s;
    result = rw append-nil;
    serves = tt;
    keeps = λ k h. refl;
    adds = λ k h. refl;
  }
  subscribe_to_partitions-Granted (p ∷ ps) c s =
      Granted-cons p ps c s (subscribe_to_partitions-Granted ps (grown p ps c s) (first p ps c s).1)

  -- On a live SVS instance `repartition` succeeds; the consumer then holds one subscription for each
  -- partition, in order, under its topic's name with that number; its former subscriptions are gone;
  -- and every subscription of somebody else is as it was.
  pub repartition_lem :
      (ps : List ℕ) (c : Consumer K R) (s : Svs)
      → (handles : List ℕ) × (s' : Svs) × (repartition N ps c (some s)
          ≡ (true, record c { subscription_handles = handles }, some s'))
        × Serves N c.sub_topic c.upstream_edge_name ps handles s'
        × Others N c.subscription_handles s s'
        × ((k : ℕ)
            → (is_listed k handles ≡ true)
              ⊎ (subscription s' k
                  ≡ (if is_listed k c.subscription_handles then none else subscription s k)))
  unfolding repartition
  repartition_lem ps c s =
      let cleared : Svs = unsubscribe_all N c.subscription_handles s in
      let g = subscribe_to_partitions-Granted ps (record c { subscription_handles = [] }) cleared in
      let gone = subscription-unsubscribe_all N L c.subscription_handles s in
      (
        g.handles,
        g.svs,
        ap (λ (r : Subscribed Svs K R). (elim r.0 [ ok _ ↦ true | throw _ ↦ false ], r.1, r.2))
            g.result,
        g.serves,
        (λ k. kept k (gone k) (g.keeps k)),
        (λ k. elim (Bool-cases (is_listed k g.handles)) [
          | inl new ↦ inl new
          | inr old ↦ inr (g.adds k old ∙ gone k)
        ]),
      )
    where
      kept :
          {cleared s' : Svs} (k : ℕ)
          → subscription cleared k
            ≡ (if is_listed k c.subscription_handles then none else subscription s k)
          → (subscription cleared k ≢ none → subscription s' k ≡ subscription cleared k)
          → (is_listed k c.subscription_handles ≡ true)
            ⊎ (subscription s k ≡ none)
            ⊎ (subscription s' k ≡ subscription s k)
      kept {cleared = cleared} k gone keeps =
          elim (Bool-cases (is_listed k c.subscription_handles)) [
            | inl held ↦ inl held
            | inr free ↦ elim (Option-cases (subscription s k)) [
              | inl unused ↦ inr (inl unused)
              | inr (x, used) ↦
                  let same : subscription cleared k ≡ subscription s k = gone ∙ rw free in
                  inr (inr (keeps (rw (same, used) (λ e. cc)) ∙ same))
            ]
          ]

  -- The destructor ends the consumer's subscriptions on a live SVS instance, and no others.
  pub subscription-destroy :
      (c : Consumer K R) (s : Svs)
      → (s' : Svs) × (destroy N c (some s) ≡ some s')
        × ((k : ℕ)
            → subscription s' k
              ≡ (if is_listed k c.subscription_handles then none else subscription s k))
  unfolding destroy
  subscription-destroy c s = (
    unsubscribe_all N c.subscription_handles s,
    refl,
    subscription-unsubscribe_all N L c.subscription_handles s,
  )
