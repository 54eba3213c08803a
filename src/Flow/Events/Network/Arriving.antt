-- ===== src/Flow/Events/Network/Arriving.antt =====
-- Where a message that is pushed can arrive.
use Prim.Native.String.{◌++◌ as ◌<>◌}
use mathlib.Core.List.{Memᴰ}
use iceflow.Prelude.{
  ℕ, ◌<◌, ◌≡◌, refl, sym, subst, ◌∙◌, inl, inr, true, Bool-cases, some, List, [], ◌∷◌, String,
  is_listed, ◌==◌, ==→eq, All, All-Mem, arith,
}
use mathlib.Core.List.Memᴰ
use mathlib.Core.Option.{none-ne-some, some-injective}
use iceflow.Prelude.Dict.{lookup}
use iceflow.Ndn.{Ndn, IsLawful, Generator, Handler}
use iceflow.Consumer.{Consumer}
use iceflow.Consumer.Partitions.{Serves}
use iceflow.Producer.{Producer}
use iceflow.Flow.{Flow, push_data, repartition_consumer}
use iceflow.Flow.Setup.{IsReady}
use iceflow.Flow.Routing.{push_data_cases, repartition_consumer_lem}
use iceflow.Flow.Events.{Application, CallbackOf, World}
use iceflow.Flow.Events.Network.{Matches}

module _ (N : Ndn) (topic edge : String) (k : ℕ) where
  Serves-listed :
      (ps hs : List ℕ) (s : N.Svs)
      → Serves N topic edge ps hs s
      → is_listed k ps ≡ true
      → (h : ℕ) × (N.subscription s h
          ≡ some (N.append_number (N.parse_name topic) k, Handler.consumer edge))
  Serves-listed [] hs s serves l = absurd (ground arith)
  Serves-listed (p ∷ ps) [] s serves l = absurd serves
  Serves-listed (p ∷ ps) (h ∷ hs) s serves l = elim (Bool-cases (k == p)) [
    | inl same ↦ (
      h,
      subst
          (λ q.
            N.subscription s h
            ≡ some (N.append_number (N.parse_name topic) q, Handler.consumer edge))
          (sym (==→eq k p same)) serves.0,
    )
    | inr differ ↦ Serves-listed ps hs s serves.1 (ground arith)
  ]

module _ (N : Ndn) (E : Generator) (A : Application) (C R : Type 0) where
  -- A node that is to serve partitions of an edge.
  pub record Share : Type 0 where
    pub node : World N E A C R
    pub partitions : List ℕ

  abbrev pub CanServe : String → String → Share → Type 0
  CanServe sync_prefix edge share =
      IsReady share.node.0
      × (share.node.0.sync_prefix ≡ sync_prefix)
      × ((c : Consumer (CallbackOf A) R) × (lookup edge share.node.0.consumers ≡ some c))

  -- The node after it has repartitioned its consumer of an edge.
  abbrev pub serving : String → Share → World N E A C R
  serving edge share =
      ((repartition_consumer N E edge share.partitions share.node.0).1, share.node.1)

  -- Some share has a partition.
  abbrev pub IsShared : List Share → ℕ → Type 0
  IsShared shares k = (share : Share) × Memᴰ share shares × (is_listed k share.partitions ≡ true)

module _ (N : Ndn) (L : IsLawful N) (E : Generator) (A : Application) {C R : Type 0} where
  serving-Matches :
      (sync_prefix edge : String) (payload : List ℕ) (k : ℕ) (u : World N E A C R) (s : N.Svs)
      (share : Share N E A C R)
      → u.0.svs ≡ some s
      → Memᴰ
          (N.append_number (N.parse_name (sync_prefix <> ("/" <> edge))) k, payload)
          (N.published s)
      → CanServe N E A C R sync_prefix edge share
      → is_listed k share.partitions ≡ true
      → Matches N E A C R u (serving N E A C R edge share) (Handler.consumer edge) payload
  serving-Matches sync_prefix edge payload k u s share live sent (ready, same, (c, found)) listed =
      let (handles, _, s', _, e, serves, _, _) =
        repartition_consumer_lem N L E edge share.partitions share.node.0 c ready found in
      let (h, subscribed) = Serves-listed N _ edge k share.partitions handles s' serves listed in
      record {
        sender = s;
        receiver = s';
        handle = h;
        subscribed = N.append_number (N.parse_name (sync_prefix <> ("/" <> edge))) k;
        name = N.append_number (N.parse_name (sync_prefix <> ("/" <> edge))) k;
        sends = live;
        receives = rw e refl;
        published = sent;
        subscription = rw (← same) subscribed;
        begins = L.is_prefix_of_refl _;
      }

  -- If the consumers of an edge at some ready nodes of an application share its partitions, in
  -- whatever way, then each message that a ready node of the application pushes to the edge matches a
  -- subscription of one of them, for the consumer of that edge.
  pub push_data-Matches :
      (edge : String) (payload : List ℕ) (t : Flow N E C (CallbackOf A) R) (a : A.State)
      (p : Producer E.State R) (shares : List (Share N E A C R))
      → IsReady t
      → lookup edge t.producers ≡ some p
      → All (CanServe N E A C R t.sync_prefix edge) shares
      → ((k : ℕ) → k < p.number_of_partitions → IsShared N E A C R shares k)
      → (share : Share N E A C R) × Memᴰ share shares
        × Matches N E A C R
            ((push_data N E edge payload t).1, a)
            (serving N E A C R edge share)
            (Handler.consumer edge)
            payload
  push_data-Matches edge payload t a p shares ready found can shared =
      elim (push_data_cases N L E edge payload t ready) [
        | inl (missing, _) ↦ absurd (none-ne-some p (sym missing ∙ found))
        | inr (q, s, s', k, found', live, _, sent, below, log) ↦
            let same : q ≡ p = some-injective q p (sym found' ∙ found) in
            let (share, member, listed) =
              shared k
                (subst (λ (r : Producer E.State R). k < r.number_of_partitions) same below) in
            (
              share,
              member,
              serving-Matches t.sync_prefix edge payload k ((push_data N E edge payload t).1, a) s'
                  share sent
                  (subst (Memᴰ _) (sym log) (Memᴰ.append_right (N.published s) (Memᴰ.head refl)))
                  (All-Mem _ share shares can member) listed,
            )
      ]
