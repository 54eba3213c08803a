-- ===== src/Flow/Setup.antt =====
-- Making a node from a graph, and the invariant that it then keeps.
pub mod Connected
pub mod Reporting
use Prim.Native.String.{◌++◌ as ◌<>◌}
use iceflow.Prelude.{
  ℕ, ◌<◌, ◌≡◌, ◌≢◌, refl, ◌⊎◌, inl, inr, Bool, true, false, ◌||◌, Option, some, List, [], ◌∷◌, map,
  arith, String, str_eq, any, ◌==◌,
}
use mathlib.Core.Option.{none-ne-some}
use iceflow.Dag.Find.{find_node_by_name_cases}
use iceflow.Prelude.Errors.{Result, ok, throw, invalid_argument, runtime_error, ◌>>=◌}
use iceflow.Prelude.Dict.{Dict, contains, emplace, contains-emplace, AllEntries, emplace-AllEntries}
use iceflow.Ndn.{Ndn, Handler, Generator}
use iceflow.Dag.{Node, Edge, DagParser, find_node_by_name, find_upstream_edges_of}
use iceflow.Consumer
use iceflow.Consumer.{Consumer}
use iceflow.Producer.{Producer}
use iceflow.Producer.Topics.{create_cases}
use iceflow.Flow.{Flow, IceFlow, create_producers, create_consumers, create}

-- A producer that publishes under its edge's topic, has a partition to publish to, and has recorded no
-- time stamp.
pub record ServesEdge {G R : Type 0} (sync_prefix edge_name : String) (p : Producer G R)
    : Type 0 where
  pub positive : 0 < p.number_of_partitions
  pub topic : p.pub_topic ≡ sync_prefix <> ("/" <> edge_name)
  pub unstamped : p.production_timestamps ≡ []

-- A consumer that listens to its edge's topic.
pub record ListensTo {K R : Type 0} (sync_prefix edge_name : String) (c : Consumer K R)
    : Type 0 where
  pub topic : c.sub_topic ≡ sync_prefix <> ("/" <> edge_name)
  pub edge : c.upstream_edge_name ≡ edge_name

-- Every producer and every consumer belongs to the edge under which the node keeps it, and the node
-- has its SVS instance.
pub record IsReady {C S G K R : Type 0} (t : IceFlow C S G K R) : Type 0 where
  pub live : (s : S) × (t.svs ≡ some s)
  pub producing : AllEntries (ServesEdge t.sync_prefix) t.producers
  pub consuming : AllEntries (ListensTo t.sync_prefix) t.consumers

-- An edge without partitions.
abbrev pub no_partitions : {C : Type 0} → List (Edge C) → Bool
no_partitions = any (λ e. e.max_partitions == 0)

abbrev pub names_edge : {C : Type 0} → String → List (Edge C) → Bool
names_edge name = any (λ e. str_eq e.id name)

module _ (N : Ndn) (E : Generator) {C R : Type 0} (node_prefix sync_prefix : String)
    (reporter : Option R) (seed : ℕ) where
  -- How the loop over the downstream edges ends, from a live instance.
  Produced :
      List (Edge C)
      → Dict (Producer E.State R)
      → Result (Dict (Producer E.State R) × Option N.Svs)
      → Type 0
  Produced edges before r =
      ((no_partitions edges ≡ true)
        × (r ≡ throw (invalid_argument "At least one topic partition has to be defined!")))
      ⊎ ((producers : Dict (Producer E.State R)) × (s : N.Svs) × (no_partitions edges ≡ false)
          × (r ≡ ok (producers, some s))
          × ((name : String)
              → contains name producers ≡ (contains name before || names_edge name edges))
          × AllEntries (ServesEdge sync_prefix) producers)

  Produced-cons :
      (edge : Edge C) (edges : List (Edge C)) (before : Dict (Producer E.State R))
      (p : Producer E.State R) (r : Result (Dict (Producer E.State R) × Option N.Svs))
      → edge.max_partitions ≢ 0
      → Produced edges (emplace edge.id p before) r
      → Produced (edge ∷ edges) before r
  unfolding Produced
  Produced-cons edge edges before p r nz (inl (z, e)) = inl (ground arith, e)
  Produced-cons edge edges before p r nz (inr (producers, s, z, e, names, all)) = inr (
    producers,
    s,
    ground arith,
    e,
    (λ name. ground (arith, names name, contains-emplace edge.id name p before)),
    all,
  )

  create_producers-Produced :
      (edges : List (Edge C)) (before : Dict (Producer E.State R)) (s : N.Svs)
      → AllEntries (ServesEdge sync_prefix) before
      → Produced edges before
          (create_producers N E node_prefix sync_prefix reporter seed edges before (some s))
  unfolding Produced create_producers
  create_producers-Produced [] before s h = inr (before, s, refl, refl, (λ name. ground arith), h)
  create_producers-Produced (edge ∷ edges) before s h =
      elim (create_cases N E node_prefix sync_prefix edge.id edge.max_partitions reporter seed s) [
        | inl (z, e) ↦ inl (ground arith, rw e)
        | inr (p, e, nz, count, topic, unstamped) ↦
            let s' =
              (N.subscribe (N.append (N.parse_name (sync_prefix <> ("/" <> edge.id))) "backchannel")
                (Handler.backchannel node_prefix sync_prefix) s).1 in
            let rest = create_producers-Produced edges (emplace edge.id p before) s' (
              emplace-AllEntries (ServesEdge sync_prefix) edge.id p before
                (record { positive = omega arith; topic = topic; unstamped = unstamped }) h) in
            rw e (Produced-cons edge edges before p _ nz rest)
      ]

module _ (N : Ndn) {C K R : Type 0} (sync_prefix : String) (reporter : Option R) (now : ℕ) where
  -- How the loop over the upstream edges ends, from a live instance.
  Consumed :
      List (Edge C) → Dict (Consumer K R) → N.Svs → Dict (Consumer K R) × Option N.Svs → Type 0
  Consumed edges before s r =
      (r.1 ≡ some s)
      × ((name : String) → contains name r.0 ≡ (contains name before || names_edge name edges))
      × AllEntries (ListensTo sync_prefix) r.0

  create_consumers-Consumed :
      (edges : List (Edge C)) (before : Dict (Consumer K R)) (s : N.Svs)
      → AllEntries (ListensTo sync_prefix) before
      → Consumed edges before s (create_consumers N sync_prefix reporter now edges before (some s))
  unfolding Consumed create_consumers Consumer.destroy Consumer.create
  create_consumers-Consumed [] before s h = (refl, (λ name. ground arith), h)
  create_consumers-Consumed (edge ∷ edges) before s h =
      let made : Consumer K R = Consumer.create sync_prefix edge.id reporter now in
      let (live, names, all) = create_consumers-Consumed edges (emplace edge.id made before) s (
        emplace-AllEntries (ListensTo sync_prefix) edge.id made before
          (record { topic = refl; edge = refl }) h) in
      (live, (λ name. ground (arith, names name, contains-emplace edge.id name made before)), all)

pub no_entries : {V : Type 0} (P : String → V → Type 0) → AllEntries P []
no_entries P k v e = absurd (none-ne-some v e)

module _ (N : Ndn) (E : Generator) {C K R : Type 0} where
  -- What the constructor makes of a node and the edges that lead to it.
  abbrev pub Made : Node C → List (Edge C) → Result (Flow N E C K R) → Type 0
  Made node upstream r =
      ((no_partitions node.downstream ≡ true)
        × (r ≡ throw (invalid_argument "At least one topic partition has to be defined!")))
      ⊎ ((t : Flow N E C K R) × (no_partitions node.downstream ≡ false)
          × (r ≡ ok t)
          × IsReady t
          × (t.running ≡ false)
          × ((name : String) → contains name t.producers ≡ names_edge name node.downstream)
          × ((name : String) → contains name t.consumers ≡ names_edge name upstream)
          × (t.node ≡ node)
          × (t.upstream_edges ≡ upstream)
          × (t.downstream_edges ≡ node.downstream))

  module _ (node_prefix sync_prefix : String) (reporter : Option R) (seed now : ℕ) (node : Node C)
      (upstream : List (Edge C)) where
    -- the constructor after the producers
    built : Dict (Producer E.State R) × Option N.Svs → Flow N E C K R
    built produced =
        let consumed : Dict (Consumer K R) × Option N.Svs =
          create_consumers N sync_prefix reporter now upstream [] produced.1 in
        record {
          running = false;
          svs = consumed.1;
          node_prefix = node_prefix;
          sync_prefix = sync_prefix;
          producers = produced.0;
          consumers = consumed.0;
          congestion_reporter = reporter;
          node = node;
          downstream_edges = node.downstream;
          upstream_edges = upstream;
        }

    built-Made :
        (r : Result (Dict (Producer E.State R) × Option N.Svs))
        → Produced N E {C = C} node_prefix sync_prefix reporter seed node.downstream [] r
        → Made node upstream (r >>= λ produced. ok (built produced))
    unfolding built Produced Consumed
    built-Made r (inl (z, e)) = inl (z, rw e)
    built-Made r (inr (producers, s, z, e, names, all)) =
        let (live, names', all') =
          create_consumers-Consumed N {C = C} {K = K} sync_prefix reporter now upstream [] s
            (no_entries _) in
        inr (
          built (producers, some s),
          z,
          rw e,
          record { live = (s, live); producing = all; consuming = all' },
          refl,
          names,
          names',
          refl,
          refl,
          refl,
        )

module _ (N : Ndn) (E : Generator) {C J K R : Type 0} where
  -- The constructor throws where the graph has no node of the name, or where an edge of the node has
  -- no partitions. Else it makes a node that is not running, with its SVS instance, a producer for
  -- each edge of the node and no other, and a consumer for each edge that `findUpstreamEdges` finds
  -- and no other, each under its edge's topic; it keeps the node of the graph and those edges.
  pub create-Made :
      (dag : DagParser C J) (name : String) (reporter : Option R) (uuid : String) (seed now : ℕ)
      → ((find_node_by_name dag name
            ≡ throw (runtime_error ("Node with name '" <> name <> "' not found")))
          × (create N E {K = K} dag name reporter uuid seed now
              ≡ throw (runtime_error ("Node with name '" <> name <> "' not found"))))
        ⊎ ((node : Node C) × (find_node_by_name dag name ≡ ok node)
            × Made N E node
                (map (λ r. r.1) (find_upstream_edges_of dag node))
                (create N E {K = K} dag name reporter uuid seed now))
  unfolding create built
  create-Made dag name reporter uuid seed now = elim (find_node_by_name_cases dag name) [
    | inr (e, _) ↦ inl (e, rw e)
    | inl (node, e, _, _) ↦ inr (
      node,
      e,
      rw e (
          built-Made N E _ _ reporter seed now node _ _
            (create_producers-Produced N E _ _ reporter seed node.downstream [] _ (no_entries _))),
    )
  ]
