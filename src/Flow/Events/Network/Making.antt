-- ===== src/Flow/Events/Network/Making.antt =====
-- A node that has just been made is orderly.
use iceflow.Prelude.{ℕ, ◌≡◌, refl, inl, inr, Option, some, List, [], ◌∷◌, String, map}
use iceflow.Prelude.Errors.{ok, Ensures, ok-Ensures, >>=-Ensures, throw-ne-ok}
use iceflow.Prelude.Dict.{Dict, emplace}
use iceflow.Ndn.{Ndn, IsLawful, Generator, Handler}
use iceflow.Ndn.Messages.{IsTidy, MayBeTidy, subscribe-IsTidy, create-IsTidy}
use iceflow.Json.{Json}
use iceflow.Dag.{
  Node, Edge, DagParser, get_application_name, find_node_by_name, find_upstream_edges_of,
}
use iceflow.Consumer
use iceflow.Consumer.{Consumer}
use iceflow.Consumer.Listening.{destroy-MayBeTidy}
use iceflow.Producer.{Producer}
use iceflow.Producer.Topics.{create_cases}
use iceflow.Flow.{Flow, create, create_producers, create_consumers}
use iceflow.Flow.Setup.Connected.{create-IsConnected}
use iceflow.Flow.Events.Network.Keeping.{IsOrderly}

module _ (N : Ndn) (L : IsLawful N) (J : Json) (E : Generator) {C R : Type 0}
    (node_prefix prefix : String) (reporter : Option R) (seed : ℕ) where
  create_producers-Ensures :
      (edges : List (Edge C)) (before : Dict (Producer E.State R)) (s : N.Svs)
      → IsTidy N J prefix s
      → Ensures
          (λ (made : Dict (Producer E.State R) × Option N.Svs). MayBeTidy N J prefix made.1)
          (create_producers N E node_prefix prefix reporter seed edges before (some s))
  unfolding create_producers
  create_producers-Ensures [] before s h = ok-Ensures _ _ h
  create_producers-Ensures (edge ∷ edges) before s h =
      elim (create_cases N E node_prefix prefix edge.id edge.max_partitions reporter seed s) [
        | inl (_, e) ↦ rw e (λ made r. absurd (throw-ne-ok _ made r))
        | inr (p, e, _, _, _, _) ↦ rw e (
            create_producers-Ensures edges (emplace edge.id p before) _ (
              subscribe-IsTidy N L J prefix _ (Handler.backchannel node_prefix prefix) s
                (edge.id, refl) h))
      ]

module _ (N : Ndn) (L : IsLawful N) (J : Json) {C K R : Type 0} (prefix : String)
    (reporter : Option R) (now : ℕ) where
  create_consumers-MayBeTidy :
      (edges : List (Edge C)) (before : Dict (Consumer K R)) (svs : Option N.Svs)
      → MayBeTidy N J prefix svs
      → MayBeTidy N J prefix (create_consumers N prefix reporter now edges before svs).1
  unfolding create_consumers
  create_consumers-MayBeTidy [] before svs h = h
  create_consumers-MayBeTidy (edge ∷ edges) before svs h =
      create_consumers-MayBeTidy edges _ _
        (destroy-MayBeTidy N L J prefix (Consumer.create prefix edge.id reporter now) svs h)

-- The node that the constructor makes of a graph belongs to the graph's application, and is orderly.
module _ (N : Ndn) (L : IsLawful N) (J : Json) (E : Generator) {C K R : Type 0} where
  create-Remains :
      {T : Type 0} (dag : DagParser C T) (name : String) (reporter : Option R) (uuid : String)
      (seed now : ℕ)
      → Ensures
          (λ (t : Flow N E C K R).
            (t.sync_prefix ≡ get_application_name dag)
            × MayBeTidy N J (get_application_name dag) t.svs)
          (create N E dag name reporter uuid seed now)
  unfolding create
  create-Remains dag name reporter uuid seed now =
      >>=-Ensures _ (find_node_by_name dag name) _ λ node _.
        >>=-Ensures _ (create_producers N E _ _ reporter seed node.downstream [] _) _ λ made e.
          ok-Ensures _ _ (
            refl,
            create_consumers-MayBeTidy N L J {K = K} _ reporter now
                (map (λ (r : Node C × Edge C). r.1) (find_upstream_edges_of dag node)) [] made.1
                (create_producers-Ensures N L J E _ _ reporter seed node.downstream [] _
                  (create-IsTidy N L J _ _ _) made e),
          )

  pub create-IsOrderly :
      {T : Type 0} (dag : DagParser C T) (name : String) (reporter : Option R) (uuid : String)
      (seed now : ℕ) (t : Flow N E C K R)
      → create N E dag name reporter uuid seed now ≡ ok t
      → IsOrderly N J (get_application_name dag) t
  create-IsOrderly dag name reporter uuid seed now t e =
      let (named, tidy) = create-Remains dag name reporter uuid seed now t e in
      let connected = create-IsConnected N E dag name reporter uuid seed now t e in
      record { ready = connected.ready; named = named; tidy = tidy }
