-- ===== src/Flow/Setup/Connected.antt =====
-- What a node that has been made can reach: its producers and consumers, by the edges.
use iceflow.Prelude.{◌≡◌, ap, sym, subst, ◌∙◌, inl, inr, Option, List, ℕ, String}
use iceflow.Prelude.Errors.{Result, ok, throw, throw-ne-ok, >>=-Ensures}
use iceflow.Prelude.Dict.{contains}
use iceflow.Ndn.{Ndn, Generator}
use iceflow.Dag.{Node, Edge, DagParser}
use iceflow.Flow.{Flow, IceFlow, create, create_from_file}
use iceflow.Json.{Json}
use iceflow.Dag.Parser.{parse_from_file}
use iceflow.Flow.Setup.{IsReady, names_edge, Made, create-Made}

-- A ready node with a producer for each of its downstream edges, and a consumer for each upstream one.
pub record IsConnected {C S G K R : Type 0} (t : IceFlow C S G K R) : Type 0 where
  pub ready : IsReady t
  pub produces : (name : String) → contains name t.producers ≡ names_edge name t.downstream_edges
  pub consumes : (name : String) → contains name t.consumers ≡ names_edge name t.upstream_edges

module _ (N : Ndn) (E : Generator) {C K R : Type 0} where
  Made-IsConnected :
      (node : Node C) (upstream : List (Edge C)) (t : Flow N E C K R) (r : Result (Flow N E C K R))
      → Made N E node upstream r
      → r ≡ ok t
      → IsConnected t
  Made-IsConnected node upstream t r (inl (_, thrown)) h = absurd (throw-ne-ok _ t (sym thrown ∙ h))
  Made-IsConnected node upstream t r (inr (made, _, e, ready, _, produces, consumes, _, up, down))
        h =
      let same : made ≡ t =
        ap (λ (q : Result (Flow N E C K R)). elim q [ ok u ↦ u | throw _ ↦ t ]) (sym e ∙ h) in
      subst IsConnected same (record {
        ready = ready;
        produces = λ name. produces name ∙ ap (names_edge name) (sym down);
        consumes = λ name. consumes name ∙ ap (names_edge name) (sym up);
      })

module _ (N : Ndn) (E : Generator) {C J K R : Type 0} where
  -- Whatever the constructor makes is connected.
  pub create-IsConnected :
      (dag : DagParser C J) (name : String) (reporter : Option R) (uuid : String) (seed now : ℕ)
      (t : Flow N E C K R)
      → create N E dag name reporter uuid seed now ≡ ok t
      → IsConnected t
  create-IsConnected dag name reporter uuid seed now t h =
      elim (create-Made N E {K = K} dag name reporter uuid seed now) [
        | inl (_, thrown) ↦ absurd (throw-ne-ok _ t (sym thrown ∙ h))
        | inr (node, _, made) ↦ Made-IsConnected N E node _ t _ made h
      ]

module _ (N : Ndn) (E : Generator) (J : Json) {K R : Type 0} where
  pub create_from_file-IsConnected :
      (dag_file_name : String) (file : Option (List ℕ)) (name : String) (reporter : Option R)
      (uuid : String) (seed now : ℕ) (t : Flow N E J.Object K R)
      → create_from_file N E J dag_file_name file name reporter uuid seed now ≡ ok t
      → IsConnected t
  unfolding create_from_file
  create_from_file-IsConnected dag_file_name file name reporter uuid seed now =
      >>=-Ensures IsConnected (parse_from_file J dag_file_name file) _
        (λ dag _ u. create-IsConnected N E dag name reporter uuid seed now u)
