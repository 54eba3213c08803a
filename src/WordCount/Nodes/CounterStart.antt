-- ===== src/WordCount/Nodes/CounterStart.antt =====
-- How a node of wordcount starts.
use iceflow.Prelude.{
  ℕ, ◌≡◌, refl, ap, ◌⊎◌, inl, inr, Option, none, some, List, [], ◌∷◌, String, Option-cases,
  get_elem?,
}
use iceflow.Prelude.Errors.{Result, ok, throw, bad_optional_access}
use iceflow.Ndn.{Ndn, IsLawful, Generator}
use iceflow.Json.{Json}
use iceflow.Dag.{Edge}
use iceflow.Measurements
use iceflow.Measurements.{Directory}
use iceflow.Flow.{create_from_file}
use iceflow.Flow.Edges.{get_upstream_edge_first}
use iceflow.Flow.Setup.Connected.{IsConnected, create_from_file-IsConnected}
use iceflow.Flow.Events.{consuming, World}
use iceflow.WordCount.Nodes.{
  value, first_upstream, counting, CountingFlow, counter_state, start_counter, run_wordcount,
}
use iceflow.WordCount.Nodes.Starting.{save_threshold, IsAttached, attach_lem, attach_unset}
use iceflow.WordCount.Nodes.Edges.{has_first}

module _ (N : Ndn) (L : IsLawful N) (E : Generator) (J : Json) (to_string : ℕ → String)
    (clock : ℕ → ℕ) {R : Type 0} (files : Directory) (readings : ℕ) where
  -- What `run` has done, from a node that was made.
  abbrev pub RanCounter :
      String
      → CountingFlow N E J to_string clock R
      → Result (World N E (counting to_string clock) J.Object R)
      → Type 0
  RanCounter node_name t r =
      (((t.upstream_edges ≡ []) ⊎ (save_threshold N E J t ≡ none))
        × (r ≡ throw bad_optional_access))
      ⊎ ((w : World N E (counting to_string clock) J.Object R) × (up : Edge J.Object)
          × (threshold : ℕ) × (r ≡ ok w)
          × (get_elem? t.upstream_edges 0 ≡ some up)
          × (save_threshold N E J t ≡ some threshold)
          × IsAttached N E up.id (consuming tt) (0 ∷ []) w.0
          × (w.1 ≡ record {
            word_count_map = [];
            compute_counter = 0;
            recorder = record {
              measurement = Measurements.create node_name t.node_prefix threshold "A";
              files = files;
              readings = readings;
            };
          }))

  first_upstream_lem :
      (t : CountingFlow N E J to_string clock R) (edges : List (Edge J.Object))
      → t.upstream_edges ≡ edges
      → first_upstream N E J t ≡ value (get_elem? edges 0)
  unfolding first_upstream
  first_upstream_lem t edges e = rw (get_upstream_edge_first t edges e)

  start_counter_lem :
      (node_name : String) (t : CountingFlow N E J to_string clock R) (edges : List (Edge J.Object))
      → IsConnected t
      → t.upstream_edges ≡ edges
      → RanCounter node_name t (start_counter N E J to_string clock files readings node_name t)
  unfolding start_counter counter_state value
  start_counter_lem node_name t [] h e = inl (inl e, rw (first_upstream_lem t [] e, start_counter))
  start_counter_lem node_name t (up ∷ ups) h e =
      let (c, consumer) = has_first up ups t.upstream_edges t.consumers e (h.consumes up.id) in
      elim (Option-cases (save_threshold N E J t)) [
        | inl unset ↦ inl (
          inr unset,
          rw (
            first_upstream_lem t (up ∷ ups) e,
            attach_unset N L E J node_name up.id (consuming tt) (0 ∷ []) t unset,
            start_counter,
          ),
        )
        | inr (threshold, set) ↦
            let (t', attached, serving, _, _) =
              attach_lem N L E J node_name up.id (consuming tt) (0 ∷ []) t c threshold h.ready
                consumer set in
            inr (
              (t', _),
              up,
              threshold,
              rw (first_upstream_lem t (up ∷ ups) e, attached, start_counter) refl,
              ap (λ es. get_elem? es 0) e,
              set,
              serving,
              refl,
            )
      ]

  -- From a file from which a node is made, `run` of wordcount throws `std::bad_optional_access` for a
  -- node without an upstream edge, and where the graph sets no save threshold. Else the consumer of
  -- the first upstream edge serves its partition 0 and no other, with the counter's callback, and
  -- nothing has been counted or measured.
  pub run_wordcount_lem :
      (node_name dag_file_name : String) (file : Option (List ℕ)) (uuid : String) (seed now : ℕ)
      (t : CountingFlow N E J to_string clock R)
      → create_from_file N E J dag_file_name file node_name none uuid seed now ≡ ok t
      → RanCounter node_name t (
          run_wordcount N E J to_string clock files readings node_name dag_file_name file uuid seed
            now)
  unfolding run_wordcount
  run_wordcount_lem node_name dag_file_name file uuid seed now t made =
      rw (made, run_wordcount)
        (start_counter_lem node_name t t.upstream_edges
          (create_from_file-IsConnected N E J dag_file_name file node_name none uuid seed now t
            made)
          refl)
