-- ===== src/WordCount/Nodes/Splitters.antt =====
-- How a node of lines2words starts, from the graph to its subscriptions.
use iceflow.Prelude.{
  ℕ, ◌+◌, ◌≤◌, ◌<◌, ◌^◌, ◌≡◌, ◌↔◌, refl, ap, subst, ◌∙◌, ◌⊎◌, inl, inr, true, Option, none, some,
  List, [], String, arith, Option-cases, is_listed, All, get_elem?,
}
use iceflow.Prelude.Errors.{Result, ok, throw, bad_optional_access}
use iceflow.Prelude.Dict.{lookup}
use iceflow.Ndn.{Ndn, IsLawful, Generator}
use iceflow.Json.{Json}
use iceflow.Dag.{Edge}
use iceflow.Producer.{Producer}
use iceflow.Measurements
use iceflow.Measurements.{Directory}
use iceflow.Flow.{create_from_file}
use iceflow.Flow.Setup.Connected.{IsConnected, create_from_file-IsConnected}
use iceflow.Flow.Events.{prosuming, World}
use iceflow.WordCount.Shares.{IsShare, create_consumer_partitions_enough}
use iceflow.WordCount.Nodes.{
  splitting, SplittingFlow, splitter_state, start_splitter, run_lines2words,
}
use iceflow.WordCount.Nodes.Starting.{save_threshold, IsAttached, attach_lem, attach_unset}
use iceflow.WordCount.Nodes.Edges.{FirstEdges, edges_of-FirstEdges, has_first}

-- An edge whose partitions the loop counts through.
abbrev pub Countable : {C : Type 0} → ℕ → Edge C → Type 0
Countable fuel edge = (edge.max_partitions + 2 ≤ fuel) × (edge.max_partitions + 2 < 2 ^ 32)

module _ (N : Ndn) (L : IsLawful N) (E : Generator) (J : Json) (to_string : ℕ → String)
    (clock : ℕ → ℕ) {R : Type 0} (files : Directory) (readings : ℕ) where
  -- A splitter that has started: its consumer serves its share of the first upstream edge, its
  -- callback pushes to the first downstream edge, for which there is a producer, and nothing has been
  -- counted or measured.
  abbrev pub IsStarted :
      String
      → (consumer_index : ℕ) → SplittingFlow N E J to_string clock R
      → World N E (splitting to_string clock) J.Object R
      → Type 0
  IsStarted node_name consumer_index t w =
      (up down : Edge J.Object) × (partitions : List ℕ) × (threshold : ℕ) × (p : Producer E.State R)
      × (get_elem? t.upstream_edges 0 ≡ some up)
      × (get_elem? t.downstream_edges 0 ≡ some down)
      × (save_threshold N E J t ≡ some threshold)
      × IsAttached N E up.id (prosuming down.id) partitions w.0
      × ((k : ℕ) → (is_listed k partitions ≡ true) ↔ IsShare up.max_partitions 2 consumer_index k)
      × (lookup down.id w.0.producers ≡ some p)
      × (w.1 ≡ record {
        compute_counter = 0;
        recorder = record {
          measurement = Measurements.create node_name t.node_prefix threshold "A";
          files = files;
          readings = readings;
        };
      })

  -- What `run` has done, from a node that was made.
  abbrev pub Ran :
      String
      → (consumer_index : ℕ) → SplittingFlow N E J to_string clock R
      → Option (Result (World N E (splitting to_string clock) J.Object R))
      → Type 0
  Ran node_name consumer_index t r =
      (((t.upstream_edges ≡ []) ⊎ (t.downstream_edges ≡ []) ⊎ (save_threshold N E J t ≡ none))
        × (r ≡ some (throw bad_optional_access)))
      ⊎ ((w : World N E (splitting to_string clock) J.Object R) × (r ≡ some (ok w))
          × IsStarted node_name consumer_index t w)

  start_splitter_lem :
      (fuel : ℕ) (node_name : String) (consumer_index number_of_consumers : ℕ)
      (t : SplittingFlow N E J to_string clock R)
      → IsConnected t
      → All (Countable fuel) t.upstream_edges
      → FirstEdges N E J t
      → Ran node_name consumer_index t (
          start_splitter N E J to_string clock files readings fuel node_name consumer_index
            number_of_consumers t)
  unfolding start_splitter splitter_state
  start_splitter_lem fuel node_name consumer_index number t h countable (inl (inl lacks, e)) =
      inl (inl lacks, rw (e, start_splitter))
  start_splitter_lem fuel node_name consumer_index number t h countable (inl (inr lacks, e)) =
      inl (inr (inl lacks), rw (e, start_splitter))
  start_splitter_lem fuel node_name consumer_index number t h countable
        (inr (up, down, ups, downs, us, ds, e)) =
      let first : Countable fuel up = (subst (All (Countable fuel)) us countable).0 in
      let (ps, counted, share) =
        create_consumer_partitions_enough up.max_partitions 2 (omega arith) (omega (arith, first.1))
          fuel consumer_index first.0 in
      let (c, consumer) = has_first up ups t.upstream_edges t.consumers us (h.consumes up.id) in
      let (p, producer) =
        has_first down downs t.downstream_edges t.producers ds (h.produces down.id) in
      elim (Option-cases (save_threshold N E J t)) [
        | inl unset ↦ inl (
          inr (inr unset),
          rw (e, start_splitter)
              (rw (counted, attach_unset N L E J node_name up.id (prosuming down.id) ps t unset)
                refl),
        )
        | inr (threshold, set) ↦
            let (t', attached, serving, same, _) =
              attach_lem N L E J node_name up.id (prosuming down.id) ps t c threshold h.ready
                consumer set in
            inr (
              (t', _),
              rw (e, start_splitter) (rw (counted, attached) refl),
              (
                up,
                down,
                ps,
                threshold,
                p,
                ap (λ es. get_elem? es 0) us,
                ap (λ es. get_elem? es 0) ds,
                set,
                serving,
                share,
                ap (lookup down.id) same ∙ producer,
                refl,
              ),
            )
      ]

  -- From a file from which a node is made, and with partition counts below 2^32 - 2 for the node's
  -- upstream edges, `run` of lines2words starts or throws. It throws `std::bad_optional_access` for a node without an upstream or without a
  -- downstream edge, and where the graph sets no save threshold. Else the consumer of the first
  -- upstream edge serves the partitions from the instance's index on, in steps of 2, up to and
  -- including the edge's count, its callback pushes to the first downstream edge, which has a
  -- producer, and nothing has been counted or measured.
  pub run_lines2words_lem :
      (node_name dag_file_name : String) (file : Option (List ℕ)) (uuid : String) (seed now : ℕ)
      (fuel consumer_index number_of_consumers : ℕ) (t : SplittingFlow N E J to_string clock R)
      → create_from_file N E J dag_file_name file node_name none uuid seed now ≡ ok t
      → All (Countable fuel) t.upstream_edges
      → Ran node_name consumer_index t (
          run_lines2words N E J to_string clock files readings fuel node_name dag_file_name file
            uuid seed now consumer_index number_of_consumers)
  unfolding run_lines2words
  run_lines2words_lem node_name dag_file_name file uuid seed now fuel consumer_index number t made
        countable =
      rw (made, run_lines2words)
        (start_splitter_lem fuel node_name consumer_index number t
          (create_from_file-IsConnected N E J dag_file_name file node_name none uuid seed now t
            made)
          countable (edges_of-FirstEdges N E J t t.upstream_edges t.downstream_edges refl refl))
