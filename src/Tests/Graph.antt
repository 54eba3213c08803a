-- ===== src/Tests/Graph.antt =====
-- The graph of the word count example (src/dag-parser.cpp).
use Prim.Native.String.{◌++◌ as ◌<>◌}
use iceflow.Prelude.{◌≡◌, ◌≢◌, ◌⊎◌, [], ◌∷◌, some, map, refl, arith, str_eq, All, any, select}
use mathlib.Core.List.{Memᴰ}
use iceflow.Prelude.Errors.{ok, throw, runtime_error}
use iceflow.Json.Plain.{
  Tree, text, number, array, fields, entry, end, cons, nil, to_entries, plain, plain_documents,
}
use iceflow.Dag.Parser.Types.{IsGraph, from_json-IsGraph}
use iceflow.Dag.{DagParser, Edge, Node, find_node_by_name, find_edge_by_name, find_upstream_edges}
use iceflow.Dag.Find.{First, all_edges, find_node_by_name_cases, find_edge_by_name_cases}
use iceflow.Dag.Upstream.{find_upstream_edges_lem}
use iceflow.Dag.Parser.{from_json}
use iceflow.Dag.Parser.Document.{FitsNode, document, from_json-document}
use iceflow.Tests.{graph}

graph_fits : All (FitsNode plain plain_documents) graph.nodes
graph_fits = ground arith

from_json-document_example :
    from_json plain (document plain plain_documents "wc" graph.nodes)
    ≡ ok (record {
      application_name = "wc";
      nodes = graph.nodes;
      json = some (document plain plain_documents "wc" graph.nodes);
    })
from_json-document_example = from_json-document plain plain_documents "wc" graph.nodes graph_fits

find_node_by_name_cases_example :
    ((node : Node Tree) × (find_node_by_name graph "wordcount" ≡ ok node)
      × (node.name ≡ "wordcount")
      × First (λ n. str_eq n.name "wordcount") graph.nodes node)
    ⊎ ((find_node_by_name graph "wordcount"
          ≡ throw (runtime_error ("Node with name '" <> "wordcount" <> "' not found")))
        × All (λ (n : Node Tree). n.name ≢ "wordcount") graph.nodes)
find_node_by_name_cases_example = find_node_by_name_cases graph "wordcount"

find_edge_by_name_cases_example :
    ((find_edge_by_name graph "words" ≡ ok tt)
      × ((edge : Edge Tree) × Memᴰ edge (all_edges graph.nodes) × (edge.id ≡ "words")))
    ⊎ ((find_edge_by_name graph "words"
          ≡ throw (runtime_error ("Edge with ID '" <> "words" <> "' not found")))
        × All (λ (e : Edge Tree). e.id ≢ "words") (all_edges graph.nodes))
find_edge_by_name_cases_example = find_edge_by_name_cases graph "words"

find_upstream_edges_lem_example :
    (map (λ r. r.0) (find_upstream_edges graph "wordcount")
      ≡ select (λ n. any (λ (e : Edge Tree). str_eq e.target "wordcount") n.downstream) graph.nodes)
    × All
        (λ r. First (λ (e : Edge Tree). str_eq e.target "wordcount") r.0.downstream r.1)
        (find_upstream_edges graph "wordcount")
find_upstream_edges_lem_example = find_upstream_edges_lem graph "wordcount"

-- a node with one edge
abbrev node_document : Tree
node_document = fields (
    to_entries (
      ("task", text "splitting")
      ∷ ("name", text "lines2words")
      ∷ ("description", text "")
      ∷ ("executor", text "")
      ∷ (
        "container",
        fields (
            to_entries (
              ("image", text "image")
              ∷ ("envs", fields (entry "A" (text "1") end))
              ∷ ("resources", fields (entry "cpu" (number 1) (entry "memory" (number 2) end)))
              ∷ [])),
      )
      ∷ ("scalingParameters", fields (entry "taskComplexity" (number 1) end))
      ∷ (
        "downstream",
        array (
            cons
              (fields (
                entry "id" (text "words")
                  (entry "target" (text "counting") (entry "maxPartitions" (number 2) end))))
              nil),
      )
      ∷ []))

abbrev wc_document : Tree
wc_document =
    fields
      (entry "applicationName" (text "wc") (entry "nodes" (array (cons node_document nil)) end))

abbrev wc_graph : DagParser Tree Tree
wc_graph = record {
  application_name = "wc";
  nodes =
      record {
        task = "splitting";
        name = "lines2words";
        description = "";
        executor = "";
        container = record {
          image = "image";
          tag = "latest";
          envs = ("A", "1") ∷ [];
          mounts = [];
          resources = record { cpu = 1; memory = 2 };
        };
        scaling_parameters = record { task_complexity = 1 };
        downstream =
            record {
              id = "words";
              target = "counting";
              max_partitions = 2;
              application_configuration = fields end;
            }
            ∷ [];
        application_configuration = fields end;
      }
      ∷ [];
  json = some wc_document;
}

wc_graph-read : from_json plain wc_document ≡ ok wc_graph
unfolding from_json
wc_graph-read = refl

from_json-IsGraph_example : IsGraph plain wc_document wc_graph
from_json-IsGraph_example = from_json-IsGraph plain wc_document wc_graph wc_graph-read
