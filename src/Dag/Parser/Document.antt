-- ===== src/Dag/Parser/Document.antt =====
-- The documents that dag-syntax.cddl describes, and reading them back. A document leaves out what
-- may be left out: a tag "latest", and the edges of a node that has none.
use iceflow.Prelude.{
  ◌^◌, ◌<◌, ◌≡◌, refl, ap, sym, ◌∙◌, inl, inr, some, List, [], ◌∷◌, ◌++◌, map, arith, String,
  str_eq, str_eq_iff, All, if◌then◌else◌, Bool-cases,
}
use iceflow.Prelude.Errors.{ok}
use mathlib.Core.List.{append-nil, append_assoc}
use iceflow.Prelude.Dict.{Dict, lookup, keys, contains, NodupKeys, emplace-NodupKeys}
use iceflow.Json.{Json, Documents, string_or}
use iceflow.Dag.{Container, Edge, Node}
use iceflow.Dag.Parser.{
  string_at, uint32_at, emplace_items, string_map, object_or_empty, parse_container, parse_edge,
  parse_edges, parse_downstream, parse_node, parse_nodes, from_json,
}

module _ (J : Json) (D : Documents J) where
  open J use {Value, Object}
  open D use {text, number, array, fields, from_object}

  texts : Dict String → Dict Value
  texts [] = []
  texts ((k, s) ∷ d) = (k, text s) ∷ texts d

  tag_field : String → Dict Value
  tag_field tag = if str_eq tag "latest" then [] else (("tag", text tag) ∷ [])

  container_document : Container → Value
  container_document c = fields (
      ("image", text c.image)
      ∷ ("envs", fields (texts c.envs))
      ∷ ("mounts", fields (texts c.mounts))
      ∷ (
        "resources",
        fields (("cpu", number c.resources.cpu) ∷ ("memory", number c.resources.memory) ∷ []),
      )
      ∷ tag_field c.tag)

  edge_document : Edge Object → Value
  edge_document e = fields (
      ("id", text e.id)
      ∷ ("target", text e.target)
      ∷ ("maxPartitions", number e.max_partitions)
      ∷ ("applicationConfiguration", from_object e.application_configuration)
      ∷ [])

  downstream_field : List (Edge Object) → Dict Value
  downstream_field [] = []
  downstream_field (e ∷ es) = ("downstream", array (map edge_document (e ∷ es))) ∷ []

  node_document : Node Object → Value
  node_document n = fields (
      ("task", text n.task)
      ∷ ("name", text n.name)
      ∷ ("description", text n.description)
      ∷ ("executor", text n.executor)
      ∷ ("container", container_document n.container)
      ∷ (
        "scalingParameters",
        fields (("taskComplexity", number n.scaling_parameters.task_complexity) ∷ []),
      )
      ∷ ("applicationConfiguration", from_object n.application_configuration)
      ∷ downstream_field n.downstream)

  pub document : String → List (Node Object) → Value
  document name nodes =
      fields (("applicationName", text name) ∷ ("nodes", array (map node_document nodes)) ∷ [])

  -- What the C++ types guarantee: 32-bit numbers, and no key twice in a `std::map`.
  abbrev pub IsMap : Dict String → Type 0
  IsMap d = NodupKeys d × D.IsOrdered (keys d)

  abbrev pub FitsContainer : Container → Type 0
  FitsContainer c =
      IsMap c.envs × IsMap c.mounts × (c.resources.cpu < 2 ^ 32) × (c.resources.memory < 2 ^ 32)

  abbrev pub FitsNode : Node Object → Type 0
  FitsNode n =
      FitsContainer n.container
      × (n.scaling_parameters.task_complexity < 2 ^ 32)
      × All (λ (e : Edge Object). e.max_partitions < 2 ^ 32) n.downstream

  parse_edge-edge_document :
      (e : Edge Object) → e.max_partitions < 2 ^ 32 → parse_edge J (edge_document e) ≡ ok e
  unfolding parse_edge edge_document
  parse_edge-edge_document e h = simp (
    D.at-fields,
    D.get_string-text,
    D.get_uint32-number _ h,
    D.value_json-fields,
    D.get_object-from_object,
  )

  keys-texts : (d : Dict String) → keys (texts d) ≡ keys d
  unfolding texts
  keys-texts [] = refl
  keys-texts ((k, s) ∷ d) = ap (◌∷◌ k) (keys-texts d)

  contains-texts : (k : String) (d : Dict String) → contains k (texts d) ≡ contains k d
  unfolding texts
  contains-texts k [] = refl
  contains-texts k ((j, s) ∷ d) = ground (arith, contains-texts k d)

  texts-NodupKeys : (d : Dict String) → NodupKeys d → NodupKeys (texts d)
  unfolding texts
  texts-NodupKeys [] h = tt
  texts-NodupKeys ((k, s) ∷ d) h = (contains-texts k d ∙ h.0, texts-NodupKeys d h.1)

  emplace_items-texts :
      (d acc : Dict String) → NodupKeys (acc ++ d) → emplace_items J (texts d) acc ≡ ok (acc ++ d)
  unfolding texts emplace_items
  emplace_items-texts [] acc h = simp append-nil
  emplace_items-texts ((k, s) ∷ d) acc h =
      rw (D.get_string-text s, emplace-NodupKeys k s acc d h)
        (rw (emplace_items-texts d (acc ++ (k, s) ∷ []) (rw append_assoc h))
          (ap ok (append_assoc acc _ d)))

  string_map_lem :
      (d : Dict Value) (key : String) (m : Dict String)
      → lookup key d ≡ some (fields (texts m))
      → IsMap m
      → string_map J (fields d) key ≡ ok m
  unfolding string_map
  string_map_lem d key m e h =
      rw
        (
          D.value_json-fields,
          e,
          D.items-fields (texts m) (texts-NodupKeys m h.0) (rw keys-texts h.1),
        )
        (emplace_items-texts m [] h.0)

  tag_field_lem : (tag : String) → string_or J (lookup "tag" (tag_field tag)) "latest" ≡ ok tag
  unfolding tag_field
  tag_field_lem tag = elim (Bool-cases (str_eq tag "latest")) [
    | inl same ↦ rw same (ap ok (sym ((str_eq_iff tag "latest").0 same)))
    | inr other ↦ rw other (D.get_string-text tag)
  ]

  parse_container-container_document :
      (c : Container) → FitsContainer c → parse_container J (container_document c) ≡ ok c
  unfolding parse_container container_document string_at uint32_at
  parse_container-container_document c h = rw (string_map_lem _ "envs" c.envs refl h.0) (
      simp
        (
          D.at-fields,
          D.get_string-text,
          D.value_string-fields,
          D.get_uint32-number _ h.2,
          D.get_uint32-number _ h.3,
        )
        (rw (tag_field_lem c.tag, string_map_lem _ "mounts" c.mounts refl h.1)))

  parse_edges-documents :
      (es : List (Edge Object))
      → All (λ (e : Edge Object). e.max_partitions < 2 ^ 32) es
      → parse_edges J (map edge_document es) ≡ ok es
  unfolding parse_edges
  parse_edges-documents [] h = refl
  parse_edges-documents (e ∷ es) h =
      rw (parse_edge-edge_document e h.0, parse_edges-documents es h.1)

  parse_downstream_lem :
      (d : Dict Value) (es : List (Edge Object))
      → lookup "downstream" d ≡ lookup "downstream" (downstream_field es)
      → All (λ (e : Edge Object). e.max_partitions < 2 ^ 32) es
      → parse_downstream J (fields d) ≡ ok es
  unfolding parse_downstream downstream_field
  parse_downstream_lem d [] e h = rw (parse_downstream, D.contains-fields, e)
  parse_downstream_lem d (x ∷ es) e h =
      rw (parse_downstream, D.contains-fields, e)
        (rw (D.at-fields, e, D.elements-array) (parse_edges-documents (x ∷ es) h))

  parse_node-node_document : (n : Node Object) → FitsNode n → parse_node J (node_document n) ≡ ok n
  unfolding parse_node node_document string_at uint32_at object_or_empty
  parse_node-node_document n h =
      simp
        (
          D.at-fields,
          D.get_string-text,
          D.value_json-fields,
          D.get_object-from_object,
          D.get_uint32-number _ h.1,
          parse_container-container_document n.container h.0,
        )
        (rw (parse_downstream_lem _ n.downstream refl h.2))

  parse_nodes-documents :
      (ns : List (Node Object)) → All FitsNode ns → parse_nodes J (map node_document ns) ≡ ok ns
  unfolding parse_nodes
  parse_nodes-documents [] h = refl
  parse_nodes-documents (n ∷ ns) h =
      rw (parse_node-node_document n h.0, parse_nodes-documents ns h.1)

  -- Reading the document of a graph gives back the graph, where its numbers fit 32 bits and its
  -- maps have no key twice and are in the order in which the library keeps them: every field of
  -- every node and edge, with a left out tag read as "latest" and left out edges as none. The raw
  -- document is kept.
  pub from_json-document :
      (name : String) (nodes : List (Node Object))
      → All FitsNode nodes
      → from_json J (document name nodes)
        ≡ ok (record { application_name = name; nodes = nodes; json = some (document name nodes) })
  unfolding from_json document string_at
  from_json-document name nodes h =
      simp (D.at-fields, D.get_string-text, D.elements-array, parse_nodes-documents nodes h)
