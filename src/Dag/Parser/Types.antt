-- ===== src/Dag/Parser/Types.antt =====
-- What `DAGParser::fromJson` reads where (src/dag-parser.cpp), said of the graph that it returns.
use iceflow.Prelude.{
  ℕ, ◌≡◌, refl, sym, ◌∙◌, true, false, Option, none, some, List, [], ◌∷◌, String, str_eq,
  Bool-cases, Option-cases, inl, inr, ◌⊎◌,
}
use iceflow.Prelude.Errors.{Result, ok, ◌>>=◌, Ensures, ok-Ensures, >>=-Ensures}
use iceflow.Prelude.Dict.{Dict, lookup, NodupKeys, emplace, lookup-emplace, NodupKeys-emplace}
use iceflow.Json.{Json}
use iceflow.Dag.{Container, Edge, Node, DagParser}
use iceflow.Dag.Parser.{
  string_at, uint32_at, emplace_items, string_map, object_or_empty, parse_container, parse_edge,
  parse_edges, parse_downstream, parse_node, parse_nodes, from_json,
}

-- Two lists of one length, with a relation between the elements at each place.
abbrev pub Each : {A B : Type 0} → (A → B → Type 0) → List A → List B → Type 0
Each P [] [] = Unit
Each P (x ∷ xs) (y ∷ ys) = P x y × Each P xs ys
Each P [] (y ∷ ys) = ⊥
Each P (x ∷ xs) [] = ⊥

module _ (J : Json) where
  open J use {Value, Object}

  abbrev pub HasString : Value → String → String → Type 0
  HasString j key s = (J.at j key >>= J.get_string) ≡ ok s

  abbrev pub HasNumber : Value → String → ℕ → Type 0
  HasNumber j key n = (J.at j key >>= J.get_uint32) ≡ ok n

  -- a number in an object that stands in the document
  abbrev pub HasNumberIn : Value → String → String → ℕ → Type 0
  HasNumberIn j outer key n = (v : Value) × (J.at j outer ≡ ok v) × HasNumber v key n

  -- an object that is empty where the key is missing
  abbrev pub HasObject : Value → String → Object → Type 0
  HasObject j key o = (J.value_json j key J.object >>= J.get_object) ≡ ok o

  abbrev read_text : Option Value → Result (Option String)
  read_text none = ok none
  read_text (some v) = J.get_string v >>= (λ s. ok (some s))

  -- A map of texts has a text for each key of the object, the one that stands there, and no key twice.
  abbrev pub HasMap : Value → String → Dict String → Type 0
  HasMap j key d =
      NodupKeys d
      × ((v : Value) × (J.value_json j key J.object ≡ ok v)
          × ((k : String) → read_text (lookup k (J.items v)) ≡ ok (lookup k d)))

pub record IsContainer (J : Json) (j : J.Value) (c : Container) : Type 0 where
  pub image : HasString J j "image" c.image
  pub tag : J.value_string j "tag" "latest" ≡ ok c.tag
  pub envs : HasMap J j "envs" c.envs
  pub mounts : HasMap J j "mounts" c.mounts
  pub cpu : HasNumberIn J j "resources" "cpu" c.resources.cpu
  pub memory : HasNumberIn J j "resources" "memory" c.resources.memory

pub record IsEdge (J : Json) (j : J.Value) (e : Edge J.Object) : Type 0 where
  pub id : HasString J j "id" e.id
  pub target : HasString J j "target" e.target
  pub max_partitions : HasNumber J j "maxPartitions" e.max_partitions
  pub configuration : HasObject J j "applicationConfiguration" e.application_configuration

-- No edges without the key, and else one for each element, in order.
abbrev pub IsDownstream : (J : Json) → J.Value → List (Edge J.Object) → Type 0
IsDownstream J j edges =
    ((J.contains j "downstream" ≡ false) × (edges ≡ []))
    ⊎ ((J.contains j "downstream" ≡ true)
        × ((v : J.Value) × (J.at j "downstream" ≡ ok v) × Each (IsEdge J) (J.elements v) edges))

pub record IsNode (J : Json) (j : J.Value) (n : Node J.Object) : Type 0 where
  pub task : HasString J j "task" n.task
  pub name : HasString J j "name" n.name
  pub description : HasString J j "description" n.description
  pub executor : HasString J j "executor" n.executor
  pub container : (v : J.Value) × (J.at j "container" ≡ ok v) × IsContainer J v n.container
  pub task_complexity :
      HasNumberIn J j "scalingParameters" "taskComplexity" n.scaling_parameters.task_complexity
  pub downstream : IsDownstream J j n.downstream
  pub configuration : HasObject J j "applicationConfiguration" n.application_configuration

module _ (J : Json) where
  open J use {Value, Object}

  abbrev merged : Option String → Option Value → Result (Option String)
  merged none v = read_text J v
  merged (some s) v = ok (some s)

  abbrev Collected : List (String × Value) → Dict String → Dict String → Type 0
  Collected items d d' =
      NodupKeys d' × ((k : String) → merged (lookup k d) (lookup k items) ≡ ok (lookup k d'))

  merged-none : (o : Option String) → merged o none ≡ ok o
  merged-none none = refl
  merged-none (some s) = refl

  merged-emplace :
      (key : String) (value : Value) (text : String) (rest : List (String × Value))
      (d : Dict String) (k : String)
      → J.get_string value ≡ ok text
      → merged (lookup k d) (lookup k ((key, value) ∷ rest))
        ≡ merged (lookup k (emplace key text d)) (lookup k rest)
  merged-emplace key value text rest d k h = elim (Option-cases (lookup k d)) [
    | inr (s, found) ↦ rw (lookup-emplace key k text d, found) refl
    | inl absent ↦ elim (Bool-cases (str_eq key k)) [
      | inl same ↦ rw (lookup-emplace key k text d, absent, same, h) refl
      | inr other ↦ rw (lookup-emplace key k text d, absent, other) refl
    ]
  ]

  emplace_items-Ensures :
      (items : List (String × Value)) (d : Dict String)
      → NodupKeys d
      → Ensures (Collected items d) (emplace_items J items d)
  unfolding emplace_items
  emplace_items-Ensures [] d h = ok-Ensures (Collected [] d) d (h, λ k. merged-none (lookup k d))
  emplace_items-Ensures ((key, value) ∷ rest) d h =
      >>=-Ensures (Collected ((key, value) ∷ rest) d) (J.get_string value) _ (λ text e d' r.
        let (nodup, all) =
          emplace_items-Ensures rest (emplace key text d) (NodupKeys-emplace key text d h) d' r in
        (nodup, λ k. merged-emplace key value text rest d k e ∙ all k))

  string_map-Ensures : (j : Value) (key : String) → Ensures (HasMap J j key) (string_map J j key)
  unfolding string_map
  string_map-Ensures j key =
      >>=-Ensures (HasMap J j key) (J.value_json j key J.object) _ (λ entries e d r.
        let (nodup, all) = emplace_items-Ensures (J.items entries) [] tt d r in
        (nodup, (entries, e, all)))

  parse_container-Ensures : (j : Value) → Ensures (IsContainer J j) (parse_container J j)
  unfolding parse_container string_at uint32_at
  parse_container-Ensures j =
      let P : Container → Type 0 = IsContainer J j in
      >>=-Ensures P (string_at J j "image") _ (λ image e1.
        >>=-Ensures P (J.value_string j "tag" "latest") _ (λ tag e2.
          >>=-Ensures P (string_map J j "envs") _ (λ envs e3.
            >>=-Ensures P (string_map J j "mounts") _ (λ mounts e4.
              >>=-Ensures P (J.at j "resources") _ (λ cpu_resources e5.
                >>=-Ensures P (uint32_at J cpu_resources "cpu") _ (λ cpu e6.
                  >>=-Ensures P (J.at j "resources") _ (λ memory_resources e7.
                    >>=-Ensures P (uint32_at J memory_resources "memory") _ (λ memory e8.
                      ok-Ensures P _ (record {
                        image = e1;
                        tag = e2;
                        envs = string_map-Ensures j "envs" envs e3;
                        mounts = string_map-Ensures j "mounts" mounts e4;
                        cpu = (cpu_resources, e5, e6);
                        memory = (memory_resources, e7, e8);
                      })))))))))

  parse_edge-Ensures : (j : Value) → Ensures (IsEdge J j) (parse_edge J j)
  unfolding parse_edge string_at uint32_at object_or_empty
  parse_edge-Ensures j =
      let P : Edge Object → Type 0 = IsEdge J j in
      >>=-Ensures P (string_at J j "id") _ (λ id e1.
        >>=-Ensures P (string_at J j "target") _ (λ target e2.
          >>=-Ensures P (uint32_at J j "maxPartitions") _ (λ count e3.
            >>=-Ensures P (object_or_empty J j "applicationConfiguration") _ (λ configuration e4.
              ok-Ensures P _
                (record { id = e1; target = e2; max_partitions = e3; configuration = e4 })))))

  parse_edges-Ensures : (js : List Value) → Ensures (Each (IsEdge J) js) (parse_edges J js)
  unfolding parse_edges
  parse_edges-Ensures [] = ok-Ensures (Each (IsEdge J) []) [] tt
  parse_edges-Ensures (j ∷ js) =
      let P : List (Edge Object) → Type 0 = Each (IsEdge J) (j ∷ js) in
      >>=-Ensures P (parse_edge J j) _ (λ edge p. >>=-Ensures P (parse_edges J js) _ (λ edges q.
        ok-Ensures P (edge ∷ edges) (parse_edge-Ensures j edge p, parse_edges-Ensures js edges q)))

  parse_downstream-true :
      (j : Value)
      → J.contains j "downstream" ≡ true
      → parse_downstream J j ≡ (J.at j "downstream" >>= (λ edges. parse_edges J (J.elements edges)))
  unfolding parse_downstream
  parse_downstream-true j has = rw (has, parse_downstream) refl

  parse_downstream-false :
      (j : Value) → J.contains j "downstream" ≡ false → parse_downstream J j ≡ ok []
  unfolding parse_downstream
  parse_downstream-false j lacks = rw (lacks, parse_downstream) refl

  parse_downstream-Ensures : (j : Value) → Ensures (IsDownstream J j) (parse_downstream J j)
  parse_downstream-Ensures j edges r = elim (Bool-cases (J.contains j "downstream")) [
    | inl has ↦
        >>=-Ensures (IsDownstream J j) (J.at j "downstream") _
          (λ v e es q. inr (has, (v, e, parse_edges-Ensures (J.elements v) es q))) edges
          (sym (parse_downstream-true j has) ∙ r)
    | inr lacks ↦
        ok-Ensures (IsDownstream J j) [] (inl (lacks, refl)) edges
          (sym (parse_downstream-false j lacks) ∙ r)
  ]

  parse_node-Ensures : (j : Value) → Ensures (IsNode J j) (parse_node J j)
  unfolding parse_node string_at uint32_at object_or_empty
  parse_node-Ensures j =
      let P : Node Object → Type 0 = IsNode J j in
      >>=-Ensures P (string_at J j "task") _ (λ task e1.
        >>=-Ensures P (string_at J j "name") _ (λ name e2.
          >>=-Ensures P (string_at J j "description") _ (λ description e3.
            >>=-Ensures P (string_at J j "executor") _ (λ executor e4.
              >>=-Ensures P (J.at j "container") _ (λ container_json e5.
                >>=-Ensures P (parse_container J container_json) _ (λ container e6.
                  >>=-Ensures P (J.at j "scalingParameters") _ (λ scaling e7.
                    >>=-Ensures P (uint32_at J scaling "taskComplexity") _ (λ complexity e8.
                      >>=-Ensures P (parse_downstream J j) _ (λ downstream e9.
                        >>=-Ensures P (object_or_empty J j "applicationConfiguration") _
                          (λ configuration e10. ok-Ensures P _ (record {
                            task = e1;
                            name = e2;
                            description = e3;
                            executor = e4;
                            container = (
                              container_json,
                              e5,
                              parse_container-Ensures container_json container e6,
                            );
                            task_complexity = (scaling, e7, e8);
                            downstream = parse_downstream-Ensures j downstream e9;
                            configuration = e10;
                          })))))))))))

  parse_nodes-Ensures : (js : List Value) → Ensures (Each (IsNode J) js) (parse_nodes J js)
  unfolding parse_nodes
  parse_nodes-Ensures [] = ok-Ensures (Each (IsNode J) []) [] tt
  parse_nodes-Ensures (j ∷ js) =
      let P : List (Node Object) → Type 0 = Each (IsNode J) (j ∷ js) in
      >>=-Ensures P (parse_node J j) _ (λ node p. >>=-Ensures P (parse_nodes J js) _ (λ nodes q.
        ok-Ensures P (node ∷ nodes) (parse_node-Ensures j node p, parse_nodes-Ensures js nodes q)))

  -- A graph with exactly what a document gives it.
  abbrev pub IsGraph : Value → DagParser Object Value → Type 0
  IsGraph j dag =
      (dag.json ≡ some j)
      × HasString J j "applicationName" dag.application_name
      × ((v : Value) × (J.at j "nodes" ≡ ok v) × Each (IsNode J) (J.elements v) dag.nodes)

  -- Every graph that `fromJson` returns keeps the document and has its application's name and a node
  -- for each element of its nodes, in order. Every field of a node, of its container and of its
  -- edges is what the document has under the field's key, with an edge for each element of
  -- `downstream`, in order, and none without that key, and with "latest" or an empty object where a
  -- key that may be left out is missing. `envs` and `mounts` have the text of each key that stands
  -- in the document's object, no other key, and none twice.
  pub from_json-IsGraph :
      (j : Value) (dag : DagParser Object Value) → from_json J j ≡ ok dag → IsGraph j dag
  unfolding from_json string_at
  from_json-IsGraph j dag =
      >>=-Ensures (IsGraph j) (string_at J j "applicationName") _
        (λ app_name p. >>=-Ensures (IsGraph j) (J.at j "nodes") _ (λ nodes_json q.
          >>=-Ensures (IsGraph j) (parse_nodes J (J.elements nodes_json)) _ (λ nodes r.
            ok-Ensures (IsGraph j) _
              (refl, p, (nodes_json, q, parse_nodes-Ensures (J.elements nodes_json) nodes r)))))
        dag
