-- ===== src/Plans/Validator.antt =====
-- `_validate_graph_spec` of src/agentcy/agent_runtime/services/plan_validator.py with its helpers. The
-- ruleset, the time of the check and the sorted ontology of the report are not modelled, and of a
-- violation its code and its values, not its message. `str.strip` is a parameter. The ids and the
-- task types are strings or missing, and the entries of a list can be looked up in a set.
pub mod Acyclic
pub mod Conforms
use agentcy.Prelude.{
  ℕ, zero, suc, ◌+◌, String, Bool, true, false, not, ◌&&◌, ◌||◌, List, [], ◌∷◌, ◌++◌, map, Option,
  none, some, ◌==◌, string_eq, Dict, get, put, keep, length, nat_beq, contains, truthy,
  if◌then◌else◌,
}
use agentcy.Workflow.Kahn.{
  Graph as Adjacency, Degrees, neighbors, degree, add_edge, bump, pop_right, sources, topological,
}
use agentcy.Plans.Graph.{
  Item, str, not_str, Value, null, text, items, other, Doc, field, is_true, to_str, Edge, GraphSpec,
  end_in,
}

pub data Fault : Type 0 where
  no_tasks cycle_detected invalid_ontology : Fault
  invalid_ontology_values : (key : String) → Fault
  missing_task_id : (index : ℕ) → Fault
  duplicate_task_id missing_assignment : (task_id : String) → Fault
  edge_missing_task : (source target : Option String) → Fault
  task_fault : (code : String) (task_id : Value) → Fault
  unknown_values : (code : String) (task_id : Value) (unknown : List Item) → Fault

abbrev is_unassigned : Value → Bool
is_unassigned null = true
is_unassigned (text s) = s == ""
is_unassigned _ = false

abbrev assignment : String → Doc → List Fault
assignment id task =
    if is_unassigned (field "assigned_agent" task) then missing_assignment id ∷ [] else []

-- The ids, each once, and the violations; `seen` has the ids found before.
unfoldable pub extract_task_ids : ℕ → List String → List Doc → List String × List Fault
extract_task_ids index seen [] = ([], [])
extract_task_ids index seen (task ∷ tasks) =
    let id = to_str (field "task_id" task) in
    let rest = extract_task_ids (suc index) seen tasks in
    let next = extract_task_ids (suc index) (id ∷ seen) tasks in
    if not (is_true (field "task_id" task))
    then (rest.0, missing_task_id index ∷ rest.1)
    else if contains id seen
    then (rest.0, duplicate_task_id id ∷ rest.1)
    else (id ∷ next.0, assignment id task ++ next.1)

-- The graph and the in-degrees of `_detect_cycle`: a place for each id, and the edges between ids.
unfoldable pub places : List String → Adjacency → Degrees → Adjacency × Degrees
places [] adjacency degrees = (adjacency, degrees)
places (id ∷ ids) adjacency degrees = places ids (put id [] adjacency) (put id 0 degrees)

abbrev add_between : Option String → Option String → Adjacency × Degrees → Adjacency × Degrees
add_between (some s) (some t) (adjacency, degrees) = (add_edge s t adjacency, bump t degrees)
add_between (some s) none g = g
add_between none target g = g

unfoldable pub add_edges : List String → List Edge → Adjacency × Degrees → Adjacency × Degrees
add_edges ids [] g = g
add_edges ids (e ∷ es) g =
    add_edges ids es
      (if end_in e.source ids && end_in e.target ids then add_between e.source e.target g else g)

unfoldable pub graph_of : List String → List Edge → Adjacency × Degrees
graph_of ids edges = add_edges ids edges (places ids [] [])

-- `none` if the fuel runs out.
unfoldable pub detect_cycle : List String → List Edge → Option Bool
detect_cycle ids edges =
    let g = graph_of ids edges in
    elim (topological pop_right g.0 g.1 (sources g.1)) [
      | none ↦ none
      | some order ↦ some (not (nat_beq (length order) (length ids)))
    ]

-- The raw `ontology` of a plan.
pub data RawOntology : Type 0 where
  absent not_dict : RawOntology
  object : (fields : Doc) → RawOntology

pub record Ontology : Type 0 where
  pub capabilities : List String
  pub tags : List String
  pub task_types : List String

pub record PlanSpec : Type 0 where
  pub graph : GraphSpec
  pub ontology : RawOntology

module _ (strip : String → String) where
  -- The stripped strings of a list that are not empty.
  unfoldable pub stripped : List Item → List String
  stripped [] = []
  stripped (not_str ∷ xs) = stripped xs
  stripped (str s ∷ xs) =
      let rest = stripped xs in
      if truthy (strip s) && not (contains (strip s) rest) then strip s ∷ rest else rest

  abbrev values_of : String → Value → List String × List Fault
  values_of key null = ([], [])
  values_of key (items shown xs) = (stripped xs, [])
  values_of key (text s) = ([], invalid_ontology_values key ∷ [])
  values_of key (other shown) = ([], invalid_ontology_values key ∷ [])

  unfoldable pub parse_ontology : RawOntology → Ontology × List Fault
  parse_ontology absent = (record { capabilities = []; tags = []; task_types = [] }, [])
  parse_ontology not_dict =
      (record { capabilities = []; tags = []; task_types = [] }, invalid_ontology ∷ [])
  parse_ontology (object d) =
      let c = values_of "capabilities" (field "capabilities" d) in
      let g = values_of "tags" (field "tags" d) in
      let t = values_of "task_types" (field "task_types" d) in
      (record { capabilities = c.0; tags = g.0; task_types = t.0 }, c.1 ++ (g.1 ++ t.1))

  abbrev is_invalid : Item → Bool
  is_invalid not_str = true
  is_invalid (str s) = not (truthy (strip s))

  abbrev is_nil {ℓ} : {A : Type ℓ} → List A → Bool
  is_nil [] = true
  is_nil (x ∷ xs) = false

  abbrev is_unknown : List String → Item → Bool
  is_unknown known not_str = true
  is_unknown known (str s) = not (contains s known)

  -- The values outside a part of the ontology, where it is not empty.
  unfoldable pub outside : String → Value → List String → List Item → List Fault
  outside code id known xs =
      if is_nil known || is_nil (keep (is_unknown known) xs)
      then []
      else unknown_values code id (keep (is_unknown known) xs) ∷ []

  unfoldable pub check_capabilities : Ontology → Value → Value → List Fault
  check_capabilities o id (items shown []) = task_fault "missing_required_capabilities" id ∷ []
  check_capabilities o id (items shown (x ∷ xs)) =
      (if is_nil (keep is_invalid (x ∷ xs)) then [] else task_fault "invalid_capability" id ∷ [])
      ++ outside "unknown_capability" id o.capabilities (x ∷ xs)
  check_capabilities o id null = task_fault "invalid_required_capabilities" id ∷ []
  check_capabilities o id (text s) = task_fault "invalid_required_capabilities" id ∷ []
  check_capabilities o id (other shown) = task_fault "invalid_required_capabilities" id ∷ []

  unfoldable pub check_tags : Ontology → Value → Value → List Fault
  check_tags o id null = []
  check_tags o id (items shown xs) = outside "unknown_tag" id o.tags xs
  check_tags o id (text s) = task_fault "invalid_tags" id ∷ []
  check_tags o id (other shown) = task_fault "invalid_tags" id ∷ []

  unfoldable pub check_task_type : Ontology → Value → Value → List Fault
  check_task_type o id v =
      if is_nil o.task_types
      then []
      else if not (is_true v)
      then task_fault "missing_task_type" id ∷ []
      else if contains (to_str v) o.task_types
      then []
      else task_fault "unknown_task_type" id ∷ []

  unfoldable pub check_tasks : Ontology → List Doc → List Fault
  check_tasks o [] = []
  check_tasks o (task ∷ tasks) =
      let id = field "task_id" task in
      check_capabilities o id (field "required_capabilities" task)
      ++ (check_tags o id (field "tags" task)
          ++ (check_task_type o id (field "task_type" task) ++ check_tasks o tasks))

-- The edges with an end that is no id.
unfoldable pub check_edges : List String → List Edge → List Fault
check_edges ids [] = []
check_edges ids (e ∷ es) =
    let rest = check_edges ids es in
    if end_in e.source ids && end_in e.target ids
    then rest
    else edge_missing_task e.source e.target ∷ rest

abbrev pub no_task : List Doc → List Fault
no_task [] = no_tasks ∷ []
no_task (t ∷ ts) = []

abbrev cycle_fault : Option Bool → List Fault
cycle_fault none = []
cycle_fault (some false) = []
cycle_fault (some true) = cycle_detected ∷ []

unfoldable pub check_cycle : List String → List Edge → List Fault
check_cycle [] edges = []
check_cycle (i ∷ ids) [] = []
check_cycle (i ∷ ids) (e ∷ es) = cycle_fault (detect_cycle (i ∷ ids) (e ∷ es))

-- The violations; the plan conforms where there are none.
unfoldable pub validate_graph_spec : (String → String) → PlanSpec → List Fault
validate_graph_spec strip spec =
    let o = parse_ontology strip spec.ontology in
    let found = extract_task_ids 0 [] spec.graph.tasks in
    o.1
    ++ (no_task spec.graph.tasks
        ++ (found.1
            ++ (check_edges found.0 spec.graph.edges
                ++ (check_cycle found.0 spec.graph.edges
                    ++ check_tasks strip o.0 spec.graph.tasks))))
