-- ===== src/Workflow/Kahn.antt =====
-- Kahn's algorithm over dictionaries, as `detect_cycles_kahn`, `parse_dag` and `find_parallel_tasks`
-- of src/agentcy/rabbitmq_workflow/workflow_config_parser.py and `_detect_cycle` of
-- src/agentcy/agent_runtime/services/plan_validator.py have it: a graph that maps a node to the
-- nodes behind it, in-degrees, and a queue.
-- A degree is a number: the code tests `degree - 1 == 0`, which is `degree == 1` here, so that a
-- degree below zero, which stays below zero, may be read as zero.
pub mod Fuel
pub mod Follows
pub mod Ranks
use agentcy.Prelude.{
  ℕ, zero, suc, ◌+◌, ◌-◌, String, Bool, true, false, List, [], ◌∷◌, ◌++◌, map, Option, none, some,
  ◌==◌, string_eq, Dict, get, put, keep, length, nat_beq, if◌then◌else◌,
}

abbrev pub Graph : Type 0
Graph = Dict String (List String)

abbrev pub Degrees : Type 0
Degrees = Dict String ℕ

-- graph.get(node, [])
unfoldable pub neighbors : String → Graph → List String
neighbors node graph = elim (get node graph) [ some targets ↦ targets | none ↦ [] ]

-- in_degree.get(node, 0)
unfoldable pub degree : String → Degrees → ℕ
degree node degrees = elim (get node degrees) [ some d ↦ d | none ↦ 0 ]

-- graph[source].append(target)
unfoldable pub add_edge : String → String → Graph → Graph
add_edge source target graph = put source (neighbors source graph ++ (target ∷ [])) graph

-- in_degree[node] += 1
unfoldable pub bump : String → Degrees → Degrees
bump node degrees = put node (degree node degrees + 1) degrees

-- The loop over the neighbours of a node that has been taken: lowers their degrees, and puts those
-- that reach zero into the queue.
unfoldable pub relax : List String → Degrees → List String → Degrees × List String
relax [] degrees queue = (degrees, queue)
relax (n ∷ ns) degrees queue =
    let d = degree n degrees in
    relax ns (put n (d - 1) degrees) (if nat_beq d 1 then queue ++ (n ∷ []) else queue)

-- The nodes of degree zero, in the order of the dictionary.
abbrev pub sources : Degrees → List String
sources degrees = map (λ p. p.0) (keep (λ p. nat_beq p.1 0) degrees)

-- queue.popleft() and queue.pop()
unfoldable pub pop_left : List String → Option (String × List String)
pop_left [] = none
pop_left (x ∷ xs) = some (x, xs)

abbrev pub behind : String → Option (String × List String) → Option (String × List String)
behind x none = some (x, [])
behind x (some (y, ys)) = some (y, x ∷ ys)

unfoldable pub pop_right : List String → Option (String × List String)
pop_right [] = none
pop_right (x ∷ xs) = behind x (pop_right xs)

-- The `while` loop, with the nodes taken so far; `none` if the fuel runs out.
module _ (pop : List String → Option (String × List String)) (graph : Graph) where
  unfoldable pub drain : ℕ → Degrees → List String → List String → Option (List String)
  drain zero degrees queue taken = none
  drain (suc fuel) degrees queue taken = elim (pop queue) [
    | none ↦ some taken
    | some (node, rest) ↦
        let next = relax (neighbors node graph) degrees rest in
        drain fuel next.0 next.1 (taken ++ (node ∷ []))
  ]

  -- From a queue on. The dictionary has a place for each node that may still come into the queue.
  unfoldable pub topological : Degrees → List String → Option (List String)
  topological degrees queue = drain (suc (length queue + length degrees)) degrees queue []
