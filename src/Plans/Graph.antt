-- ===== src/Plans/Graph.antt =====
-- The graph of a plan: JSON documents for the tasks, and edges, as
-- src/agentcy/agent_runtime/services/plan_revision_utils.py reads them.
use mathlib.Core.Logic.{◌↔◌}
use agentcy.Prelude.{
  String, Bool, true, false, ◌&&◌, ◌≡◌, List, [], ◌∷◌, Option, none, some, ◌==◌, Eq, string_eq,
  Dict, get, arith, truthy, contains, eq_iff,
}

-- An entry of a list: a string, or another value.
pub data Item : Type 0 where
  str : (s : String) → Item
  not_str : Item

-- A value of a document. A list and a value of another type carry what `str` makes of them; such a
-- value counts as true, a list where it has an entry.
pub data Value : Type 0 where
  null : Value
  text : (s : String) → Value
  items : (shown : String) (xs : List Item) → Value
  other : (shown : String) → Value

abbrev pub Doc : Type 0
Doc = Dict String Value

-- doc.get(key)
unfoldable pub field : String → Doc → Value
field key doc = elim (get key doc) [ none ↦ null | some v ↦ v ]

unfoldable pub is_true : Value → Bool
is_true null = false
is_true (text s) = truthy s
is_true (items shown []) = false
is_true (items shown (x ∷ xs)) = true
is_true (other shown) = true

-- str(value)
unfoldable pub to_str : Value → String
to_str null = "None"
to_str (text s) = s
to_str (items shown xs) = shown
to_str (other shown) = shown

-- The two ends of an edge: each is a string, or `none` where the key is missing or null.
pub record Edge : Type 0 where
  pub source : Option String
  pub target : Option String

abbrev end_beq : Option String → Option String → Bool
end_beq none none = true
end_beq (some a) (some b) = a == b
end_beq _ _ = false

pub end_beq_iff : (a b : Option String) → (end_beq a b ≡ true) ↔ (a ≡ b)
end_beq_iff none none = ground arith
end_beq_iff none (some b) = ground arith
end_beq_iff (some a) none = ground arith
end_beq_iff (some a) (some b) = ground (arith, eq_iff a b)

unfoldable pub edge_beq : Edge → Edge → Bool
edge_beq a b = end_beq a.source b.source && end_beq a.target b.target

pub edge_beq_iff : (a b : Edge) → (edge_beq a b ≡ true) ↔ (a ≡ b)
unfolding edge_beq
edge_beq_iff a b = ground (arith, end_beq_iff a.source b.source, end_beq_iff a.target b.target)

instance abbrev pub edge_eq : Eq Edge
edge_eq = record { beq = edge_beq; beq_iff = edge_beq_iff }

pub record GraphSpec : Type 0 where
  pub tasks : List Doc
  pub edges : List Edge

-- The end of an edge that counts as true.
unfoldable pub present : Option String → Bool
present none = false
present (some s) = truthy s

-- An end of an edge among ids.
unfoldable pub end_in : Option String → List String → Bool
end_in none ids = false
end_in (some s) ids = contains s ids
