-- ===== src/Tracker/Status.antt =====
-- `TaskStatus` and `PipelineStatus` of
-- src/agentcy/pydantic_models/pipeline_validation_models/pipeline_run_model.py, and the static
-- methods of `PipelineRunTracker` that rank them.
use agentcy.Prelude.{
  ℕ, ◌≡◌, ◌↔◌, String, Bool, true, Option, none, some, arith, Eq, ◌==◌, string_eq, leb, nat_beq,
  if◌then◌else◌,
}

pub data TaskStatus : Type 0 where
  pending running completed failed idle : TaskStatus

pub data PipelineStatus : Type 0 where
  running completed failed idle : PipelineStatus

-- `PipelineRunTracker._ORDER`; what it does not list counts as 0.
unfoldable pub order : TaskStatus → ℕ
order TaskStatus.running = 1
order TaskStatus.completed = 2
order TaskStatus.failed = 3
order _ = 0

unfoldable pub forward_only : TaskStatus → TaskStatus → Bool
forward_only prev new = leb (order prev) (order new)

code : TaskStatus → ℕ
code TaskStatus.pending = 0
code TaskStatus.running = 1
code TaskStatus.completed = 2
code TaskStatus.failed = 3
code TaskStatus.idle = 4

-- `is` on the members of the enumeration.
unfoldable pub status_beq : TaskStatus → TaskStatus → Bool
unfolding code
status_beq a b = nat_beq (code a) (code b)

pub status_beq_iff : (a b : TaskStatus) → (status_beq a b ≡ true) ↔ (a ≡ b)
unfolding status_beq
status_beq_iff a b = ground arith

instance abbrev pub status_eq : Eq TaskStatus
status_eq = record { beq = status_beq; beq_iff = status_beq_iff }

-- A status as it comes in: a member of the enumeration, or another value by its text.
pub data RawStatus : Type 0 where
  member : TaskStatus → RawStatus
  text : String → RawStatus

-- `TaskStatus(cand)`, with `none` for the `ValueError`.
unfoldable pub parse : String → Option TaskStatus
parse s =
    if s == "PENDING"
    then some TaskStatus.pending
    else if s == "RUNNING"
    then some TaskStatus.running
    else if s == "COMPLETED"
    then some TaskStatus.completed
    else if s == "FAILED"
    then some TaskStatus.failed
    else if s == "IDLE"
    then some TaskStatus.idle
    else none

abbrev or_else : Option TaskStatus → Option TaskStatus → Option TaskStatus
or_else (some s) next = some s
or_else none next = next

-- Python's `str.capitalize` and `str.upper` are arguments.
module _ (capitalize upper : String → String) where
  unfoldable pub to_enum : RawStatus → Option TaskStatus
  to_enum (member s) = some s
  to_enum (text raw) = or_else (parse raw) (or_else (parse (capitalize raw)) (parse (upper raw)))
