-- ===== src/Tracker/Witnesses.antt =====
-- The theorems on the tracker at the sample states.
use mathlib.Core.List.{cons≢nil}
use agentcy.Prelude.{
  ℕ, ◌≡◌, refl, true, false, [], ◌∷◌, nat_eq, ◌++◌, map, none, some, arith, string_eq, get, keep,
  sym, ◌∙◌,
}
use agentcy.Tracker.LruSet.{LruSet, contains, add}
use agentcy.Tracker.LruSet.Bounds.{IsValid, add-IsValid}
use agentcy.Tracker.LruSet.Expiry.{contains-eq-remembered, add-contains}
use agentcy.Tracker.Status.{TaskStatus, PipelineStatus}
use agentcy.Tracker.Run.{PipelineRun, valid, read_run}
use agentcy.Tracker.Finals.{stop_services}
use agentcy.Tracker.Sequence.Offers.{offers, offers-eq-rest}
use agentcy.Tracker.Reforward.{event_key_eq, Tracker}
use agentcy.Tracker.Handler.{Reply, on_task_done}
use agentcy.Tracker.Handler.Cases.{normalised, tested}
use agentcy.Tracker.Handler.Forward.{RunsAdvance}
use agentcy.Tracker.Handler.Redelivery.{Ready, on_task_done-Ready, on_task_done_again}
use agentcy.Tracker.Handler.RunEnd.{FinalsDone, on_task_done-completed, last_final-completes}
use agentcy.Tracker.Handler.Stops.{stops_for}
use agentcy.Tracker.Handler.Events.{process, process-RunsAdvance, process-stops_once}
use agentcy.Tracker.Handler.Reassigned.{
  StandsFailed, PlanLost, on_task_done-StandsFailed, StandsFailed-stuck,
}
use agentcy.Tracker.Handler.Replaced.{NoCandidate, process-NoCandidate}
use agentcy.Tracker.Samples.{
  env, task, key, run_with, bid, ranking, ranking_key, start, at_time, program, accepted, ready,
  events,
}

one_stop :
    stops_for key (on_task_done env (at_time 5) (start none) (task TaskStatus.completed 0)).0.stops
    ≡ record { service_name = "svc-a"; key = key } ∷ []
unfolding program
one_stop = refl

process-RunsAdvance_example :
    RunsAdvance env (start none).runs (process env (start none) events).runs
process-RunsAdvance_example = process-RunsAdvance env (start none) events

process-stops_once_example :
    stops_for key
      (process env
        (on_task_done env (at_time 5) (start none) (task TaskStatus.completed 0)).0
        events).stops
    ≡ stops_for key
        (on_task_done env (at_time 5) (start none) (task TaskStatus.completed 0)).0.stops
unfolding keep
process-stops_once_example =
    process-stops_once env (at_time 5) (start none) (task TaskStatus.completed 0) events key
      (λ e. cons≢nil (sym one_stop ∙ e))

last_final-completes_example :
    (run' : PipelineRun) × (read_run key
        (on_task_done env (at_time 5) (start none) (task TaskStatus.completed 0)).0.runs
      ≡ some (valid run' none))
    × (run'.status ≡ PipelineStatus.completed)
    × (run'.finished_at ≡ some 5)
    × (PipelineStatus.running ≡ PipelineStatus.running
        → (on_task_done env (at_time 5) (start none) (task TaskStatus.completed 0)).0.stops
          ≡ map (λ svc. record { service_name = svc; key = key }) (stop_services none run') ++ [])
unfolding program
last_final-completes_example =
    last_final-completes env (at_time 5) (start none) (task TaskStatus.completed 0)
      (run_with TaskStatus.running) none (task TaskStatus.running 0)
      (accepted TaskStatus.completed none refl)
      ((λ e. cc), ((task TaskStatus.completed 0, refl, refl), tt))

on_task_done_again_example :
    on_task_done env
      (at_time 9)
      (on_task_done env (at_time 5) (start none) (task TaskStatus.completed 0)).0
      (task TaskStatus.completed 0)
    ≡ (
      tested env
          (at_time 9)
          (on_task_done env (at_time 5) (start none) (task TaskStatus.completed 0)).0
          (normalised (task TaskStatus.completed 0) TaskStatus.completed)
          TaskStatus.completed,
      Reply.returned none,
    )
unfolding program
on_task_done_again_example =
    on_task_done_again env (at_time 5) (at_time 9) (start none) (task TaskStatus.completed 0)
      TaskStatus.completed (run_with TaskStatus.running) none (task TaskStatus.running 0) 0
      (accepted TaskStatus.completed none refl) (ready none) (omega arith) (omega arith)
      (omega arith) (omega arith)

on_task_done-StandsFailed_example :
    StandsFailed env
      (on_task_done env (at_time 5) (start (some "plan-1")) (task TaskStatus.failed 0)).0
      key
      "t1"
    × PlanLost env
        (on_task_done env (at_time 5) (start (some "plan-1")) (task TaskStatus.failed 0)).0
        key
unfolding program
on_task_done-StandsFailed_example =
    on_task_done-StandsFailed env (at_time 5) (start (some "plan-1")) (task TaskStatus.failed 0)
      (run_with TaskStatus.running) (some "plan-1") (task TaskStatus.running 0)
      (accepted TaskStatus.failed (some "plan-1") refl)

offers-eq-rest_example :
    offers 3 ranking_key ((ranking_key, ranking) ∷ []) ≡ (bid "svc-b" 700, 1) ∷ []
unfolding program
offers-eq-rest_example = offers-eq-rest 3 ranking_key ((ranking_key, ranking) ∷ []) ranking refl

abbrev done_run : PipelineRun
done_run = record (run_with TaskStatus.completed) {
  status = PipelineStatus.completed;
  finished_at = some 5;
}

on_task_done-completed_example :
    (key ≡ key)
    × FinalsDone env (task TaskStatus.completed 0) (run_with TaskStatus.running) done_run
unfolding program
on_task_done-completed_example =
    on_task_done-completed env (at_time 5) (start none) (task TaskStatus.completed 0)
      TaskStatus.completed key (run_with TaskStatus.running) done_run none none refl refl refl
      (λ e. cc) refl

StandsFailed-stuck_example :
    (on_task_done env
      (at_time 9)
      (on_task_done env (at_time 5) (start (some "plan-1")) (task TaskStatus.failed 0)).0
      (task TaskStatus.completed 1)).0.runs
    ≡ (on_task_done env (at_time 5) (start (some "plan-1")) (task TaskStatus.failed 0)).0.runs
unfolding program
StandsFailed-stuck_example =
    StandsFailed-stuck env (at_time 9)
      (on_task_done env (at_time 5) (start (some "plan-1")) (task TaskStatus.failed 0)).0
      (task TaskStatus.completed 1) TaskStatus.completed refl
      (on_task_done-StandsFailed env (at_time 5) (start (some "plan-1")) (task TaskStatus.failed 0)
        (run_with TaskStatus.running) (some "plan-1") (task TaskStatus.running 0)
        (accepted TaskStatus.failed (some "plan-1") refl)).0
      (λ e. cc)

-- The second event, FAILED, comes after one of RUNNING, which has replaced the document.
abbrev noted : Tracker
noted = (on_task_done env (at_time 5) (start (some "plan-1")) (task TaskStatus.running 0)).0

process-NoCandidate_example :
    NoCandidate key noted (on_task_done env (at_time 9) noted (task TaskStatus.failed 1))
unfolding program
process-NoCandidate_example =
    process-NoCandidate env (at_time 5) (at_time 9) (start (some "plan-1"))
      (task TaskStatus.running 0) (task TaskStatus.failed 1) TaskStatus.running
      (run_with TaskStatus.running) (run_with TaskStatus.running) (some "plan-1") none
      (task TaskStatus.running 0) (task TaskStatus.running 0) []
      (accepted TaskStatus.running (some "plan-1") refl) refl
      (record { known = refl; fresh = refl; read = refl; stored = refl; onward = omega arith })

on_task_done-Ready_example :
    Ready env (on_task_done env (at_time 5) (start none) (task TaskStatus.completed 0)).0 5
on_task_done-Ready_example =
    on_task_done-Ready env (at_time 5) (start none) (task TaskStatus.completed 0) 0 (ready none)
      (omega arith) (omega arith)

abbrev cache : LruSet ℕ
cache = record { max_items = 2; ttl = 10; entries = (7, 1) ∷ (8, 4) ∷ [] }

cache-IsValid : IsValid cache 4
unfolding get
cache-IsValid = record { distinct = (refl, (refl, tt)); chain = omega arith; bounded = omega arith }

contains-eq-remembered_example : (contains 7 12 cache).1 ≡ false
unfolding get
contains-eq-remembered_example = contains-eq-remembered 7 4 12 cache cache-IsValid (omega arith)

add-contains_example : (contains 9 12 (add 9 6 cache)).1 ≡ true
add-contains_example =
    add-contains 9 4 6 12 cache cache-IsValid (omega arith) (omega arith) (omega arith)

add-IsValid_example : IsValid (add 9 6 cache) 6
add-IsValid_example = add-IsValid 9 4 6 cache cache-IsValid (omega arith)
