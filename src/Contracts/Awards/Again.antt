-- ===== src/Contracts/Awards/Again.antt =====
-- A second build awards nothing again.
use agentcy.Prelude.{
  ℕ, ◌≡◌, refl, sym, ◌∙◌, ap, String, Bool, true, false, ◌||◌, List, [], ◌∷◌, ◌++◌, Option, none,
  some, map, arith, ◌==◌, string_eq, eq_iff, Dict, get, put, get-put, contains, keep, All, truthy,
  Option-cases, Bool-cases, inl, inr,
}
use agentcy.Contracts.Bids.{Bid, Rules, best_bids}
use agentcy.Contracts.Bids.Best.{best_bids-unnamed}
use agentcy.Contracts.Awards.{
  Env, TaskSpec, ContractAward, Board, Awards, award_of, place, due, award_each, is_ours,
  list_awards, note_award, latest_awards, award_pass,
}
use agentcy.Contracts.Awards.Once.{ids_of, has, award_after, get-award_each}

unfoldable tasks_of : List ContractAward → List String
tasks_of awards = map (λ award. award.task_id) awards

has-note_award :
    (t : String) (award : ContractAward) (awards : Awards)
    → has (get t (note_award award awards)) ≡ (has (get t awards) || award.task_id == t)
unfolding note_award
has-note_award t award awards = elim (Option-cases (get award.task_id awards)) [
  | inl e ↦ rw (e, note_award) (rw get-put (ground (arith, eq_iff award.task_id t, e)))
  | inr (current, e) ↦
      rw (e, note_award)
        (ground (
          arith,
          eq_iff award.task_id t,
          e,
          get-put award.task_id t award awards,
          ap (λ k. get k awards),
        ))
]

has-latest_awards :
    (t : String) (docs : List ContractAward) (awards : Awards)
    → truthy t ≡ true
    → has (get t (latest_awards docs awards)) ≡ (has (get t awards) || contains t (tasks_of docs))
unfolding latest_awards contains tasks_of
has-latest_awards t [] awards h = ground arith
has-latest_awards t (award ∷ docs) awards h =
    has-latest_awards t docs _ h
    ∙ ground (arith, h, has-note_award t award awards, eq_iff award.task_id t, ap truthy)

tasks_of-append :
    (t : String) (xs ys : List ContractAward)
    → contains t (tasks_of (xs ++ ys)) ≡ (contains t (tasks_of xs) || contains t (tasks_of ys))
unfolding contains tasks_of
tasks_of-append t [] ys = ground arith
tasks_of-append t (x ∷ xs) ys = ground (arith, tasks_of-append t xs ys)

module _ (env : Env) where
  -- The board knows of an award of the pipeline for the task.
  unfoldable knows : Board → String → Bool
  knows board t = contains t (tasks_of (list_awards env board.awards))

  list_awards-append :
      (xs ys : List ContractAward)
      → list_awards env (xs ++ ys) ≡ list_awards env xs ++ list_awards env ys
  unfolding list_awards keep
  list_awards-append [] ys = refl
  list_awards-append (x ∷ xs) ys = ground (arith, list_awards-append xs ys)

  award_of-is_ours : (t : String) (bid : Bid) → is_ours env (award_of env t bid) ≡ true
  unfolding is_ours award_of
  award_of-is_ours t bid = elim (Option-cases env.pipeline_run_id) [
    | inl e ↦ ground (arith, e, eq_iff env.pipeline_id env.pipeline_id)
    | inr (run_id, e) ↦
        ground (arith, e, eq_iff env.pipeline_id env.pipeline_id, eq_iff run_id run_id)
  ]

  own-knows :
      (s : String) (bid : Bid) (t : String)
      → contains t (tasks_of (list_awards env (award_of env s bid ∷ []))) ≡ (s == t)
  unfolding list_awards keep tasks_of contains award_of
  own-knows s bid t = rw award_of-is_ours (ground arith)

  place-knows :
      (s : String) (bid : Bid) (board : Board) (t : String)
      → knows (place env s bid board) t ≡ (knows board t || s == t)
  unfolding knows place
  place-knows s bid board t =
      ap (λ l. contains t (tasks_of l)) (list_awards-append board.awards (award_of env s bid ∷ []))
      ∙ tasks_of-append t (list_awards env board.awards) (list_awards env (award_of env s bid ∷ []))
      ∙ ap (λ b. contains t (tasks_of (list_awards env board.awards)) || b) (own-knows s bid t)

  -- Every award of the dictionary is on the board.
  Recorded : Awards → Board → Type 0
  Recorded awards board =
      (t : String) → truthy t ≡ true → has (get t awards) ≡ true → knows board t ≡ true

  award_each-Recorded :
      (best : Dict String Bid) (specs : List TaskSpec) (awards : Awards) (board : Board)
      → Recorded awards board
      → (let after = award_each env best specs awards board in Recorded after.0 after.1)
  unfolding award_each Recorded
  award_each-Recorded best [] awards board r = r
  award_each-Recorded best (spec ∷ specs) awards board r =
      elim (Option-cases (due spec.task_id best awards)) [
        | inl e ↦ rw (e, award_each) (award_each-Recorded best specs awards board r)
        | inr (bid, e) ↦
            rw (e, award_each) (award_each-Recorded best specs _ _ (λ t. step spec.task_id bid t))
      ]
    where
      step :
          (s : String) (bid : Bid) (t : String)
          → truthy t ≡ true
          → has (get t (put s (award_of env s bid) awards)) ≡ true
          → knows (place env s bid board) t ≡ true
      step s bid t named h =
          rw place-knows (ground (arith, named, h, r t, get-put s t (award_of env s bid) awards))

  award_each-idle :
      (best : Dict String Bid) (specs : List TaskSpec) (awards : Awards) (board : Board)
      → All (λ spec. due spec.task_id best awards ≡ none) specs
      → award_each env best specs awards board ≡ (awards, board)
  unfolding award_each
  award_each-idle best [] awards board idle = refl
  award_each-idle best (spec ∷ specs) awards board (e, idle) =
      rw (e, award_each) (award_each-idle best specs awards board idle)

ids_of-All :
    (P : String → Type 0) (specs : List TaskSpec)
    → ((t : String) → contains t (ids_of specs) ≡ true → P t)
    → All (λ spec. P spec.task_id) specs
unfolding contains
ids_of-All P [] h = tt
ids_of-All P (spec ∷ specs) h = (
  h spec.task_id (ground (arith, eq_iff spec.task_id spec.task_id)),
  ids_of-All P specs (λ t m. h t (ground (arith, m))),
)

latest-knows :
    (env : Env) (board : Board) (t : String)
    → truthy t ≡ true
    → has (get t (latest_awards (list_awards env board.awards) [])) ≡ knows env board t
unfolding knows get
latest-knows env board t named = has-latest_awards t (list_awards env board.awards) [] named

has-award_after :
    (env : Env) (t : String) (o : Option ContractAward) (bid : Bid)
    → has (award_after env t o true (some bid)) ≡ true
has-award_after env t none bid = refl
has-award_after env t (some award) bid = refl

module _ (env : Env) (best : Dict String Bid) (specs : List TaskSpec) (board : Board) where
  award_pass-knows :
      (t : String) (bid : Bid)
      → truthy t ≡ true
      → get t best ≡ some bid
      → contains t (ids_of specs) ≡ true
      → knows env (award_pass env best specs board).1 t ≡ true
  unfolding award_pass Recorded
  award_pass-knows t bid named has_bid among =
      award_each-Recorded env best specs (latest_awards (list_awards env board.awards) []) board
        (λ s n h. sym (latest-knows env board s n) ∙ h) t named
        (rw get-award_each (rw (has_bid, among) (has-award_after env t _ bid)))

  due-none :
      (best' : Dict String Bid) (t : String)
      → (truthy t ≡ false → get t best' ≡ none)
      → (get t best ≡ none → get t best' ≡ none)
      → contains t (ids_of specs) ≡ true
      → due t best' (latest_awards (list_awards env (award_pass env best specs board).1.awards) [])
        ≡ none
  unfolding due
  due-none best' t unnamed fewer among = elim (Option-cases (get t best')) [
    | inl e ↦ rw (e, due) refl
    | inr (bid, e) ↦ elim (Bool-cases (truthy t)) [
      | inr empty ↦ absurd (cc (unnamed empty, e))
      | inl named ↦ elim (Option-cases (get t best)) [
        | inl no_bid ↦ absurd (cc (fewer no_bid, e))
        | inr (first, has_first) ↦ ground (
          arith,
          e,
          latest-knows env (award_pass env best specs board).1 t named,
          award_pass-knows t first named has_first among,
        )
      ]
    ]
  ]

  -- A build right after another awards nothing: whatever the time, the calls and the new bids, as
  -- long as no task has a bid that had none, no contract, reservation or load is added.
  pub award_pass_again :
      (later : ℕ) (rules : Rules) (bids : List Bid)
      → ((t : String) → get t best ≡ none → get t (best_bids rules bids) ≡ none)
      → (award_pass
          (record env { now = later })
          (best_bids rules bids)
          specs
          (award_pass env best specs board).1).1
        ≡ (award_pass env best specs board).1
  unfolding award_pass list_awards is_ours
  award_pass_again later rules bids fewer =
      ap (λ a. a.1)
        (award_each-idle (record env { now = later }) (best_bids rules bids) specs _ _
          (ids_of-All
            (λ t.
              due t (best_bids rules bids)
                (latest_awards (list_awards env (award_pass env best specs board).1.awards) [])
              ≡ none)
            specs
            (λ t among.
              due-none (best_bids rules bids) t (best_bids-unnamed rules t bids) (fewer t) among)))
