-- ===== src/Contracts/Awards/Once.antt =====
-- A task is awarded once.
use agentcy.Prelude.{
  ◌≡◌, refl, ◌∙◌, ap, String, Bool, true, false, List, [], ◌∷◌, Option, none, some, map, arith,
  ◌==◌, string_eq, eq_iff, Dict, get, put, get-put, contains, if◌then◌else◌, Option-cases, inl, inr,
}
use agentcy.Contracts.Bids.{Bid}
use agentcy.Contracts.Awards.{
  Env, TaskSpec, ContractAward, Board, Awards, award_of, due, award_each,
}

abbrev pub ids_of : List TaskSpec → List String
ids_of specs = map (λ spec. spec.task_id) specs

abbrev pub has {ℓ} : {A : Type ℓ} → Option A → Bool
has none = false
has (some a) = true

-- The award of a task after a build, from the one before, whether the task is among those built,
-- and its best bid.
abbrev pub award_after :
    Env → String → Option ContractAward → Bool → Option Bid → Option ContractAward
award_after env task_id (some award) named bid = some award
award_after env task_id none true (some bid) = some (award_of env task_id bid)
award_after env task_id none _ _ = none

module _ (env : Env) (best : Dict String Bid) where
  award_after-unnamed :
      (o : Option ContractAward) (b : Option Bid) (t : String) → o ≡ award_after env t o false b
  award_after-unnamed none b t = refl
  award_after-unnamed (some award) b t = refl

  -- A task that nothing is due for may be named or not.
  named_idle :
      (t s : String) (named : Bool) (awards : Awards)
      → due s best awards ≡ none
      → award_after env t (get t awards) named (get t best)
        ≡ award_after env t (get t awards) (if s == t then true else named) (get t best)
  unfolding due
  named_idle t s named awards e =
      ground (arith, e, eq_iff s t, ap (λ k. get k awards), ap (λ k. get k best))

  named_new :
      (t s : String) (bid : Bid) (named : Bool) (awards : Awards)
      → due s best awards ≡ some bid
      → award_after env t (get t (put s (award_of env s bid) awards)) named (get t best)
        ≡ award_after env t (get t awards) (if s == t then true else named) (get t best)
  unfolding due
  named_new t s bid named awards e = rw get-put (
      ground (
        arith,
        e,
        eq_iff s t,
        ap (λ k. get k awards),
        ap (λ k. get k best),
        ap (λ k. award_of env k bid),
      ))

  -- A task keeps the award that it has; one without an award gets one for its best bid, where it is
  -- among the tasks of the build and has a bid.
  pub get-award_each :
      (t : String) (specs : List TaskSpec) (awards : Awards) (board : Board)
      → get t (award_each env best specs awards board).0
        ≡ award_after env t (get t awards) (contains t (ids_of specs)) (get t best)
  unfolding award_each contains
  get-award_each t [] awards board = award_after-unnamed (get t awards) (get t best) t
  get-award_each t (spec ∷ specs) awards board =
      elim (Option-cases (due spec.task_id best awards)) [
        | inl e ↦
            rw (e, award_each)
              (get-award_each t specs awards board
                ∙ named_idle t spec.task_id (contains t (ids_of specs)) awards e)
        | inr (bid, e) ↦
            rw (e, award_each)
              (get-award_each t specs _ _
                ∙ named_new t spec.task_id bid (contains t (ids_of specs)) awards e)
      ]
