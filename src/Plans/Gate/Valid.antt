-- ===== src/Plans/Gate/Valid.antt =====
-- What a plan that passes the gate has.
use agentcy.Prelude.{
  ◌≡◌, ◌∙◌, ap, subst, refl, String, true, false, List, [], ◌∷◌, some, arith, string_eq, Dict, get,
  put, get-put, Option-cases, inl, inr, ◌≢◌,
}
use agentcy.Plans.Validator.{validate_graph_spec}
use agentcy.Plans.Gate.{
  Draft, Reviewers, saved, is_nil, shacl_conforms, llm_gate, judged, validate_plan_draft,
}

is_nil-eq : {A : Type 0} (xs : List A) → is_nil xs ≡ true → xs ≡ []
is_nil-eq [] h = refl
is_nil-eq (x ∷ xs) h = absurd (ground (arith, h))

judged-is_valid :
    (r : Reviewers) (draft : Draft)
    → (judged r draft).is_valid ≡ true
    → (validate_graph_spec r.strip draft.spec ≡ [])
      × (r.shacl_enabled ≡ true → r.shacl draft.spec ≢ some false)
      × (r.llm_required ≡ true → r.review draft.spec [] ≡ some true)
unfolding judged shacl_conforms llm_gate
judged-is_valid r draft h =
    let nil = is_nil-eq (validate_graph_spec r.strip draft.spec) (ground (arith, h)) in
    let gate : llm_gate r draft.spec [] ≡ true =
      subst (λ f. llm_gate r draft.spec f ≡ true) nil (ground (arith, h)) in
    (nil, (λ on rejected. ground (arith, h, on, rejected)), (λ asked. ground (arith, gate, asked)))

-- A draft in the store that passes the three checks.
abbrev pub IsApproved : Reviewers → Dict String Draft → Draft → Type 0
IsApproved r store draft =
    (get draft.plan_id store ≡ some draft)
    × (validate_graph_spec r.strip draft.spec ≡ [])
    × (r.shacl_enabled ≡ true → r.shacl draft.spec ≢ some false)
    × (r.llm_required ≡ true → r.review draft.spec [] ≡ some true)

get-saved :
    (id : String) (draft : Draft) (store : Dict String Draft)
    → get id (put id draft store) ≡ some draft
get-saved id draft store = ground (arith, get-put id id draft store, string_eq.beq_iff id id)

-- A draft that is saved as valid was stored under its plan; its graph has no violation, the SHACL
-- engine, where it is enabled, does not reject it, and the language model, where one is configured,
-- has approved it: a review that is not to be had does not.
pub validate_plan_draft-valid :
    (r : Reviewers) (store after : Dict String Draft) (plan_id : String) (draft : Draft)
    → validate_plan_draft r (some store) plan_id ≡ (some after, saved draft)
    → draft.is_valid ≡ true
    → IsApproved r after draft
unfolding validate_plan_draft judged
validate_plan_draft-valid r store after plan_id draft = elim (Option-cases (get plan_id store)) [
  | inl missing ↦ rw (missing, validate_plan_draft) (λ h. absurd (ground (arith, h)))
  | inr (old, e) ↦
      rw (e, validate_plan_draft)
        (λ h v.
          let is : judged r old ≡ draft = ground (arith, h) in
          let stored : put old.plan_id (judged r old) store ≡ after = ground (arith, h) in
          let here : get old.plan_id after ≡ some (judged r old) =
            subst (λ d. get old.plan_id d ≡ some (judged r old)) stored
              (get-saved old.plan_id (judged r old) store) in
          let (clean, shape, asked) = judged-is_valid r old (ap (λ d. d.is_valid) is ∙ v) in
          subst (IsApproved r after) is (here, clean, shape, asked))
]
