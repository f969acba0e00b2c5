-- ===== src/Plans/Delta/Removed.antt =====
-- What a delta removes is gone.
use agentcy.Prelude.{
  ◌≡◌, refl, String, Bool, true, false, List, [], ◌∷◌, ◌++◌, Option, none, some, ◌==◌, string_eq,
  arith, keep, contains, All, Bool-cases, inl, inr,
}
use agentcy.Plans.Graph.{Doc, field, to_str, Edge, edge_eq, GraphSpec, end_in}
use agentcy.Plans.Delta.{
  Delta, removed_ids, removed_pairs, stays, edge_stays, added_tasks, added_edges, edge_kept,
  apply_overrides, apply_delta,
}

All-keep {ℓ} :
    {A : Type 0} (P : A → Type ℓ) (p : A → Bool) (xs : List A)
    → ((x : A) → p x ≡ true → P x)
    → All P (keep p xs)
unfolding keep
All-keep P p [] h = tt
All-keep P p (x ∷ xs) h = elim (Bool-cases (p x)) [
  | inl taken ↦ rw (taken, keep) (h x taken, All-keep P p xs h)
  | inr dropped ↦ rw (dropped, keep) (All-keep P p xs h)
]

All-keep_of_All {ℓ} :
    {A : Type 0} (P : A → Type ℓ) (p : A → Bool) (xs : List A) → All P xs → All P (keep p xs)
unfolding keep
All-keep_of_All P p [] h = tt
All-keep_of_All P p (x ∷ xs) (h, hs) = elim (Bool-cases (p x)) [
  | inl taken ↦ rw (taken, keep) (h, All-keep_of_All P p xs hs)
  | inr dropped ↦ rw (dropped, keep) (All-keep_of_All P p xs hs)
]

All-append {ℓ} :
    {A : Type 0} (P : A → Type ℓ) (xs ys : List A) → All P xs → All P ys → All P (xs ++ ys)
All-append P [] ys h g = g
All-append P (x ∷ xs) ys (h, hs) g = (h, All-append P xs ys hs g)

-- A task other than one of the given id, and an edge that touches no task of that id.
abbrev pub IsOtherTask : String → Doc → Type 0
IsOtherTask id task = (to_str (field "task_id" task) == id) ≡ false

abbrev pub IsApart : String → Edge → Type 0
IsApart id edge = (end_in edge.source (id ∷ []) ≡ false) × (end_in edge.target (id ∷ []) ≡ false)

stays-IsOtherTask :
    (id : String) (removed : List String)
    → contains id removed ≡ true
    → (task : Doc) → stays removed task ≡ true
    → IsOtherTask id task
unfolding stays
stays-IsOtherTask id removed h task s =
    ground (arith, h, s, string_eq.beq_iff (to_str (field "task_id" task)) id)

end_in-apart :
    (id : String) (removed : List String) (tip : Option String)
    → contains id removed ≡ true
    → end_in tip removed ≡ false
    → end_in tip (id ∷ []) ≡ false
unfolding end_in contains
end_in-apart id removed none h s = refl
end_in-apart id removed (some x) h s = ground (arith, h, s, string_eq.beq_iff id x)

edge_stays-IsApart :
    (id : String) (removed : List String)
    → contains id removed ≡ true
    → (edge : Edge) → edge_stays removed edge ≡ true
    → IsApart id edge
unfolding edge_stays
edge_stays-IsApart id removed h edge s =
    ground (arith, s, end_in-apart id removed edge.source h, end_in-apart id removed edge.target h)

-- A task that a delta removes and does not add again is not in the graph afterwards, and no edge
-- touches it, where no added edge does.
pub apply_delta-removed :
    (graph : GraphSpec) (delta : Delta) (id : String)
    → contains id (removed_ids delta.remove_tasks) ≡ true
    → All (IsOtherTask id) (added_tasks delta.add_tasks)
    → All (IsApart id) (added_edges delta.add_edges)
    → All (IsOtherTask id) (apply_delta graph delta).0.tasks
      × All (IsApart id) (apply_delta graph delta).0.edges
unfolding apply_delta
apply_delta-removed graph delta id h tasks edges =
    let removed = removed_ids delta.remove_tasks in
    let kept = keep (edge_stays removed) graph.edges in
    (
      All-append (IsOtherTask id)
          (keep (stays removed) (apply_overrides delta.task_overrides graph.tasks).0)
          (added_tasks delta.add_tasks)
          (All-keep (IsOtherTask id) (stays removed)
            (apply_overrides delta.task_overrides graph.tasks).0 (stays-IsOtherTask id removed h))
          tasks,
      All-keep_of_All (IsApart id) (edge_kept (removed_pairs delta.remove_edges))
          (kept ++ added_edges delta.add_edges)
          (All-append (IsApart id) kept (added_edges delta.add_edges)
            (All-keep (IsApart id) (edge_stays removed) graph.edges
              (edge_stays-IsApart id removed h))
            edges),
    )
