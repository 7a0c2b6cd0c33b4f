-- ===== src/Tasksource/Next.antt =====
-- The task that Next returns.
use agent_builder.Common.{
  ◌≡◌, refl, true, false, none, some, List, [], ◌∷◌, Bool-cases, inl, inr, In, All,
}
use agent_builder.Orchestrator.{GoalTask}
use agent_builder.Tasksource.{Candidate, is_next, first_next}

-- A task that first_next finds is the one of a candidate that is ready and whose dependencies are
-- completed.
first_next-Found :
    (cs all : List Candidate) (task : GoalTask)
    → first_next cs all ≡ some task
    → (c : Candidate) × In c cs × (is_next c all ≡ true) × (c.task ≡ task)
unfolding first_next
first_next-Found [] all task e = absurd cc
first_next-Found (c ∷ cs) all task e = elim (Bool-cases (is_next c all)) [
  | inl found ↦ (c, inl refl, found, cc (e, found))
  | inr not_yet ↦
      let (d, inside, found, same) = first_next-Found cs all task (cc (e, not_yet)) in
      (d, inr inside, found, same)
]

-- Where it finds none, no candidate is one.
first_next-All :
    (cs all : List Candidate) → first_next cs all ≡ none → All (λ c. is_next c all ≡ false) cs
unfolding first_next
first_next-All [] all e = tt
first_next-All (c ∷ cs) all e = elim (Bool-cases (is_next c all)) [
  | inl found ↦ absurd cc (e, found)
  | inr not_yet ↦ (not_yet, first_next-All cs all (cc (e, not_yet)))
]
