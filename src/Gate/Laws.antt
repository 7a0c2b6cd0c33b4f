-- ===== src/Gate/Laws.antt =====
-- What a verdict says of the steps.
use agent_builder.Common.{
  ◌≡◌, refl, Bool, true, false, List, [], ◌∷◌, ℕ, String, Bool-cases, inl, inr, Option, none, some,
  subst,
}
use agent_builder.Common.Text.{text_eq, is_empty, trim_space}
use agent_builder.Loop.{StepResult}
use agent_builder.Common.Search.{is_among}
use agent_builder.Gate.{
  Step, RegisteredStep, NewError, NewResult, gate, refused, add_step, new_from, new, after_step,
  verify,
}

gate_inj : {W : Type 0} {a b : List (RegisteredStep W)} → gate a ≡ gate b → a ≡ b
gate_inj h = cc

refused_not_gate :
    {W : Type 0} {e : NewError} {a : List (RegisteredStep W)} → refused e ≡ gate a → ⊥
refused_not_gate h = cc

-- The gate as it is meant: the steps run one after another, up to the first that is not OK.
pub data Ran {W : Type 0}
    : List (RegisteredStep W) → String → W → List StepResult → Bool → W → Type 0 where
  all_ran : {path : String} {w : W} → Ran [] path w [] true w
  passed :
      {s : RegisteredStep W} {steps : List (RegisteredStep W)} {path : String} {w u : W}
      {results : List StepResult} {ok : Bool}
      → (s.step.run path w).0.ok ≡ true
      → Ran steps path (s.step.run path w).1 results ok u
      → Ran (s ∷ steps) path w (record (s.step.run path w).0 { name = s.name } ∷ results) ok u
  stopped :
      {s : RegisteredStep W} {steps : List (RegisteredStep W)} {path : String} {w : W}
      → (s.step.run path w).0.ok ≡ false
      → Ran
          (s ∷ steps)
          path
          w
          (record (s.step.run path w).0 { name = s.name } ∷ [])
          false
          (s.step.run path w).1

module _ {W : Type 0} where
  step-Ran :
      (s : RegisteredStep W) (steps : List (RegisteredStep W)) (path : String) (w : W) (b : Bool)
      → (s.step.run path w).0.ok ≡ b
      → ((v : W)
          → let (verdict, u) = verify steps path v in Ran steps path v verdict.results verdict.ok u)
      → let r = record (s.step.run path w).0 { name = s.name } in
        let (verdict, u) = after_step b r (verify steps path) (s.step.run path w).1 in
        Ran (s ∷ steps) path w verdict.results verdict.ok u
  unfolding after_step
  step-Ran s steps path w true h rest = passed h (rest (s.step.run path w).1)
  step-Ran s steps path w false h rest = stopped h

  -- Verify runs the steps in their order up to the first that is not OK and no further, its results are
  -- theirs under the registered names, and its verdict is OK exactly if none failed.
  pub verify-Ran :
      (steps : List (RegisteredStep W)) (path : String) (w : W)
      → let (verdict, u) = verify steps path w in Ran steps path w verdict.results verdict.ok u
  unfolding verify
  verify-Ran [] path w = all_ran
  verify-Ran (s ∷ steps) path w =
      step-Ran s steps path w (s.step.run path w).0.ok refl (λ v. verify-Ran steps path v)

-- The names of the steps, each once and none empty, apart from those seen before.
unfoldable pub AreFresh : {W : Type 0} → List (List ℕ) → List (RegisteredStep W) → Type 0
AreFresh seen [] = Unit
AreFresh seen (s ∷ steps) =
    (is_empty s.name ≡ false) × ((is_among s.name seen ≡ false) × AreFresh (s.name ∷ seen) steps)

-- The steps, in their order, and none of them nil.
unfoldable pub AreSteps : {W : Type 0} → List (Option (Step W)) → List (RegisteredStep W) → Type 0
AreSteps [] [] = Unit
AreSteps (some step ∷ steps) (s ∷ registered) =
    (s.name ≡ trim_space step.name) × ((s.step ≡ step) × AreSteps steps registered)
AreSteps _ _ = ⊥

module _ {W : Type 0} where
  added :
      (seen : List (List ℕ)) (step : Step W) (steps : List (Option (Step W))) (rest : NewResult W)
      (registered : List (RegisteredStep W))
      → is_empty (trim_space step.name) ≡ false
      → is_among (trim_space step.name) seen ≡ false
      → ((rs : List (RegisteredStep W))
          → rest ≡ gate rs
          → AreFresh (trim_space step.name ∷ seen) rs × AreSteps steps rs)
      → add_step (record { name = trim_space step.name; step = step }) rest ≡ gate registered
      → AreFresh seen registered × AreSteps (some step ∷ steps) registered
  unfolding add_step AreFresh AreSteps
  added seen step steps (refused e) registered full fresh p h = absurd cc
  added seen step steps (gate rs) registered full fresh p h =
      let (f, a) = p rs refl in
      subst (λ x. AreFresh seen x × AreSteps (some step ∷ steps) x) (gate_inj h)
        ((full, (fresh, f)), (refl, (refl, a)))

  new_from-AreFresh :
      (seen : List (List ℕ)) (steps : List (Option (Step W))) (registered : List (RegisteredStep W))
      → new_from seen steps ≡ gate registered
      → AreFresh seen registered × AreSteps steps registered
  unfolding new_from AreFresh AreSteps
  new_from-AreFresh seen [] registered h =
      subst (λ x. AreFresh seen x × AreSteps [] x) (gate_inj h) (tt, tt)
  new_from-AreFresh seen (none ∷ steps) registered h = absurd cc
  new_from-AreFresh seen (some step ∷ steps) registered h =
      elim (Bool-cases (is_empty (trim_space step.name))) [
        | inl blank ↦ absurd (refused_not_gate (rw blank at h))
        | inr full ↦ elim (Bool-cases (is_among (trim_space step.name) seen)) [
          | inl twice ↦ absurd (refused_not_gate (rw (full, twice) at h))
          | inr fresh ↦
              added seen step steps _ registered full fresh
                (new_from-AreFresh (trim_space step.name ∷ seen) steps) (rw (full, fresh) at h)
        ]
      ]

  -- A gate that New returns has all the steps that it was given, none of them nil, in their order,
  -- under their names without the spaces around them; no name is empty and no two are the same.
  pub new-AreFresh :
      (steps : List (Option (Step W))) (registered : List (RegisteredStep W))
      → new steps ≡ gate registered
      → AreFresh [] registered × AreSteps steps registered
  unfolding new
  new-AreFresh steps registered h = new_from-AreFresh [] steps registered h
