-- ===== src/Gate.antt =====
-- internal/gate/gate.go: the steps that judge a worktree. The steps and what they do are arguments; the
-- duration of a step is left out.
use agent_builder.Common.{
  Bool, true, false, Option, none, some, List, [], ◌∷◌, ◌++◌, ℕ, String, if◌then◌else◌,
}
use agent_builder.Common.Text.{text_eq, trim_space, is_empty}
use agent_builder.Loop.{Io, StepResult, Verdict}
use agent_builder.Common.Search.{is_among}
pub mod Laws
mod Tests

pub record Step (W : Type 0) : Type 0 where
  pub name : List ℕ
  pub run : String → Io W StepResult

pub record RegisteredStep (W : Type 0) : Type 0 where
  pub name : List ℕ
  pub step : Step W

pub data NewError : Type 0 where
  nil_step blank_step_name : NewError
  duplicate_step_name : List ℕ → NewError

pub data NewResult (W : Type 0) : Type 0 where
  gate : List (RegisteredStep W) → NewResult W
  refused : NewError → NewResult W

abbrev with_result : StepResult → Verdict → Verdict
with_result r v = record { ok = v.ok; results = r ∷ v.results }

unfoldable pub always_blocks : Bool
always_blocks = true

module _ {W : Type 0} where
  unfoldable pub add_step : RegisteredStep W → NewResult W → NewResult W
  add_step step (gate steps) = gate (step ∷ steps)
  add_step step (refused e) = refused e

  -- The loop of New, with the names seen so far. A nil step is `none`.
  unfoldable pub new_from : List (List ℕ) → List (Option (Step W)) → NewResult W
  unfolding trim_space is_among add_step
  new_from seen [] = gate []
  new_from seen (none ∷ steps) = refused nil_step
  new_from seen (some step ∷ steps) =
      let name = trim_space step.name in
      let rest = new_from (name ∷ seen) steps in
      if is_empty name
      then refused blank_step_name
      else if is_among name seen
      then refused (duplicate_step_name name)
      else add_step (record { name = name; step = step }) rest

  unfoldable pub new : List (Option (Step W)) → NewResult W
  unfolding new_from
  new steps = new_from [] steps

  -- Behind one step, by its OK: the loop ends at the first that is not.
  unfoldable pub after_step : Bool → StepResult → (W → Verdict × W) → Io W Verdict
  after_step true r rest w = (with_result r (rest w).0, (rest w).1)
  after_step false r rest w = (record { ok = false; results = r ∷ [] }, w)

  unfoldable pub verify : List (RegisteredStep W) → String → Io W Verdict
  unfolding after_step
  verify [] path w = (record { ok = true; results = [] }, w)
  verify (s ∷ steps) path w =
      let (r, v) = s.step.run path w in
      after_step r.ok (record r { name = s.name }) (verify steps path) v
