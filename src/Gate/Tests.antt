-- ===== src/Gate/Tests.antt =====
-- A gate of two steps.
use agent_builder.Common.{◌≡◌, refl, Option, some, List, [], ◌∷◌, ℕ, true, nat_eq}
use agent_builder.Common.Search.{is_among}
use agent_builder.Common.Text.{
  codes, text_eq, is_empty, trim_space, trim_left, trim_right, is_space,
}
use agent_builder.Gate.{Step, RegisteredStep, gate, new, new_from, add_step, verify}
use agent_builder.Gate.Laws.{Ran, verify-Ran}

abbrev counted : List ℕ → Step ℕ
counted name = record {
  name = name;
  run = λ path w. (record { name = []; ok = true; output = [] }, w);
}

abbrev steps : List (Option (Step ℕ))
steps = some (counted (codes " build")) ∷ some (counted (codes "test ")) ∷ []

abbrev named : List ℕ → List ℕ → RegisteredStep ℕ
named name raw = record { name = name; step = counted raw }

abbrev registered : List (RegisteredStep ℕ)
registered = named (codes "build") (codes " build") ∷ named (codes "test") (codes "test ") ∷ []

new_lem : new steps ≡ gate registered
unfolding new new_from add_step is_among text_eq is_empty trim_space trim_left trim_right is_space
new_lem = refl

verify-Ran_example :
    let (verdict, u) = verify registered "repo" 3 in
    Ran registered "repo" 3 verdict.results verdict.ok u
verify-Ran_example = verify-Ran registered "repo" 3
