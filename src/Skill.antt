-- ===== src/Skill.antt =====
-- internal/skill: the registry of skills and the choice of one for a goal. strings.ToLower is the
-- argument `to_lower`.
use agent_builder.Common.{
  Bool, Option, none, some, List, [], ◌∷◌, ℕ, ◌&&◌, ◌||◌, not, if◌then◌else◌,
}
use agent_builder.Common.Map.{Map, lookup, insert}
use agent_builder.Common.Text.{text_eq, is_empty}
use agent_builder.Common.Search.{contains}
use agent_builder.Router.{lt_text}

pub record Manifest : Type 0 where
  pub name : List ℕ
  pub description : List ℕ
  pub recipe_name : List ℕ
  pub required_permissions : List (List ℕ)
  pub gate_checks : List (List ℕ)

abbrev pub Skills : Type 0
Skills = Map (List ℕ) Manifest

-- `none` is the error on a name that is taken.
unfoldable pub register_found : Option Manifest → List ℕ → Manifest → Skills → Option Skills
unfolding insert text_eq
register_found (some _) name m skills = none
register_found none name m skills = some (insert name m skills)

unfoldable pub register : List ℕ → Manifest → Skills → Option Skills
unfolding lookup register_found text_eq
register name m skills = register_found (lookup name skills) name m skills

unfoldable pub select : List ℕ → Skills → Option Manifest
unfolding lookup text_eq
select name skills = lookup name skills

-- sort.Strings
unfoldable pub insert_sorted : List ℕ → List (List ℕ) → List (List ℕ)
unfolding lt_text
insert_sorted s [] = s ∷ []
insert_sorted s (t ∷ ts) =
    let rest = insert_sorted s ts in if lt_text t s then t ∷ rest else s ∷ t ∷ ts

unfoldable pub names_of : Skills → List (List ℕ)
unfolding insert_sorted
names_of [] = []
names_of ((name, _) ∷ skills) = insert_sorted name (names_of skills)

unfoldable pub list : Skills → List (List ℕ)
unfolding names_of
list skills = names_of skills

unfoldable pub mentions : (List ℕ → List ℕ) → List ℕ → List ℕ → Bool
unfolding contains
mentions to_lower lower word = not (is_empty word) && contains lower (to_lower word)

unfoldable pub matches : (List ℕ → List ℕ) → List ℕ → Manifest → Bool
unfolding mentions
matches to_lower lower m = mentions to_lower lower m.name || mentions to_lower lower m.description

unfoldable pub match_or :
    Option Manifest → (List ℕ → List ℕ) → List ℕ → Option Manifest → Option Manifest
unfolding matches
match_or none to_lower lower rest = rest
match_or (some m) to_lower lower rest = if matches to_lower lower m then some m else rest

-- The loop over the names, which all stand in the registry, and what is behind it.
unfoldable pub first_match :
    (List ℕ → List ℕ) → List ℕ → List (List ℕ) → Skills → Option Manifest → Option Manifest
unfolding lookup match_or text_eq
first_match to_lower lower [] skills fallback = fallback
first_match to_lower lower (name ∷ names) skills fallback =
    match_or (lookup name skills) to_lower lower (first_match to_lower lower names skills fallback)

-- `none` is the error on a fallback that is not registered.
unfoldable pub select_for_goal : (List ℕ → List ℕ) → List ℕ → Skills → List ℕ → Option Manifest
unfolding first_match names_of lookup text_eq
select_for_goal to_lower text skills fallback =
    first_match to_lower (to_lower text) (names_of skills) skills (lookup fallback skills)
