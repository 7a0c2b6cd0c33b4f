-- ===== src/Common/Search.antt =====
-- What the program uses of the package strings, on lists of code points.
use agent_builder.Common.Equality.{◌==◌, nat_eq}
use agent_builder.Common.Tests.{if◌then◌else◌}
use Prim.Native.Nat.{ℕ}
use mathlib.Core.Bool.{Bool, true, false, ◌||◌}
use mathlib.Core.Option.{Option, none, some}
use mathlib.Core.List.{List, [], ◌∷◌}
use agent_builder.Common.Text.{text_eq, is_empty}

-- strings.HasPrefix(s, prefix)
unfoldable pub has_prefix : List ℕ → List ℕ → Bool
unfolding nat_eq
has_prefix s [] = true
has_prefix [] (c ∷ p) = false
has_prefix (d ∷ s) (c ∷ p) = let rest = has_prefix s p in if d == c then rest else false

-- strings.Contains(s, part)
unfoldable pub contains : List ℕ → List ℕ → Bool
unfolding has_prefix
contains [] part = is_empty part
contains (c ∷ s) part = has_prefix (c ∷ s) part || contains s part

unfoldable pub drop_prefix : List ℕ → List ℕ → List ℕ
drop_prefix s [] = s
drop_prefix [] (c ∷ p) = []
drop_prefix (d ∷ s) (c ∷ p) = drop_prefix s p

-- strings.TrimPrefix(s, prefix)
unfoldable pub trim_prefix : List ℕ → List ℕ → List ℕ
unfolding has_prefix drop_prefix
trim_prefix s prefix = if has_prefix s prefix then drop_prefix s prefix else s

-- s[:i] and s[i+1:] for the first index i of the character, `none` if there is none.
unfoldable pub cut_found : ℕ → Option (List ℕ × List ℕ) → Option (List ℕ × List ℕ)
cut_found c none = none
cut_found c (some (before, after)) = some (c ∷ before, after)

unfoldable pub cut : ℕ → List ℕ → Option (List ℕ × List ℕ)
unfolding nat_eq cut_found
cut mark [] = none
cut mark (c ∷ s) = let rest = cut_found c (cut mark s) in if c == mark then some ([], s) else rest

-- strings.Split(s, sep) for a separator of one character.
unfoldable pub onto_first : ℕ → List (List ℕ) → List (List ℕ)
onto_first c [] = (c ∷ []) ∷ []
onto_first c (p ∷ ps) = (c ∷ p) ∷ ps

unfoldable pub split_on : ℕ → List ℕ → List (List ℕ)
unfolding nat_eq onto_first
split_on sep [] = [] ∷ []
split_on sep (c ∷ s) =
    let rest = split_on sep s in if c == sep then [] ∷ rest else onto_first c rest

-- Whether the character stands in the text.
unfoldable pub has_char : ℕ → List ℕ → Bool
unfolding nat_eq
has_char mark [] = false
has_char mark (c ∷ s) = (c == mark) || has_char mark s

-- Whether a text is one of a list.
unfoldable pub is_among : List ℕ → List (List ℕ) → Bool
unfolding text_eq
is_among id [] = false
is_among id (r ∷ rs) = let rest = is_among id rs in if r == id then true else rest
