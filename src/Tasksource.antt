-- ===== src/Tasksource.antt =====
-- internal/tasksource/source.go. The matches of the regular expressions and the file system are
-- arguments, as are strings.ToLower and the package path.
use agent_builder.Common.{
  Bool, true, false, Option, none, some, List, [], ◌∷◌, ◌++◌, ℕ, ◌==◌, nat_eq, ◌&&◌, ◌||◌, not,
  if◌then◌else◌,
}
use agent_builder.Common.Text.{codes, text_eq, is_empty, trim_space}
use agent_builder.Common.Search.{contains, has_prefix}
use agent_builder.Router.{lt_text}
use agent_builder.Orchestrator.{GoalTask}
mod Next

pub data Status : Type 0 where
  ready active blocked needs_human completed : Status

pub record Candidate : Type 0 where
  pub task : GoalTask
  pub status : Status
  pub dependencies : List (List ℕ)

unfoldable pub contains_any : List ℕ → List (List ℕ) → Bool
unfolding contains
contains_any s [] = false
contains_any s (part ∷ parts) = contains s part || contains_any s parts

-- On a text without spaces around it, in small letters.
unfoldable pub status_of : List ℕ → Option Status
unfolding text_eq contains_any contains
status_of s =
    if (s == codes "done") || contains s (codes "completed")
    then some completed
    else if contains_any s (codes "active" ∷ codes "in progress" ∷ codes "⏳" ∷ [])
    then some active
    else if contains s (codes "needs-human")
    then some needs_human
    else if contains_any s (codes "blocked" ∷ (0x26a0 ∷ 0xfe0f ∷ []) ∷ [])
    then some blocked
    else if contains_any s (codes "backlog" ∷ codes "ready" ∷ codes "❌" ∷ [])
    then some ready
    else none

unfoldable pub normalize_status : (List ℕ → List ℕ) → List ℕ → Option Status
unfolding status_of trim_space
normalize_status to_lower raw = status_of (to_lower (trim_space raw))

unfoldable pub is_separator : ℕ → Bool
unfolding nat_eq
is_separator c = (c == b',') || (c == b' ') || (c == 9) || (c == b';')

-- strings.FieldsFunc: `field` is the field so far.
unfoldable pub fields_from : List ℕ → List ℕ → List (List ℕ)
unfolding is_separator
fields_from field [] = if is_empty field then [] else field ∷ []
fields_from field (c ∷ s) =
    let closed = fields_from [] s in
    let longer = fields_from (field ++ (c ∷ [])) s in
    if not (is_separator c) then longer else if is_empty field then closed else field ∷ closed

-- strings.Trim(s, " .")
unfoldable pub is_trimmed : ℕ → Bool
unfolding nat_eq
is_trimmed c = (c == b' ') || (c == b'.')

unfoldable pub trim_front : List ℕ → List ℕ
unfolding is_trimmed
trim_front [] = []
trim_front (c ∷ s) = let rest = trim_front s in if is_trimmed c then rest else c ∷ s

unfoldable pub trim_back : List ℕ → List ℕ
unfolding is_trimmed
trim_back [] = []
trim_back (c ∷ s) = let rest = trim_back s in if is_empty rest && is_trimmed c then [] else c ∷ rest

unfoldable pub trimmed : List (List ℕ) → List (List ℕ)
unfolding trim_front trim_back
trimmed [] = []
trimmed (part ∷ parts) =
    let rest = trimmed parts in
    let dep = trim_back (trim_front part) in if is_empty dep then rest else dep ∷ rest

-- On the match of the line of dependencies.
unfoldable pub parse_dependencies : (List ℕ → List ℕ) → Option (List ℕ) → List (List ℕ)
unfolding text_eq has_prefix fields_from trimmed trim_space
parse_dependencies to_lower none = []
parse_dependencies to_lower (some found) =
    let raw = to_lower (trim_space found) in
    if is_empty raw || (has_prefix raw (codes "none") || (raw == codes "no blocking tasks"))
    then []
    else trimmed (fields_from [] raw)

unfoldable pub has_id : List ℕ → List Candidate → Bool
unfolding text_eq
has_id id [] = false
has_id id (c ∷ cs) = (c.task.id == id) || has_id id cs

unfoldable pub are_unique : List Candidate → Bool
unfolding has_id
are_unique [] = true
are_unique (c ∷ cs) = not (has_id c.task.id cs) && are_unique cs

unfoldable pub all_known : List (List ℕ) → List Candidate → Bool
unfolding has_id
all_known [] all = true
all_known (dep ∷ deps) all = has_id dep all && all_known deps all

unfoldable pub all_depend_on_known : List Candidate → List Candidate → Bool
unfolding all_known
all_depend_on_known [] all = true
all_depend_on_known (c ∷ cs) all = all_known c.dependencies all && all_depend_on_known cs all

-- Whether there is no error.
unfoldable pub validate_candidates : List Candidate → Bool
unfolding are_unique all_depend_on_known
validate_candidates cs = are_unique cs && all_depend_on_known cs cs

unfoldable pub precedes : Candidate → Candidate → Bool
unfolding text_eq lt_text
precedes a b =
    if a.task.id == b.task.id then lt_text a.task.spec b.task.spec else lt_text a.task.id b.task.id

unfoldable pub insert_candidate : Candidate → List Candidate → List Candidate
unfolding precedes
insert_candidate c [] = c ∷ []
insert_candidate c (d ∷ ds) =
    let rest = insert_candidate c ds in if precedes d c then d ∷ rest else c ∷ d ∷ ds

unfoldable pub sort_candidates : List Candidate → List Candidate
unfolding insert_candidate
sort_candidates [] = []
sort_candidates (c ∷ cs) = insert_candidate c (sort_candidates cs)

-- Behind the reading of the files: `none` is the error.
unfoldable pub checked : List Candidate → Option (List Candidate)
unfolding sort_candidates validate_candidates
checked read =
    let sorted = sort_candidates read in if validate_candidates sorted then some sorted else none

unfoldable pub is_done : Status → Bool
is_done completed = true
is_done _ = false

unfoldable pub is_ready : Status → Bool
is_ready ready = true
is_ready _ = false

unfoldable pub is_completed : List ℕ → List Candidate → Bool
unfolding text_eq is_done
is_completed id [] = false
is_completed id (c ∷ cs) = (is_done c.status && (c.task.id == id)) || is_completed id cs

unfoldable pub dependencies_completed : List (List ℕ) → List Candidate → Bool
unfolding is_completed
dependencies_completed [] all = true
dependencies_completed (dep ∷ deps) all = is_completed dep all && dependencies_completed deps all

unfoldable pub is_next : Candidate → List Candidate → Bool
unfolding is_ready dependencies_completed
is_next c all = is_ready c.status && dependencies_completed c.dependencies all

unfoldable pub first_next : List Candidate → List Candidate → Option GoalTask
unfolding is_next
first_next [] all = none
first_next (c ∷ cs) all =
    let rest = first_next cs all in if is_next c all then some c.task else rest

unfoldable pub next_of : Option (List Candidate) → Option (Option GoalTask)
unfolding first_next
next_of none = none
next_of (some cs) = some (first_next cs cs)

-- `none` is an error, `some none` no task.
unfoldable pub next : List Candidate → Option (Option GoalTask)
unfolding checked next_of
next read = next_of (checked read)
