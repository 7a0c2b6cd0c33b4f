-- ===== src/Orchestrator/Containment.antt =====
-- internal/orchestrator/containment.go: which repositories a worker may not touch. strings.ToLower and
-- url.Parse are arguments: the latter reads the text behind "//" and returns the host name and the path,
-- or `none` for an error.
use agent_builder.Common.{
  Bool, true, false, Option, none, some, List, [], ◌∷◌, ◌++◌, ℕ, ◌==◌, ◌&&◌, ◌||◌, not, nat_eq,
  if◌then◌else◌, map,
}
use agent_builder.Common.Text.{codes, text_eq, trim_space, is_empty}
use agent_builder.Common.Search.{has_prefix, contains, trim_prefix, cut, has_char}
use agent_builder.Telegram.Authz.Ids.{is_digit}
use agent_builder.Orchestrator.{SubGoal}

pub record Containment : Type 0 where
  pub profile : List ℕ
  pub rootless : Bool
  pub read_only_rootfs : Bool
  pub resource_limited : Bool
  pub egress_policy : List ℕ

unfoldable pub default_containment : Containment
default_containment = record {
  profile = codes "exec-sandbox";
  rootless = true;
  read_only_rootfs = true;
  resource_limited = true;
  egress_policy = codes "default-deny";
}

abbrev pub own_repo : List ℕ
own_repo = codes "github.com/tkdtaylor/agent-builder"

unfoldable pub contains_any : List ℕ → List (List ℕ) → Bool
unfolding contains
contains_any source [] = false
contains_any source (token ∷ tokens) = contains source token || contains_any source tokens

unfoldable pub self_repo_sink_violation : List ℕ → Bool
unfolding contains contains_any
self_repo_sink_violation source =
    contains source own_repo
    && contains_any source (
        codes "Sink"
        ∷ codes "sink"
        ∷ codes "Remote"
        ∷ codes "remote"
        ∷ codes "Publish"
        ∷ codes "publish"
        ∷ codes "PublishRemote"
        ∷ [])

unfoldable pub are_digits : List ℕ → Bool
unfolding is_digit
are_digits [] = true
are_digits (c ∷ s) = is_digit c && are_digits s

unfoldable pub is_all_digits : List ℕ → Bool
unfolding are_digits
is_all_digits [] = false
is_all_digits (c ∷ s) = are_digits (c ∷ s)

unfoldable pub slashed : ℕ → ℕ
unfolding nat_eq
slashed c = if c == b'\\' then b'/' else c

-- What stands behind the first "://", or the text itself.
unfoldable pub behind_scheme : List ℕ → Option (List ℕ)
unfolding has_prefix trim_prefix
behind_scheme [] = none
behind_scheme (c ∷ s) =
    let later = behind_scheme s in
    if has_prefix (c ∷ s) (codes "://") then some (trim_prefix (c ∷ s) (codes "://")) else later

unfoldable pub or_text : Option (List ℕ) → List ℕ → List ℕ
or_text none s = s
or_text (some t) s = t

-- The text before the first slash.
unfoldable pub before_slash : Option (List ℕ × List ℕ) → List ℕ → List ℕ
before_slash none rest = rest
before_slash (some (seg, _)) rest = seg

-- The rewriting of host:path to host/path, with the text cut at its first colon. The colon counts if
-- no at sign stands behind it alone, and no slash before it, and no port behind it.
unfoldable pub scp_form : Option (List ℕ × List ℕ) → List ℕ → List ℕ
unfolding has_char is_all_digits before_slash cut
scp_form none s = s
scp_form (some (before, rest)) s =
    if (has_char b'@' before || not (has_char b'@' rest)) && not (has_char b'/' before)
    then if is_all_digits (before_slash (cut b'/' rest) rest) then s else before ++ (b'/' ∷ rest)
    else s

-- strings.Trim(s, "/")
unfoldable pub trim_slashes_left : List ℕ → List ℕ
unfolding nat_eq
trim_slashes_left [] = []
trim_slashes_left (c ∷ s) = let rest = trim_slashes_left s in if c == b'/' then rest else c ∷ s

abbrev keep_unless_slash : ℕ → List ℕ → List ℕ
keep_unless_slash c [] = if c == b'/' then [] else c ∷ []
keep_unless_slash c (d ∷ s) = c ∷ d ∷ s

unfoldable pub trim_slashes_right : List ℕ → List ℕ
unfolding nat_eq
trim_slashes_right [] = []
trim_slashes_right (c ∷ s) = keep_unless_slash c (trim_slashes_right s)

unfoldable pub trim_slashes : List ℕ → List ℕ
unfolding trim_slashes_left trim_slashes_right
trim_slashes s = trim_slashes_right (trim_slashes_left s)

-- strings.TrimSuffix(s, suffix)
unfoldable pub trim_suffix : List ℕ → List ℕ → List ℕ
unfolding text_eq
trim_suffix suffix [] = []
trim_suffix suffix (c ∷ s) =
    let rest = trim_suffix suffix s in if (c ∷ s) == suffix then [] else c ∷ rest

unfoldable pub of_url : Option (List ℕ × List ℕ) → List ℕ
unfolding trim_suffix trim_slashes
of_url none = []
of_url (some (hostname, raw_path)) =
    let host = trim_suffix (codes ".") hostname in
    let path = trim_slashes (trim_suffix (codes ".git") (trim_slashes raw_path)) in
    if is_empty host then [] else if is_empty path then host else host ++ (b'/' ∷ path)

module _ (to_lower : List ℕ → List ℕ) (parse : List ℕ → Option (List ℕ × List ℕ)) where
  unfoldable pub canonicalize_repo : List ℕ → List ℕ
  unfolding trim_space or_text behind_scheme trim_prefix scp_form cut of_url slashed
  canonicalize_repo raw =
      let s = to_lower (trim_space raw) in
      let slashes = map slashed s in
      let scheme = trim_prefix (or_text (behind_scheme slashes) slashes) (codes "//") in
      if is_empty s then [] else of_url (parse (scp_form (cut b':' scheme) scheme))

  -- A target that is given and has no canonical form, or the program's own.
  unfoldable pub is_own : List ℕ → Bool
  unfolding canonicalize_repo text_eq
  is_own target =
      let canonical = canonicalize_repo target in
      not (is_empty target) && (is_empty canonical || (canonical == canonicalize_repo own_repo))

  unfoldable pub targets_own_repo : SubGoal → Bool
  unfolding is_own
  targets_own_repo sub = is_own sub.task.repo || (is_own sub.target_repo || is_own sub.sink)
