-- ===== src/Telegram/Derive.antt =====
-- How an accepted text becomes a message: `deriveMessage` and `splitVerb` of
-- internal/channel/telegram/adapter.go.
use agent_builder.Common.{
  Bool, true, false, Option, none, some, List, [], ◌∷◌, ◌++◌, ℕ, ◌==◌, ◌||◌, ◌&&◌, not, nat_eq,
  if◌then◌else◌,
}
use agent_builder.Common.Int.{ℤ}
use agent_builder.Common.Map.{Map, lookup, insert}
use agent_builder.Common.Text.{codes, text_eq, trim_space, is_empty}
use agent_builder.Telegram.Authz.Ids.{format_int}
use agent_builder.Telegram.Authz.Decide.{to_lower}
use agent_builder.Telegram.Message.{
  Message, MessageKind, Derived, new_goal, status, info, cancel, confirm, approve, deny,
}
pub mod Laws
mod Tests

unfoldable pub is_separator : ℕ → Bool
unfolding nat_eq
is_separator c = (c == b' ') || (c == b'\t') || (c == b'\n') || (c == b'\r')

-- strings.TrimLeft(s, " \t\n\r")
unfoldable pub trim_separators : List ℕ → List ℕ
unfolding is_separator
trim_separators [] = []
trim_separators (c ∷ s) = let rest = trim_separators s in if is_separator c then rest else c ∷ s

unfoldable pub split_verb : List ℕ → List ℕ × List ℕ
unfolding is_separator trim_separators
split_verb [] = ([], [])
split_verb (c ∷ s) =
    let rest = split_verb s in
    if is_separator c then ([], trim_separators s) else (c ∷ rest.0, rest.1)

-- The goal ID that a map of the cache holds, or the empty string.
unfoldable pub text_or_empty : Option (List ℕ) → List ℕ
text_or_empty none = []
text_or_empty (some s) = s

unfoldable pub reply_goal : Map (List ℕ) (List ℕ) → Option ℤ → List ℕ
unfolding lookup text_or_empty format_int text_eq
reply_goal cache none = []
reply_goal cache (some message) = text_or_empty (lookup (format_int message) cache)

unfoldable pub chat_text : Option ℤ → List ℕ
unfolding format_int
chat_text none = []
chat_text (some id) = format_int id

-- fmt.Sprintf("tg-%s-%s", chatID, msgID)
unfoldable pub fresh_goal_id : Message → List ℕ
unfolding chat_text format_int
fresh_goal_id m = codes "tg-" ++ (chat_text m.chat ++ (b'-' ∷ format_int m.message_id))

abbrev simple : MessageKind → List ℕ → List ℕ → List ℕ → Derived
simple kind goal_id info_text task_id = record {
  kind = kind;
  goal_id = goal_id;
  goal = [];
  info_text = info_text;
  task_id = task_id;
}

unfoldable pub as_new_goal :
    Message → List ℕ → Map (List ℕ) (List ℕ) → Derived × Map (List ℕ) (List ℕ)
unfolding fresh_goal_id insert format_int text_eq
as_new_goal m text cache = (
  record { kind = new_goal; goal_id = fresh_goal_id m; goal = text; info_text = []; task_id = [] },
  insert (format_int m.message_id) (fresh_goal_id m) cache,
)

-- The switch on the verb, and the cache that it leaves.
unfoldable pub by_verb :
    List ℕ
    → List ℕ
    → List ℕ
    → Message
    → List ℕ
    → Map (List ℕ) (List ℕ)
    → Derived × Map (List ℕ) (List ℕ)
unfolding as_new_goal trim_space text_eq
by_verb verb rest reply m text cache =
    if verb == codes "status"
    then (simple status (if is_empty reply then rest else reply) [] [], cache)
    else if verb == codes "info"
    then (simple info reply rest [], cache)
    else if verb == codes "cancel"
    then (simple cancel reply [] [], cache)
    else if is_empty reply
    then as_new_goal m text cache
    else if (verb == codes "confirm") || (verb == codes "go") || (verb == codes "proceed")
    then (simple confirm reply [] [], cache)
    else if verb == codes "approve"
    then (simple approve reply [] (trim_space rest), cache)
    else if verb == codes "deny"
    then (simple deny reply [] (trim_space rest), cache)
    else as_new_goal m text cache

unfoldable pub derive_message :
    Message → List ℕ → Map (List ℕ) (List ℕ) → Derived × Map (List ℕ) (List ℕ)
unfolding split_verb reply_goal to_lower by_verb
derive_message m text cache =
    let words = split_verb text in
    by_verb (to_lower words.0) words.1 (reply_goal cache m.reply_to) m text cache
