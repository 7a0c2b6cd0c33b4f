-- ===== src/Telegram/Derive/Tests.antt =====
-- The threading of replies at concrete messages.
use agent_builder.Common.{◌≡◌, refl, Option, some, none, [], ◌∷◌, nat_eq, arith, string_eq}
use agent_builder.Common.Int.{ℤ, pos, int_eq}
use agent_builder.Common.Text.{codes, text_eq}
use agent_builder.Telegram.Authz.IdLaws.{InInt64}
use agent_builder.Telegram.Message.{Message, new_goal}
use agent_builder.Telegram.Derive.{derive_message, reply_goal, fresh_goal_id}
use agent_builder.Telegram.Derive.Laws.{derive_all, reply_finds_goal, reply_crosses_chats}

abbrev message : ℤ → ℤ → Option ℤ → Message
message id chat reply = record {
  message_id = id;
  text = codes "build it";
  from = some (pos 9);
  chat = some chat;
  reply_to = reply;
}

new_goal_lem :
    (derive_message (message (pos 5) (pos 1) none) (codes "build it") []).0.kind ≡ new_goal
unfolding derive_message
new_goal_lem = refl

reply_finds_goal_example :
    reply_goal
      (derive_all
        ((message (pos 6) (pos 1) none, codes "test it") ∷ [])
        (derive_message (message (pos 5) (pos 1) none) (codes "build it") []).1)
      (some (pos 5))
    ≡ fresh_goal_id (message (pos 5) (pos 1) none)
unfolding InInt64
reply_finds_goal_example =
    reply_finds_goal (message (pos 5) (pos 1) none) (codes "build it") []
      ((message (pos 6) (pos 1) none, codes "test it") ∷ []) (omega arith) new_goal_lem
      ((omega arith), (λ e. ground arith), tt)

second_goal_lem :
    (derive_message
      (message (pos 5) (pos 2) none)
      (codes "test it")
      (derive_message (message (pos 5) (pos 1) none) (codes "build it") []).1).0.kind
    ≡ new_goal
unfolding derive_message
second_goal_lem = refl

reply_crosses_chats_example :
    reply_goal
      (derive_message
        (message (pos 5) (pos 2) none)
        (codes "test it")
        (derive_message (message (pos 5) (pos 1) none) (codes "build it") []).1).1
      (some (pos 5))
    ≡ fresh_goal_id (message (pos 5) (pos 2) none)
reply_crosses_chats_example =
    reply_crosses_chats (message (pos 5) (pos 1) none) (message (pos 5) (pos 2) none)
      (codes "build it") (codes "test it") [] refl second_goal_lem
