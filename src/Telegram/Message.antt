-- ===== src/Telegram/Message.antt =====
-- The wire types of internal/channel/telegram/adapter.go and the messages of
-- internal/supervisor/message.go. A text is the list of its code points.
use agent_builder.Common.{Option, none, some, List, [], String}
use agent_builder.Common.{ℕ}
use agent_builder.Common.Int.{ℤ}
use agent_builder.Telegram.Authz.Ids.{format_int}

-- User and Chat by their IDs; a reply by the ID of the message that it answers.
pub record Message : Type 0 where
  pub message_id : ℤ
  pub text : List ℕ
  pub from : Option ℤ
  pub chat : Option ℤ
  pub reply_to : Option ℤ

pub record Update : Type 0 where
  pub update_id : ℤ
  pub message : Option Message

abbrev format_or : Option ℤ → Option ℤ → List ℕ
format_or (some id) fallback = format_int id
format_or none (some id) = format_int id
format_or none none = []

unfoldable pub sender_id : Message → List ℕ
unfolding format_int
sender_id m = format_or m.from m.chat

unfoldable pub chat_id : Message → List ℕ
unfolding format_int
chat_id m = format_or m.chat m.from

pub data MessageKind : Type 0 where
  new_goal : MessageKind
  status : MessageKind
  info : MessageKind
  cancel : MessageKind
  confirm : MessageKind
  approve : MessageKind
  deny : MessageKind

-- supervisor.Message; `goal` is the spec of the task, whose ID is `goal_id`.
pub record Derived : Type 0 where
  pub kind : MessageKind
  pub goal_id : List ℕ
  pub goal : List ℕ
  pub info_text : List ℕ
  pub task_id : List ℕ

unfoldable pub kind_name : MessageKind → String
kind_name new_goal = "new-goal"
kind_name status = "status"
kind_name info = "info"
kind_name cancel = "cancel"
kind_name confirm = "confirm"
kind_name approve = "approve"
kind_name deny = "deny"
