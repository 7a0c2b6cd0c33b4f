-- ===== src/Runstore.antt =====
-- internal/runstore/record.go and store.go: what is journalled of a goal, and the interface of the
-- stores. A plan is kept as the text that json.Marshal made of it; `none` is a plan that was not saved.
use agent_builder.Common.{Bool, true, false, Option, none, List, [], ℕ}
use agent_builder.Common.Int.{ℤ, pos}
pub mod FileStore

pub data Status : Type 0 where
  unset pending running awaiting_approval completed failed needs_human : Status

unfoldable pub is_terminal : Status → Bool
is_terminal completed = true
is_terminal failed = true
is_terminal _ = false

pub record AttemptState : Type 0 where
  pub task_id : List ℕ
  pub attempt : ℤ
  pub status : Status
  pub detail : List ℕ
  pub updated_at : ℤ

pub record PendingApproval : Type 0 where
  pub task_id : List ℕ
  pub reason : List ℕ
  pub requested_at : ℤ
  pub escalated : Bool

-- `created_at` is `none` while it is the zero time.
pub record Record : Type 0 where
  pub goal_id : List ℕ
  pub goal : List ℕ
  pub plan : Option (List ℕ)
  pub attempts : List AttemptState
  pub pending_approvals : List PendingApproval
  pub status : Status
  pub created_at : Option ℤ
  pub updated_at : ℤ
  pub deleted : Bool
  pub attempt : ℤ

-- The zero time, as an instant.
abbrev pub zero_time : ℤ
zero_time = pos 0

-- A record with a goal and a status, and nothing else.
unfoldable pub bare_record : List ℕ → Status → Record
bare_record goal_id status = record {
  goal_id = goal_id;
  goal = [];
  plan = none;
  attempts = [];
  pending_approvals = [];
  status = status;
  created_at = none;
  updated_at = zero_time;
  deleted = false;
  attempt = pos 0;
}
