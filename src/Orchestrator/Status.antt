-- ===== src/Orchestrator/Status.antt =====
-- internal/orchestrator/registry.go: the live status of every goal. A registry that is nil is `none`;
-- a clock reading is an argument. `C` is the type of the cancel functions: which one a call fires is
-- part of its result.
use agent_builder.Common.{
  Bool, true, false, Option, none, some, List, [], ◌∷◌, ◌++◌, ℕ, zero, suc, ◌==◌, not, ◌&&◌,
  if◌then◌else◌,
}
use agent_builder.Common.Int.{ℤ}
use agent_builder.Common.Map.{Map, lookup, insert, delete}
use agent_builder.Common.Text.{codes, text_eq}
pub mod Laws
pub mod Info
pub mod Cancels
mod Tests

pub data GoalState : Type 0 where
  queued clarifying planning awaiting_approval dispatching done failed cancelled : GoalState
  conversing : GoalState

unfoldable pub state_name : GoalState → List ℕ
state_name queued = codes "queued"
state_name clarifying = codes "clarifying"
state_name planning = codes "planning"
state_name awaiting_approval = codes "awaiting-approval"
state_name dispatching = codes "dispatching"
state_name done = codes "done"
state_name failed = codes "failed"
state_name cancelled = codes "cancelled"
state_name conversing = codes "conversing"

unfoldable pub is_terminal : GoalState → Bool
is_terminal done = true
is_terminal failed = true
is_terminal cancelled = true
is_terminal _ = false

unfoldable pub is_queued : GoalState → Bool
is_queued queued = true
is_queued _ = false

pub record SubGoalProgress : Type 0 where
  pub name : List ℕ
  pub recipe : List ℕ
  pub state : List ℕ

pub record GoalStatus : Type 0 where
  pub goal_id : List ℕ
  pub state : GoalState
  pub sub_goals : List SubGoalProgress
  pub updated_at : ℤ
  pub pending_info : List (List ℕ)

pub record StatusRegistry (C : Type 0) : Type 0 where
  pub goals : Map (List ℕ) GoalStatus
  pub cancels : Map (List ℕ) C

-- A new entry starts queued, the zero GoalState.
unfoldable pub new_status : List ℕ → GoalState → ℤ → GoalStatus
new_status id state now = record {
  goal_id = id;
  state = state;
  sub_goals = [];
  updated_at = now;
  pending_info = [];
}

unfoldable pub status_or_new : List ℕ → ℤ → Option GoalStatus → GoalStatus
unfolding new_status
status_or_new id now none = new_status id queued now
status_or_new id now (some g) = record g { updated_at = now }

-- The loop of SetSubGoal and the append behind it.
unfoldable pub put_progress : SubGoalProgress → List SubGoalProgress → List SubGoalProgress
unfolding text_eq
put_progress p [] = p ∷ []
put_progress p (q ∷ qs) = if q.name == p.name then p ∷ qs else q ∷ put_progress p qs

unfoldable pub statuses : Map (List ℕ) GoalStatus → List GoalStatus
statuses [] = []
statuses ((_, g) ∷ goals) = g ∷ statuses goals

unfoldable pub count_live : List GoalStatus → ℕ
unfolding is_queued is_terminal
count_live [] = zero
count_live (g ∷ gs) =
    let rest = count_live gs in
    if not (is_queued g.state) && not (is_terminal g.state) then suc rest else rest

unfoldable pub info_of : Option GoalStatus → List (List ℕ)
info_of none = []
info_of (some g) = g.pending_info

-- What the mutators assign.
unfoldable pub with_state : GoalState → GoalStatus → GoalStatus
with_state state g = record g { state = state }

unfoldable pub with_progress : SubGoalProgress → GoalStatus → GoalStatus
unfolding put_progress
with_progress p g = record g { sub_goals = put_progress p g.sub_goals }

unfoldable pub with_info : List ℕ → GoalStatus → GoalStatus
with_info text g = record g { pending_info = g.pending_info ++ (text ∷ []) }

unfoldable pub without_info : GoalStatus → GoalStatus
without_info g = record g { pending_info = [] }

module _ {C : Type 0} where
  unfoldable pub new_status_registry : Option (StatusRegistry C)
  new_status_registry = some (record { goals = []; cancels = [] })

  -- Stores what `f` makes of the entry, which is created if there is none.
  unfoldable pub change_goal :
      List ℕ → ℤ → (GoalStatus → GoalStatus) → Option (StatusRegistry C) → Option (StatusRegistry C)
  unfolding lookup insert status_or_new text_eq
  change_goal id now f none = none
  change_goal id now f (some r) =
      some (record r { goals = insert id (f (status_or_new id now (lookup id r.goals))) r.goals })

  unfoldable pub register :
      List ℕ → GoalState → ℤ → Option (StatusRegistry C) → Option (StatusRegistry C)
  unfolding insert new_status text_eq
  register id state now none = none
  register id state now (some r) =
      some (record r { goals = insert id (new_status id state now) r.goals })

  unfoldable pub set_state :
      List ℕ → GoalState → ℤ → Option (StatusRegistry C) → Option (StatusRegistry C)
  unfolding change_goal with_state
  set_state id state now = change_goal id now (with_state state)

  unfoldable pub set_cancel_func :
      List ℕ → Option C → Option (StatusRegistry C) → Option (StatusRegistry C)
  unfolding insert text_eq
  set_cancel_func id handle none = none
  set_cancel_func id none (some r) = some r
  set_cancel_func id (some c) (some r) = some (record r { cancels = insert id c r.cancels })

  -- The cancel function that Cancel calls, `none` where it returns false.
  unfoldable pub cancel : List ℕ → Option (StatusRegistry C) → Option C × Option (StatusRegistry C)
  unfolding lookup delete text_eq
  cancel id none = (none, none)
  cancel id (some r) = (lookup id r.cancels, some (record r { cancels = delete id r.cancels }))

  unfoldable pub set_sub_goal :
      List ℕ → SubGoalProgress → ℤ → Option (StatusRegistry C) → Option (StatusRegistry C)
  unfolding change_goal with_progress
  set_sub_goal id p now = change_goal id now (with_progress p)

  unfoldable pub get : List ℕ → Option (StatusRegistry C) → Option GoalStatus
  unfolding lookup text_eq
  get id none = none
  get id (some r) = lookup id r.goals

  unfoldable pub snapshot : Option (StatusRegistry C) → List GoalStatus
  unfolding statuses
  snapshot none = []
  snapshot (some r) = statuses r.goals

  unfoldable pub live_non_queued_count : Option (StatusRegistry C) → ℕ
  unfolding count_live snapshot
  live_non_queued_count r = count_live (snapshot r)

  unfoldable pub enqueue_info :
      List ℕ → List ℕ → ℤ → Option (StatusRegistry C) → Option (StatusRegistry C)
  unfolding change_goal with_info
  enqueue_info id text now = change_goal id now (with_info text)

  unfoldable pub pending_info : List ℕ → Option (StatusRegistry C) → List (List ℕ)
  unfolding get info_of
  pending_info id r = info_of (get id r)

  -- A queue that is empty is left untouched, its time included.
  unfoldable pub drain_found :
      List (List ℕ)
      → List ℕ
      → ℤ
      → Option (StatusRegistry C)
      → List (List ℕ) × Option (StatusRegistry C)
  unfolding change_goal without_info
  drain_found [] id now r = ([], r)
  drain_found (text ∷ texts) id now r = (text ∷ texts, change_goal id now without_info r)

  unfoldable pub drain_info :
      List ℕ → ℤ → Option (StatusRegistry C) → List (List ℕ) × Option (StatusRegistry C)
  unfolding pending_info drain_found
  drain_info id now r = drain_found (pending_info id r) id now r
