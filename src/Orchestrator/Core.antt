-- ===== src/Orchestrator/Core.antt =====
-- internal/orchestrator/orchestrator.go: the orchestrator's parts that come from outside (the
-- interfaces and functions that New and its options are given) and the state that it keeps. `W` is all
-- that the parts can see and change; a context is part of it.
use agent_builder.Common.{Bool, true, false, Option, none, some, List, [], ◌++◌, ℕ, if◌then◌else◌}
use agent_builder.Common.Int.{ℤ}
use agent_builder.Common.Text.{codes}
use agent_builder.Loop.{Io, ◌>>=◌, pure}
use agent_builder.Policy.{Decision, DecideRequest}
use agent_builder.Runstore.{Record}
use agent_builder.Orchestrator.{GoalTask, SubGoal, Plan}
use agent_builder.Orchestrator.Status.{
  GoalState, SubGoalProgress, StatusRegistry, set_state, set_sub_goal,
}
use agent_builder.Orchestrator.Semaphore.{Semaphore}

-- An error, by its text; `none` is nil.
abbrev pub Err : Type 0
Err = Option (List ℕ)

pub data FleetAction : Type 0 where
  goal_intake plan_decided spawn_decided completion tamper : FleetAction

pub record AuditEvent : Type 0 where
  pub action : FleetAction
  pub task_id : List ℕ
  pub run_id : List ℕ
  pub policy_decision : List ℕ
  pub reason : List ℕ
  pub tamper_detected : Bool

unfoldable pub event : FleetAction → List ℕ → List ℕ → AuditEvent
event action task_id run_id = record {
  action = action;
  task_id = task_id;
  run_id = run_id;
  policy_decision = [];
  reason = [];
  tamper_detected = false;
}

-- What Load of a run store returns.
pub data Loaded : Type 0 where
  load_failed missing : Loaded
  loaded : Record → Loaded

pub record RunStore (W : Type 0) : Type 0 where
  pub load : List ℕ → Io W Loaded
  pub save : Record → Io W Err
  pub list_in_flight : Io W (Option (List Record))

pub record TamperAware (W : Type 0) : Type 0 where
  pub try_put : Plan → Io W Err
  pub try_delete : List ℕ → Io W Err

-- A plan store, with the two methods of TamperAwarePlanStore if it has them.
pub record PlanStore (W : Type 0) : Type 0 where
  pub put : Plan → Io W Unit
  pub get : List ℕ → Io W (Option Plan)
  pub delete : List ℕ → Io W Unit
  pub tamper_aware : Option (TamperAware W)

-- What a dispatch returns, and the calls of the hook OnRequireApproval that it made: the task and the
-- reason of each.
pub record Dispatched : Type 0 where
  pub err : Err
  pub approvals : List (List ℕ × List ℕ)

-- `ctx_err` is ctx.Err(); `quote` is the verb %q.
pub record Parts (W : Type 0) : Type 0 where
  pub planner : GoalTask → Io W (Option Plan)
  pub scoper : Option (Plan → Io W Err)
  pub decide : DecideRequest → Io W Decision
  pub report : List ℕ → Io W Err
  pub store : PlanStore W
  pub audit_sink : Option (AuditEvent → Io W Err)
  pub run_store : Option (RunStore W)
  pub dispatch : SubGoal → Io W Dispatched
  pub recipe_exists : List ℕ → Bool
  pub risk : List ℕ
  pub require_approval : Bool
  pub now : W → ℤ
  pub ctx_err : W → Err
  pub marshal : Plan → Option (List ℕ)
  pub unmarshal : Option (List ℕ) → Option Plan
  pub quote : List ℕ → List ℕ
  pub to_lower : List ℕ → List ℕ
  pub parse_url : List ℕ → Option (List ℕ × List ℕ)

-- The world, and what the orchestrator itself keeps.
pub record Fleet (W C : Type 0) : Type 0 where
  pub world : W
  pub registry : Option (StatusRegistry C)
  pub worker_sem : Option Semaphore

abbrev prefixed : Err → Err
prefixed none = none
prefixed (some e) = some (codes "orchestrator: failed to audit spawn-decided deny: " ++ e)

module _ {W C : Type 0} where
  unfoldable pub outside : {A : Type 0} → Io W A → Io (Fleet W C) A
  outside m f = let (a, w) = m f.world in (a, record f { world = w })

  unfoldable pub see : {A : Type 0} → (W → A) → Io (Fleet W C) A
  see look f = (look f.world, f)

  unfoldable pub when : Bool → Io (Fleet W C) Unit → Io (Fleet W C) Unit
  when true m f = m f
  when false m f = (tt, f)

module _ {W C : Type 0} (o : Parts W) where
  unfoldable pub report : List ℕ → Io (Fleet W C) Err
  unfolding outside
  report text = outside (o.report text)

  unfoldable pub move_goal : List ℕ → GoalState → Io (Fleet W C) Unit
  unfolding set_state
  move_goal id state f = (tt, record f { registry = set_state id state (o.now f.world) f.registry })

  unfoldable pub show_sub_goal : List ℕ → SubGoalProgress → Io (Fleet W C) Unit
  unfolding set_sub_goal
  show_sub_goal id progress f =
      (tt, record f { registry = set_sub_goal id progress (o.now f.world) f.registry })

  unfoldable pub append_event : Option (AuditEvent → Io W Err) → AuditEvent → Io (Fleet W C) Unit
  unfolding outside
  append_event none ev = pure tt
  append_event (some sink) ev = do err ← outside (sink ev); pure tt

  unfoldable pub emit_fleet_event : AuditEvent → Io (Fleet W C) Unit
  unfolding append_event
  emit_fleet_event ev = append_event o.audit_sink ev

  -- With a sink, and without one.
  unfoldable pub append_deny :
      Option (AuditEvent → Io W Err) → AuditEvent → Bool → Io (Fleet W C) Err
  unfolding outside
  append_deny none ev is_deny = pure (
      if is_deny
      then some (
          codes
            "orchestrator: policy gating enabled but no audit sink configured; cannot audit deny")
      else none)
  append_deny (some sink) ev is_deny = do
    err ← outside (sink ev)
    pure (if is_deny then prefixed err else none)

  unfoldable pub emit_fleet_event_for_deny : AuditEvent → Bool → Io (Fleet W C) Err
  unfolding append_deny
  emit_fleet_event_for_deny ev is_deny = append_deny o.audit_sink ev is_deny

  unfoldable pub emit_tamper_event : List ℕ → Io (Fleet W C) Unit
  unfolding append_event event
  emit_tamper_event goal_id = append_event o.audit_sink (record (event tamper goal_id []) {
    tamper_detected = true;
    reason = codes "memory-guard delete-verify reported tamper (residue_detected or !confirmed)";
  })
