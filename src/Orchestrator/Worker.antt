-- ===== src/Orchestrator/Worker.antt =====
-- internal/orchestrator/orchestrator.go: `dispatchOne`, `dispatchWithSemaphore` and
-- `decideSpawnWorker`, the life of one worker, and blocked_action.go's `classifyBlockedSpawn`. The
-- workers of a plan are goroutines: each is taken on by steps, so that any order in which they run is a
-- list of steps. Between two steps of a worker anything may happen to the shared state.
use agent_builder.Common.{
  Bool, true, false, Option, none, some, List, [], ◌∷◌, ◌++◌, ℕ, ◌&&◌, not, if◌then◌else◌,
}
use agent_builder.Common.Text.{codes, is_empty}
use agent_builder.Loop.{Io, ◌>>=◌, pure}
use agent_builder.Policy.{Decision, allow, deny, require_approval, decision_text, DecideRequest}
use agent_builder.Runstore.{running, awaiting_approval, completed, failed}
use agent_builder.Orchestrator.{SubGoal, Plan}
use agent_builder.Orchestrator.Plans.{authorizes_resource}
use agent_builder.Orchestrator.Containment.{own_repo, targets_own_repo}
use agent_builder.Orchestrator.Semaphore.{
  Semaphore, Acquired, acquired, context_done, parked, acquire, release,
}
use agent_builder.Orchestrator.Core.{
  Fleet, Parts, Err, spawn_decided, event, outside, report, show_sub_goal,
  emit_fleet_event_for_deny,
}
use agent_builder.Orchestrator.Journal.{
  record_attempt, record_pending_approval, plan_awaiting_approval,
}

-- loop.BlockedAction, as the orchestrator fills it.
pub record BlockedSpawn : Type 0 where
  pub resource : List ℕ
  pub action : List ℕ
  pub reason : List ℕ

-- The outcome of the reevaluation of a blocked action is left out: it is set only after the join.
pub record SubGoalOutcome : Type 0 where
  pub sub_goal : List ℕ
  pub recipe : List ℕ
  pub success : Bool
  pub detail : List ℕ
  pub blocked : Option BlockedSpawn

abbrev pub spawn_worker_action : List ℕ
spawn_worker_action = codes "spawn-worker"

unfoldable pub classify_blocked_spawn : SubGoal → List ℕ → BlockedSpawn
classify_blocked_spawn sub reason = record {
  resource = sub.recipe_name;
  action = spawn_worker_action;
  reason = reason;
}

unfoldable pub is_zero : BlockedSpawn → Bool
is_zero b = is_empty b.resource && (is_empty b.action && is_empty b.reason)

unfoldable pub failure : SubGoal → List ℕ → SubGoalOutcome
failure sub detail = record {
  sub_goal = sub.task.spec;
  recipe = sub.recipe_name;
  success = false;
  detail = detail;
  blocked = none;
}

unfoldable pub success : SubGoal → SubGoalOutcome
success sub = record {
  sub_goal = sub.task.spec;
  recipe = sub.recipe_name;
  success = true;
  detail = codes "dispatched";
  blocked = none;
}

unfoldable pub denial : SubGoal → List ℕ → SubGoalOutcome
unfolding failure classify_blocked_spawn is_zero
denial sub reason =
    let blocked = classify_blocked_spawn sub reason in
    record (failure sub reason) { blocked = if is_zero blocked then none else some blocked }

-- The detail of a denial whose report failed.
unfoldable pub with_report : Err → List ℕ → SubGoalOutcome → SubGoalOutcome
with_report none reason outcome = outcome
with_report (some e) reason outcome = record outcome {
  detail = reason ++ (codes " (report failed: " ++ (e ++ codes ")"));
}

-- Where a worker stands.
pub data Phase : Type 0 where
  waiting admitted running_now : Phase
  finished : SubGoalOutcome → Phase
  unaudited : SubGoalOutcome → List ℕ → Phase

unfoldable pub is_allow : Decision → Bool
is_allow allow = true
is_allow _ = false

unfoldable pub worker_reason : Decision → List ℕ
worker_reason allow = []
worker_reason require_approval = codes "policy: worker spawn requires human approval"
worker_reason deny = codes "policy: worker spawn denied"

unfoldable pub is_some : Err → Bool
is_some none = false
is_some (some _) = true

-- A permit that is held is given back; the receive does not block then.
unfoldable pub release_held : Option Semaphore → Option Semaphore
unfolding release
release_held none = none
release_held (some s) = elim (release s) [ none ↦ some s | some t ↦ some t ]

module _ {W : Type 0} (o : Parts W) where
  -- The error of a permit that was not acquired.
  unfoldable pub permit_error : SubGoal → Err → List ℕ
  permit_error sub none = []
  permit_error sub (some e) =
      codes "orchestrator: acquire worker permit for " ++ (o.quote sub.task.id ++ (codes ": " ++ e))

  -- Without a run store there is no hook.
  unfoldable pub hooked : List (List ℕ × List ℕ) → List (List ℕ × List ℕ)
  hooked approvals = elim o.run_store [ none ↦ [] | some rs ↦ approvals ]

  unfoldable pub worker_request : SubGoal → DecideRequest
  worker_request sub = record {
    action = spawn_worker_action;
    resource_type = codes "recipe";
    resource_id = sub.recipe_name;
    target_repo = sub.target_repo;
    sink = sub.sink;
    risk = o.risk;
  }

  unfoldable pub not_allowed_text : List ℕ → List ℕ → List ℕ
  not_allowed_text kind id =
      codes "plan-derived authorization: "
      ++ (kind ++ (o.quote id ++ codes " is not in the plan's allowed set"))

module _ {W C : Type 0} (o : Parts W) where
  unfoldable pub decide_spawn_worker : Plan → SubGoal → Io (Fleet W C) (Decision × List ℕ)
  unfolding targets_own_repo authorizes_resource outside worker_request not_allowed_text
      worker_reason
  decide_spawn_worker plan sub =
      if targets_own_repo o.to_lower o.parse_url sub
      then pure (
        deny,
        codes "self-repo bright line: refusing to dispatch a worker targeting " ++ own_repo,
      )
      else if not (authorizes_resource plan sub.recipe_name)
      then pure (deny, not_allowed_text o (codes "recipe ") sub.recipe_name)
      else if not (authorizes_resource plan sub.task.id)
      then pure (deny, not_allowed_text o (codes "task ") sub.task.id)
      else do d ← outside (o.decide (worker_request o sub)); pure (d, worker_reason d)

  unfoldable pub report_denied : SubGoal → List ℕ → Io (Fleet W C) Phase
  unfolding report with_report denial
  report_denied sub reason = do
    err ←
        report o
          (codes "Worker spawn denied: recipe " ++ (sub.recipe_name ++ (codes " — " ++ reason)))
    pure (finished (with_report err reason (denial sub reason)))

  unfoldable pub admit : Plan → SubGoal → Io (Fleet W C) Phase
  unfolding show_sub_goal record_attempt
  admit plan sub = do
    shown ←
        show_sub_goal o plan.goal_id
          (record { name = sub.task.id; recipe = sub.recipe_name; state = codes "running" })
    recorded ← record_attempt o plan.goal_id sub.task.id running []
    pure admitted

  -- Behind the audit event of the decision.
  unfoldable pub after_audit : Plan → SubGoal → Decision → List ℕ → Err → Io (Fleet W C) Phase
  unfolding failure admit report_denied is_allow
  after_audit plan sub d reason (some e) = pure (unaudited (failure sub []) e)
  after_audit plan sub d reason none =
      if is_allow d then admit plan sub else report_denied sub reason

  unfoldable pub audit_decision : Plan → SubGoal → Decision × List ℕ → Io (Fleet W C) Phase
  unfolding emit_fleet_event_for_deny event decision_text is_allow after_audit
  audit_decision plan sub (d, reason) = do
    err ←
        emit_fleet_event_for_deny o
          (record (event spawn_decided sub.task.id plan.goal_id) {
            policy_decision = decision_text d;
            reason = if is_allow d then sub.recipe_name else reason;
          })
          (not (is_allow d))
    after_audit plan sub d reason err

  -- dispatchOne up to the acquisition of a permit.
  unfoldable pub gate : Plan → SubGoal → Io (Fleet W C) Phase
  unfolding failure decide_spawn_worker audit_decision
  gate plan sub =
      if not (o.recipe_exists sub.recipe_name)
      then pure (finished (failure sub (codes "recipe not found: " ++ sub.recipe_name)))
      else do decision ← decide_spawn_worker plan sub; audit_decision plan sub decision

  unfoldable pub finish_failed : Plan → SubGoal → List ℕ → Io (Fleet W C) Phase
  unfolding show_sub_goal record_attempt failure
  finish_failed plan sub e = do
    shown ←
        show_sub_goal o plan.goal_id
          (record { name = sub.task.id; recipe = sub.recipe_name; state = codes "failed" })
    recorded ← record_attempt o plan.goal_id sub.task.id failed e
    pure (finished (failure sub e))

  unfoldable pub finish_done : Plan → SubGoal → Io (Fleet W C) Phase
  unfolding show_sub_goal record_attempt success
  finish_done plan sub = do
    shown ←
        show_sub_goal o plan.goal_id
          (record { name = sub.task.id; recipe = sub.recipe_name; state = codes "done" })
    recorded ← record_attempt o plan.goal_id sub.task.id completed []
    pure (finished (success sub))

  unfoldable pub finish_awaiting : Plan → SubGoal → Io (Fleet W C) Phase
  unfolding record_attempt failure
  finish_awaiting plan sub = do
    recorded ←
        record_attempt o plan.goal_id sub.task.id awaiting_approval
          (codes "requires human approval")
    pure (finished (failure sub (codes "awaiting approval")))

  unfoldable pub give_back : Io (Fleet W C) Unit
  unfolding release_held
  give_back f = (tt, record f { worker_sem = release_held f.worker_sem })

  -- With the permit: the halt of a plan that awaits an approval.
  unfoldable pub unless_paused : SubGoal → Bool → Io (Fleet W C) Phase
  unfolding give_back failure
  unless_paused sub false = pure running_now
  unless_paused sub true = do
    released ← give_back
    pure (finished (failure sub (codes "paused: plan awaiting approval")))

  unfoldable pub start : Plan → SubGoal → Io (Fleet W C) Phase
  unfolding plan_awaiting_approval unless_paused
  start plan sub = do paused ← plan_awaiting_approval o plan.goal_id; unless_paused sub paused

  unfoldable pub after_acquire : Plan → SubGoal → Acquired → Io (Fleet W C) Phase
  unfolding start finish_failed permit_error
  after_acquire plan sub (acquired s) f = start plan sub (record f { worker_sem = some s })
  after_acquire plan sub context_done f =
      finish_failed plan sub (permit_error o sub (o.ctx_err f.world)) f
  after_acquire plan sub parked f = (admitted, f)

  -- `first` is the choice of the select in Acquire.
  unfoldable pub acquire_permit : Plan → SubGoal → Bool → Option Semaphore → Io (Fleet W C) Phase
  unfolding start after_acquire acquire is_some
  acquire_permit plan sub first none f = start plan sub f
  acquire_permit plan sub first (some s) f =
      after_acquire plan sub (acquire (is_some (o.ctx_err f.world)) first s) f

  unfoldable pub record_approvals : Plan → List (List ℕ × List ℕ) → Io (Fleet W C) Unit
  unfolding record_pending_approval
  record_approvals plan [] = pure tt
  record_approvals plan ((task_id, reason) ∷ approvals) = do
    recorded ← record_pending_approval o plan.goal_id task_id reason
    record_approvals plan approvals

  -- The switch behind the dispatch.
  unfoldable pub conclude : Plan → SubGoal → List (List ℕ × List ℕ) → Err → Io (Fleet W C) Phase
  unfolding finish_awaiting finish_failed finish_done
  conclude plan sub (_ ∷ _) err = finish_awaiting plan sub
  conclude plan sub [] (some e) = finish_failed plan sub e
  conclude plan sub [] none = finish_done plan sub

  -- One step: what the hook writes while the dispatch runs stands behind the dispatch here.
  unfoldable pub run : Plan → SubGoal → Io (Fleet W C) Phase
  unfolding outside record_approvals give_back conclude hooked
  run plan sub = do
    result ← outside (o.dispatch sub)
    recorded ← record_approvals plan (hooked o result.approvals)
    released ← give_back
    conclude plan sub (hooked o result.approvals) result.err

  -- The next step of a worker.
  unfoldable pub step : Plan → SubGoal → Bool → Phase → Io (Fleet W C) Phase
  unfolding gate acquire_permit run
  step plan sub first waiting f = gate plan sub f
  step plan sub first admitted f = acquire_permit plan sub first f.worker_sem f
  step plan sub first running_now f = run plan sub f
  step plan sub first (finished outcome) f = (finished outcome, f)
  step plan sub first (unaudited outcome e) f = (unaudited outcome e, f)
