-- ===== src/Orchestrator.antt =====
-- internal/orchestrator: goals become plans, and plans become workers. Every text of this package is
-- a list of code points.
pub mod Status
pub mod Semaphore
pub mod Plans
pub mod Planner
pub mod Containment
pub mod Core
pub mod Journal
pub mod Worker
pub mod Dispatch
pub mod Flow
pub mod Resume
pub mod Rehydrate
pub mod Approvals
pub mod Sweep
pub mod Completion
pub mod Example
use agent_builder.Common.{List, ℕ}

-- internal/supervisor/supervisor.go. The prior failure of a task is not set in this package.
pub record GoalTask : Type 0 where
  pub id : List ℕ
  pub repo : List ℕ
  pub spec : List ℕ

pub record SubGoal : Type 0 where
  pub recipe_name : List ℕ
  pub task : GoalTask
  pub target_repo : List ℕ
  pub sink : List ℕ

pub record Plan : Type 0 where
  pub goal : List ℕ
  pub goal_id : List ℕ
  pub sub_goals : List SubGoal
