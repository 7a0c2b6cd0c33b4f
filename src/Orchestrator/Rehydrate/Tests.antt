-- ===== src/Orchestrator/Rehydrate/Tests.antt =====
-- A record whose first task is completed and whose second is not.
use agent_builder.Common.{◌≡◌, refl, [], ◌∷◌, none, some, All, true, false}
use agent_builder.Common.Int.{pos}
use agent_builder.Common.Text.{codes}
use agent_builder.Runstore.{Record, running, completed, bare_record, zero_time}
use agent_builder.Orchestrator.{SubGoal, Plan}
use agent_builder.Orchestrator.Core.{Parts}
use agent_builder.Orchestrator.Journal.{has_completed}
use agent_builder.Orchestrator.Dispatch.Kept.{IsKept}
use agent_builder.Orchestrator.Rehydrate.{resume_from_record}
use agent_builder.Orchestrator.Rehydrate.Completed.{IsOpen, completed_not_repeated}
use agent_builder.Orchestrator.Example.{World, part, parts, plan, fleet}

abbrev second : SubGoal
second = record part {
  task = record { id = codes "g-1"; repo = codes "r"; spec = codes "test it" };
}

-- The dispatch logs the IDs of the tasks.
abbrev resuming : Parts World
resuming = record parts {
  unmarshal = λ t. some (record plan { sub_goals = part ∷ second ∷ [] });
  dispatch =
      λ sub w. (record { err = none; approvals = [] }, record w { log = sub.task.id ∷ w.log });
}

abbrev interrupted : Record
interrupted = record (bare_record (codes "g") running) {
  attempts =
      record {
        task_id = codes "g-0";
        attempt = pos 0;
        status = completed;
        detail = [];
        updated_at = zero_time;
      }
      ∷ [];
}

abbrev IsFresh : World → Type 0
IsFresh w = All (λ id. has_completed interrupted.attempts id ≡ false) w.log

fresh_lem : (p : Plan) → IsKept resuming IsFresh p (IsOpen interrupted.attempts)
fresh_lem p = record {
  quiet = record {
    reports = λ text w q. q;
    decides = λ request w q. q;
    audits = λ sink e. absurd cc;
    loads = λ rs e. absurd cc;
    saves = λ rs e. absurd cc;
  };
  dispatches = λ sub permitted w q. (permitted.given, q);
}

second_dispatched :
    (resume_from_record resuming interrupted
      ((0, true) ∷ (0, true) ∷ (0, true) ∷ [])
      fleet).1.world.log
    ≡ codes "g-1" ∷ []
unfolding resume_from_record
second_dispatched = refl

completed_not_repeated_example :
    IsFresh
      (resume_from_record resuming interrupted
        ((0, true) ∷ (0, true) ∷ (0, true) ∷ [])
        fleet).1.world
completed_not_repeated_example =
    completed_not_repeated resuming IsFresh interrupted (λ p e. fresh_lem p)
      ((0, true) ∷ (0, true) ∷ (0, true) ∷ []) fleet tt
