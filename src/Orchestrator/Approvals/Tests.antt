-- ===== src/Orchestrator/Approvals/Tests.antt =====
-- A goal whose first task waits for an approval.
use agent_builder.Common.{◌≡◌, refl, [], ◌∷◌, some, none, true, false, All, subst, some_inj}
use agent_builder.Common.Text.{codes}
use agent_builder.Runstore.{Record, running, bare_record, zero_time}
use agent_builder.Orchestrator.{SubGoal, Plan}
use agent_builder.Orchestrator.Core.{Parts, RunStore, loaded}
use agent_builder.Orchestrator.Dispatch.Kept.{IsKept, IsQuiet}
use agent_builder.Orchestrator.Approvals.{resume_approval}
use agent_builder.Orchestrator.Approvals.Only.{IsAsked, approval_dispatches_only}
use agent_builder.Orchestrator.Example.{World, part, parts, plan, fleet}

abbrev second : SubGoal
second = record part {
  task = record { id = codes "g-1"; repo = codes "r"; spec = codes "test it" };
}

abbrev asking : Record
asking = record (bare_record (codes "g") running) {
  pending_approvals =
      record {
        task_id = codes "g-1";
        reason = codes "merge";
        requested_at = zero_time;
        escalated = false;
      }
      ∷ [];
}

-- A run store that always holds the one record.
abbrev single : RunStore World
single = record {
  load = λ id w. (loaded asking, w);
  save = λ r w. (none, w);
  list_in_flight = λ w. (none, w);
}

-- The dispatch logs the IDs of the tasks.
abbrev answering : Parts World
answering = record parts {
  run_store = some single;
  unmarshal = λ t. some (record plan { sub_goals = part ∷ second ∷ [] });
  dispatch =
      λ sub w. (record { err = none; approvals = [] }, record w { log = sub.task.id ∷ w.log });
}

-- Only the second task was dispatched.
abbrev IsOnly : World → Type 0
IsOnly w = All (λ id. id ≡ codes "g-1") w.log

quiet_lem : IsQuiet answering IsOnly
quiet_lem = record {
  reports = λ text w q. q;
  decides = λ request w q. q;
  audits = λ sink e. absurd cc;
  loads = λ rs e id w q. subst (λ s. IsOnly (s.load id w).1) (some_inj e) q;
  saves = λ rs e r w q. subst (λ s. IsOnly (s.save r w).1) (some_inj e) q;
}

kept_lem : (p : Plan) → IsKept answering IsOnly p (IsAsked true (codes "g-1"))
kept_lem p = record { quiet = quiet_lem; dispatches = λ sub permitted w q. (permitted.given.1, q) }

second_dispatched :
    (resume_approval answering (codes "g") (codes "g-1") true true fleet).1.world.log
    ≡ codes "g-1" ∷ []
unfolding resume_approval
second_dispatched = refl

approval_dispatches_only_example :
    IsOnly (resume_approval answering (codes "g") (codes "g-1") true true fleet).1.world
approval_dispatches_only_example =
    approval_dispatches_only answering IsOnly true (codes "g-1") quiet_lem (λ t p e. kept_lem p)
      (codes "g") true fleet tt
