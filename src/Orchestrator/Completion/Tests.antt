-- ===== src/Orchestrator/Completion/Tests.antt =====
-- RunToCompletion at the example.
use agent_builder.Common.{[], ◌∷◌, true, if◌then◌else◌}
use agent_builder.Common.Int.{pos, lt_int}
use agent_builder.Orchestrator.Completion.{run_to_completion}
use agent_builder.Orchestrator.Completion.Laws.{EndsWithin, run_to_completion-EndsWithin}
use agent_builder.Orchestrator.Journal.{load_attempt_count}
use agent_builder.Orchestrator.Example.{parts, goal, fleet}

run_to_completion-EndsWithin_example :
    let loaded = (load_attempt_count parts goal.id fleet).0 in
    EndsWithin
      (if lt_int loaded (pos 3) then pos 3 else loaded)
      (run_to_completion parts goal (λ attempt. (0, true) ∷ []) (pos 3) fleet).0
run_to_completion-EndsWithin_example =
    run_to_completion-EndsWithin parts goal (λ attempt. (0, true) ∷ []) (pos 3) fleet
