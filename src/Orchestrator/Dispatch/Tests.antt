-- ===== src/Orchestrator/Dispatch/Tests.antt =====
-- The dispatch of one worker.
use agent_builder.Common.{◌≡◌, refl, [], ◌∷◌, All, true, eq_of_==}
use agent_builder.Common.Text.{codes, text_eq}
use agent_builder.Orchestrator.Dispatch.{dispatch_sub_goals}
use agent_builder.Orchestrator.Dispatch.Kept.{IsQuiet, IsKept}
use agent_builder.Orchestrator.Dispatch.Permitted.{dispatch_permitted}
use agent_builder.Orchestrator.Example.{World, part, parts, plan, fleet}

-- Only the registered recipe was dispatched.
abbrev IsClean : World → Type 0
IsClean w = All (λ name. name ≡ codes "coding-agent") w.log

is_quiet_lem : IsQuiet parts IsClean
is_quiet_lem = record {
  reports = λ text w q. q;
  decides = λ request w q. q;
  audits = λ sink e. absurd cc;
  loads = λ rs e. absurd cc;
  saves = λ rs e. absurd cc;
}

is_kept_lem : IsKept parts IsClean plan (λ sub. sub ≡ part)
is_kept_lem = record {
  quiet = is_quiet_lem;
  dispatches = λ sub p w q. (eq_of_== sub.recipe_name (codes "coding-agent") p.registered, q);
}

dispatch_permitted_example :
    IsClean
      (dispatch_sub_goals parts plan plan.sub_goals
        ((0, true) ∷ (0, true) ∷ (0, true) ∷ [])
        fleet).1.world
dispatch_permitted_example =
    dispatch_permitted parts IsClean plan (λ sub. sub ≡ part) is_kept_lem plan.sub_goals
      ((0, true) ∷ (0, true) ∷ (0, true) ∷ []) fleet (refl, tt) tt
