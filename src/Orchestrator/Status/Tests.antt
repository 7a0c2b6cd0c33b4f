-- ===== src/Orchestrator/Status/Tests.antt =====
-- The status registry at concrete goals.
use agent_builder.Common.{◌≡◌, refl, some, none, List, [], ◌∷◌, ◌++◌, ℕ, ◌==◌, false}
use agent_builder.Common.Int.{ℤ, pos}
use agent_builder.Common.Text.{codes, text_eq}
use agent_builder.Orchestrator.Status.{StatusRegistry, planning, get, pending_info, cancel}
use agent_builder.Orchestrator.Status.Laws.{
  Call, stated, informed, drained, perform_all, replay, get-perform_all,
}
use agent_builder.Orchestrator.Status.Info.{NeverRegistered, taken, sent, taken-sent}
use agent_builder.Orchestrator.Status.Cancels.{NeverHandled, cancel_once}

abbrev registry : StatusRegistry ℕ
registry = record { goals = []; cancels = (codes "g1", 7) ∷ (codes "g2", 8) ∷ [] }

abbrev on : List ℕ → ℕ → Call ℕ → List ℕ × (ℤ × Call ℕ)
on id now c = (id, (pos now, c))

abbrev session : List (List ℕ × (ℤ × Call ℕ))
session =
    on (codes "g1") 1 (stated planning)
    ∷ on (codes "g2") 2 (informed (codes "b"))
    ∷ on (codes "g1") 3 (informed (codes "a"))
    ∷ on (codes "g1") 4 drained
    ∷ on (codes "g1") 5 (informed (codes "c"))
    ∷ []

get-perform_all_example :
    get (codes "g1") (perform_all session (some registry))
    ≡ replay (codes "g1") session (get (codes "g1") (some registry))
get-perform_all_example = get-perform_all (codes "g1") session registry

taken-sent_example :
    taken (codes "g1") session (some registry)
      ++ pending_info (codes "g1") (perform_all session (some registry))
    ≡ pending_info (codes "g1") (some registry) ++ sent (codes "g1") session
unfolding NeverRegistered
taken-sent_example = taken-sent (codes "g1") session registry tt

sent_lem : sent (codes "g1") session ≡ codes "a" ∷ codes "c" ∷ []
unfolding sent
sent_lem = refl

cancel_once_example :
    ((cancel (codes "g1") (perform_all session (cancel (codes "g1") (some registry)).1)).0 ≡ none)
    × ((other : List ℕ)
        → (codes "g1" == other) ≡ false
        → (cancel other (cancel (codes "g1") (some registry)).1).0
          ≡ (cancel other (some registry)).0)
unfolding NeverHandled
cancel_once_example = cancel_once (codes "g1") session registry tt
