-- ===== src/Orchestrator/Semaphore/Tests.antt =====
-- The semaphore at concrete numbers.
use agent_builder.Common.{◌≡◌, refl, some, Bool, ltb, List, [], ◌∷◌, ◌≤◌, false, true, arith}
use agent_builder.Common.Int.{pos, pos_part, lt_int}
use agent_builder.Orchestrator.Semaphore.{Semaphore, new_semaphore, try_acquire_n, acquire}
use agent_builder.Orchestrator.Semaphore.Laws.{all_or_nothing, try_acquire_n-all_or_nothing}
use agent_builder.Orchestrator.Semaphore.Granted.{
  Call, acquiring, trying, releasing, Account, perform_all, is_acquired, capacity_kept,
}

abbrev half_used : Semaphore
half_used = record { held = 2; cap = 4 }

try_acquire_n-all_or_nothing_example :
    try_acquire_n (pos 3) half_used ≡ some (all_or_nothing (pos_part (pos 3)) half_used)
try_acquire_n-all_or_nothing_example = try_acquire_n-all_or_nothing (pos 3) half_used (omega arith)

abbrev session : List Call
session = acquiring false true ∷ trying (pos 5) ∷ trying (pos 1) ∷ releasing ∷ []

-- Granted: one by Acquire, none by the first TryAcquireN, one by the second.
abbrev account : Account
account = record { semaphore = record { held = 1; cap = 2 }; granted = 2; returned = 1 }

session_lem : perform_all session (pos 2) ≡ some account
unfolding perform_all try_acquire_n acquire new_semaphore
session_lem = refl

capacity_kept_example :
    (1 ≤ 2)
    × (2 ≤ 3)
    × ((first : Bool) → is_acquired (acquire false first account.semaphore) ≡ ltb 2 3)
unfolding lt_int
capacity_kept_example = capacity_kept session (pos 2) account session_lem
