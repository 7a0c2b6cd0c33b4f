-- ===== src/Orchestrator/Semaphore.antt =====
-- internal/orchestrator/semaphore.go: the permits for workers and goals. The channel is the number of
-- values in its buffer and the size of the buffer.
use agent_builder.Common.{
  Bool, true, false, Option, none, some, ℕ, zero, suc, ◌+◌, ◌-◌, ltb, if◌then◌else◌, List, [], ◌∷◌,
}
use agent_builder.Common.Int.{ℤ, pos, pos_part, lt_int}
pub mod Laws
pub mod Granted
mod Tests

pub record Semaphore : Type 0 where
  pub held : ℕ
  pub cap : ℕ

unfoldable pub new_semaphore : ℤ → Semaphore
unfolding lt_int
new_semaphore n = record { held = 0; cap = if lt_int n (pos 1) then 1 else pos_part n }

unfoldable pub has_room : Semaphore → Bool
has_room s = ltb s.held s.cap

-- A send into the buffer, and a receive from it; the receive blocks on an empty buffer.
unfoldable pub send : Semaphore → Semaphore
send s = record s { held = suc s.held }

unfoldable pub receive : ℕ → ℕ → Option Semaphore
receive zero cap = none
receive (suc held) cap = some (record { held = held; cap = cap })

-- What a select of Acquire comes to. It stays parked while neither case is ready.
pub data Acquired : Type 0 where
  acquired : Semaphore → Acquired
  context_done : Acquired
  parked : Acquired

-- `is_done` is ctx.Done(); `first` is the choice of the select where both cases are ready.
unfoldable pub acquire : Bool → Bool → Semaphore → Acquired
unfolding has_room send
acquire false first s = if has_room s then acquired (send s) else parked
acquire true first s =
    if has_room s then (if first then acquired (send s) else context_done) else context_done

unfoldable pub release : Semaphore → Option Semaphore
unfolding receive
release s = receive s.held s.cap

unfoldable pub release_or : Option Semaphore → (Semaphore → Option Semaphore) → Option Semaphore
release_or none next = none
release_or (some s) next = next s

-- The loop of ReleaseN, which is also the rollback of TryAcquireN.
unfoldable pub release_times : ℕ → Semaphore → Option Semaphore
unfolding release release_or
release_times zero s = some s
release_times (suc n) s = release_or (release s) (release_times n)

unfoldable pub release_n : ℤ → Semaphore → Option Semaphore
unfolding release_times
release_n n s = release_times (pos_part n) s

-- The loop of TryAcquireN with the permits left to take; `none` is a rollback that blocks.
unfoldable pub rolled_back : Option Semaphore → Option (Bool × Semaphore)
rolled_back none = none
rolled_back (some s) = some (false, s)

unfoldable pub try_take : ℕ → ℕ → Semaphore → Option (Bool × Semaphore)
unfolding has_room send release_times rolled_back
try_take zero taken s = some (true, s)
try_take (suc left) taken s =
    let more = try_take left (suc taken) (send s) in
    if has_room s then more else rolled_back (release_times taken s)

unfoldable pub try_acquire_n : ℤ → Semaphore → Option (Bool × Semaphore)
unfolding try_take
try_acquire_n n s = try_take (pos_part n) zero s

unfoldable pub cap : Semaphore → ℕ
cap s = s.cap
