-- ===== src/Envelope/Replay.antt =====
-- internal/envelope/replay.go: the freshness window and the nonce set. The mutex makes each method
-- one step; `time.Now()` is an argument of the step. Instants and durations are exact integers of
-- nanoseconds.
pub mod Window
pub mod Once
mod Tests
use agent_builder.Common.{Bool, ◌||◌, Option, none, some, List, [], ◌∷◌, String, ℕ, length, ◌==◌}
use agent_builder.Common.{if◌then◌else◌, string_eq}
use agent_builder.Common.Int.{ℤ, pos, ◌+ℤ◌, ◌-ℤ◌, lt_int, int_eq}
use agent_builder.Common.Map.{Map, lookup, insert, prune}

pub data Error : Type 0 where
  stale_timestamp replay : Error

pub data Result : Type 0 where
  accepted : Result
  rejected : Error → Result

pub record ReplayCache : Type 0 where
  pub window : ℤ
  pub nonces : Map String ℤ

-- 60 * time.Second
abbrev pub default_window : ℤ
default_window = pos 60000000000

unfoldable pub new_replay_cache : ℤ → ReplayCache
new_replay_cache window = record {
  window = if window == pos 0 then default_window else window;
  nonces = [];
}

-- The test at the head of `Check`: outside [now - window, now + window].
unfoldable pub is_stale : ReplayCache → ℤ → ℤ → Bool
is_stale rc now ts = lt_int ts (now -ℤ rc.window) || lt_int (now +ℤ rc.window) ts

-- now.Add(-2 * rc.Window)
unfoldable pub horizon : ReplayCache → ℤ → ℤ
horizon rc now = now -ℤ (rc.window +ℤ rc.window)

unfoldable pub evict : ReplayCache → ℤ → ReplayCache
unfolding horizon
evict rc now = record rc { nonces = prune (λ ts. lt_int ts (horizon rc now)) rc.nonces }

abbrev pub record_nonce : ReplayCache → String → ℤ → ReplayCache
record_nonce rc nonce ts = record rc { nonces = insert nonce ts rc.nonces }

abbrev pub unless_seen : Option ℤ → ReplayCache → ReplayCache → Result × ReplayCache
unless_seen (some _) old new = (rejected replay, old)
unless_seen none old new = (accepted, new)

unfoldable pub check : ReplayCache → ℤ → String → ℤ → Result × ReplayCache
check rc now nonce ts =
    if is_stale rc now ts
    then (rejected stale_timestamp, rc)
    else unless_seen (lookup nonce rc.nonces) rc (record_nonce (evict rc now) nonce ts)

unfoldable pub len : ReplayCache → ℕ
len rc = length rc.nonces

-- The exported methods that lock the mutex and change the cache.
pub data Call : Type 0 where
  checks : String → ℤ → Call
  evicts : Call

unfoldable pub step : ReplayCache → ℤ → Call → ReplayCache
step rc now (checks nonce ts) = (check rc now nonce ts).1
step rc now evicts = evict rc now

-- Calls in the order in which they took the mutex, each with the clock that it read.
unfoldable pub run : ReplayCache → List (ℤ × Call) → ReplayCache
run rc [] = rc
run rc ((now, c) ∷ calls) = run (step rc now c) calls
