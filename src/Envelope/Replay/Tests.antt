-- ===== src/Envelope/Replay/Tests.antt =====
-- A cache with a window of 60 units, and the theorems at its inputs.
use agent_builder.Common.{◌≡◌, refl, ◌≢◌, List, [], ◌∷◌, string_eq, arith, ap}
use agent_builder.Common.Int.{ℤ, pos, ◌+ℤ◌, ◌-ℤ◌, lt_int, int_eq}
use agent_builder.Common.Map.{lookup, insert, prune}
use agent_builder.Envelope.Replay.{
  ReplayCache, accepted, rejected, replay, stale_timestamp, new_replay_cache, is_stale, check,
  evict, Call, checks, evicts, run,
}
use agent_builder.Envelope.Replay.Once.{accepted_once}

abbrev cache : ReplayCache
cache = record { window = pos 60; nonces = ("old", pos 870) ∷ ("new", pos 990) ∷ [] }

new_replay_cache-zero : (new_replay_cache (pos 0)).window ≡ pos 60000000000
unfolding new_replay_cache int_eq
new_replay_cache-zero = refl

check_fresh :
    check cache (pos 1000) "n" (pos 995)
    ≡ (accepted, record cache { nonces = ("new", pos 990) ∷ ("n", pos 995) ∷ [] })
unfolding check is_stale evict lookup insert prune string_eq lt_int ◌-ℤ◌ ◌+ℤ◌
check_fresh = refl

check_replayed : check cache (pos 1000) "new" (pos 995) ≡ (rejected replay, cache)
unfolding check is_stale lookup string_eq lt_int ◌-ℤ◌ ◌+ℤ◌
check_replayed = refl

check_stale : (check cache (pos 1000) "n" (pos 939)).0 ≡ rejected stale_timestamp
unfolding check is_stale lookup string_eq lt_int ◌-ℤ◌ ◌+ℤ◌
check_stale = refl

abbrev calls : List (ℤ × Call)
calls = (pos 1000, evicts) ∷ (pos 1010, checks "m" (pos 1010)) ∷ (pos 1200, evicts) ∷ []

accepted_once_example :
    (check (run (check cache (pos 1000) "n" (pos 995)).1 calls) (pos 1300) "n" (pos 995)).0
    ≢ accepted
accepted_once_example =
    accepted_once cache (pos 1000) (pos 1300) "n" (pos 995) calls (ap (λ p. p.0) check_fresh)
      (omega arith)
