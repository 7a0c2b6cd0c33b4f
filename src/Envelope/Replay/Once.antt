-- ===== src/Envelope/Replay/Once.antt =====
-- Over any history of calls with a clock that does not run backwards.
use agent_builder.Common.{
  ◌≡◌, refl, ◌≢◌, ◌⊎◌, inl, inr, none, some, arith, String, string_eq, List, [], ◌∷◌, Bool-cases,
}
use agent_builder.Common.Int.{ℤ, pos, ◌+ℤ◌, ◌≤ℤ◌, ◌<ℤ◌, int_laws, lt_int, lt_int→lt}
use agent_builder.Common.Map.{lookup, lookup-insert, lookup-prune_keep}
use agent_builder.Envelope.Replay.{
  ReplayCache, accepted, check, evict, horizon, Call, checks, evicts, step, run,
}
use agent_builder.Envelope.Replay.Window.{IsFresh, check_accepts_iff, lookup-check}

-- The clock readings of `calls` lie between `now` and `later`, in order.
abbrev pub IsOrdered : ℤ → List (ℤ × Call) → ℤ → Type 0
IsOrdered now [] later = now ≤ℤ later
IsOrdered now ((t, _) ∷ calls) later = now ≤ℤ t × IsOrdered t calls later

-- What guards against a second acceptance from `now` on: the entry, or that it has gone stale.
abbrev IsGuarded : ReplayCache → ℤ → String → ℤ → Type 0
IsGuarded rc now nonce ts = (lookup nonce rc.nonces ≡ some ts) ⊎ (ts +ℤ rc.window <ℤ now)

window-check :
    (rc : ReplayCache) (now : ℤ) (n : String) (t : ℤ) → (check rc now n t).1.window ≡ rc.window
unfolding check evict
window-check rc now n t = ground arith

window-step : (rc : ReplayCache) (now : ℤ) (c : Call) → (step rc now c).window ≡ rc.window
unfolding step evict
window-step rc now (checks nonce ts) = window-check rc now nonce ts
window-step rc now evicts = refl

module _ (nonce : String) (ts : ℤ) where
  later-IsGuarded :
      (rc : ReplayCache) (now later : ℤ)
      → now ≤ℤ later
      → IsGuarded rc now nonce ts
      → IsGuarded rc later nonce ts
  later-IsGuarded rc now later h (inl found) = inl found
  later-IsGuarded rc now later h (inr old) = inr (omega arith)

  evict-IsGuarded :
      (rc : ReplayCache) (now : ℤ)
      → pos 0 ≤ℤ rc.window
      → IsGuarded rc now nonce ts
      → IsGuarded (evict rc now) now nonce ts
  unfolding evict
  evict-IsGuarded rc now w (inr old) = inr old
  evict-IsGuarded rc now w (inl found) = elim (Bool-cases (lt_int ts (horizon rc now))) [
    | inl dropped ↦ inr (omega (int_laws, lt_int→lt ts (horizon rc now) dropped))
    | inr kept ↦ inl (lookup-prune_keep _ nonce rc.nonces ts found kept)
  ]

  check-IsGuarded :
      (rc : ReplayCache) (now : ℤ) (n : String) (t : ℤ)
      → pos 0 ≤ℤ rc.window
      → IsGuarded rc now nonce ts
      → IsGuarded (check rc now n t).1 now nonce ts
  unfolding check
  check-IsGuarded rc now n t w (inr old) = inr (rw (window-check rc now n t) old)
  check-IsGuarded rc now n t w (inl found) =
      ground
        (arith, evict-IsGuarded rc now w (inl found), lookup-insert nonce n t (evict rc now).nonces)

  step-IsGuarded :
      (rc : ReplayCache) (now : ℤ) (c : Call)
      → pos 0 ≤ℤ rc.window
      → IsGuarded rc now nonce ts
      → IsGuarded (step rc now c) now nonce ts
  unfolding step
  step-IsGuarded rc now (checks n t) w g = check-IsGuarded rc now n t w g
  step-IsGuarded rc now evicts w g = evict-IsGuarded rc now w g

  run-IsGuarded :
      (rc : ReplayCache) (now later : ℤ) (calls : List (ℤ × Call))
      → pos 0 ≤ℤ rc.window
      → IsOrdered now calls later
      → IsGuarded rc now nonce ts
      → IsGuarded (run rc calls) later nonce ts
  unfolding run
  run-IsGuarded rc now later [] w h g = later-IsGuarded rc now later h g
  run-IsGuarded rc now later ((t, c) ∷ calls) w (h, hs) g =
      run-IsGuarded (step rc t c) t later calls (rw window-step w) hs
        (step-IsGuarded rc t c w (later-IsGuarded rc now t h g))

  guarded_rejects :
      (rc : ReplayCache) (now : ℤ)
      → IsGuarded rc now nonce ts
      → (check rc now nonce ts).0 ≢ accepted
  guarded_rejects rc now (inl found) e = cc (found, ((check_accepts_iff rc now nonce ts).0 e).1)
  guarded_rejects rc now (inr old) e = omega (int_laws, ((check_accepts_iff rc now nonce ts).0 e).0)

-- Once `Check` has accepted a nonce with a timestamp, it never accepts the two again, whatever
-- calls come between, if the clock readings never decrease.
pub accepted_once :
    (rc : ReplayCache) (now later : ℤ) (nonce : String) (ts : ℤ) (calls : List (ℤ × Call))
    → (check rc now nonce ts).0 ≡ accepted
    → IsOrdered now calls later
    → (check (run (check rc now nonce ts).1 calls) later nonce ts).0 ≢ accepted
accepted_once rc now later nonce ts calls h ordered = guarded_rejects nonce ts _ later (
    run-IsGuarded nonce ts _ now later calls (rw window-check (omega (int_laws, fresh.0))) ordered
      (inl (lookup-check rc now nonce ts h)))
  where
    fresh : IsFresh rc.window now ts × (lookup nonce rc.nonces ≡ none)
    fresh = (check_accepts_iff rc now nonce ts).0 h
