-- ===== src/Envelope/Replay/Window.antt =====
-- What one `Check` decides, and what eviction may drop.
use agent_builder.Common.{◌≡◌, ◌↔◌, true, false, none, some, arith, String, string_eq}
use agent_builder.Common.Int.{ℤ, ◌+ℤ◌, ◌-ℤ◌, ◌≤ℤ◌, not_lt_int→le, le→not_lt_int}
use agent_builder.Common.Map.{lookup, lookup-insert, lookup-prune_kept, lookup-prune_keep}
use agent_builder.Envelope.Replay.{
  ReplayCache, Error, accepted, rejected, stale_timestamp, is_stale, evict, check,
}

-- The instants that the window admits around `now`, as the doc comment of `Check` puts it.
pub record IsFresh (window now ts : ℤ) : Type 0 where
  pub not_old : now -ℤ window ≤ℤ ts
  pub not_new : ts ≤ℤ now +ℤ window

pub is_stale-false :
    (rc : ReplayCache) (now ts : ℤ) → is_stale rc now ts ≡ false → IsFresh rc.window now ts
unfolding is_stale
is_stale-false rc now ts h =
    ground (arith, not_lt_int→le ts (now -ℤ rc.window), not_lt_int→le (now +ℤ rc.window) ts)

pub fresh_not_stale :
    (rc : ReplayCache) (now ts : ℤ) → IsFresh rc.window now ts → is_stale rc now ts ≡ false
unfolding is_stale
fresh_not_stale rc now ts h =
    ground (arith, le→not_lt_int ts (now -ℤ rc.window), le→not_lt_int (now +ℤ rc.window) ts)

-- `Check` accepts a nonce exactly if its timestamp is fresh and the cache does not hold the nonce.
pub check_accepts_iff :
    (rc : ReplayCache) (now : ℤ) (nonce : String) (ts : ℤ)
    → ((check rc now nonce ts).0 ≡ accepted)
      ↔ (IsFresh rc.window now ts × (lookup nonce rc.nonces ≡ none))
unfolding check
check_accepts_iff rc now nonce ts =
    (λ h. ground (arith, is_stale-false rc now ts), λ h. ground (arith, fresh_not_stale rc now ts))

-- A rejected `Check` changes nothing, and names its reason: the timestamp first.
pub check_rejects :
    (rc : ReplayCache) (now : ℤ) (nonce : String) (ts : ℤ) {e : Error}
    → (check rc now nonce ts).0 ≡ rejected e
    → ((check rc now nonce ts).1 ≡ rc) × ((e ≡ stale_timestamp) ↔ (is_stale rc now ts ≡ true))
unfolding check
check_rejects rc now nonce ts h = (ground arith, (λ p. ground arith, λ p. ground arith))

-- After an accepted `Check` the cache holds the nonce with its timestamp.
pub lookup-check :
    (rc : ReplayCache) (now : ℤ) (nonce : String) (ts : ℤ)
    → (check rc now nonce ts).0 ≡ accepted
    → lookup nonce (check rc now nonce ts).1.nonces ≡ some ts
unfolding check
lookup-check rc now nonce ts h = ground (arith, lookup-insert nonce nonce ts (evict rc now).nonces)

-- No entry that could still pass the freshness test is evicted.
pub lookup-evict :
    (rc : ReplayCache) (now : ℤ) (nonce : String) (ts : ℤ)
    → lookup nonce rc.nonces ≡ some ts
    → now -ℤ (rc.window +ℤ rc.window) ≤ℤ ts
    → lookup nonce (evict rc now).nonces ≡ some ts
unfolding evict
lookup-evict rc now nonce ts h fresh =
    lookup-prune_keep _ nonce rc.nonces ts h (le→not_lt_int ts _ fresh)

-- What is left after an eviction is at most two windows old.
pub evict_bounds :
    (rc : ReplayCache) (now : ℤ) (nonce : String) (ts : ℤ)
    → lookup nonce (evict rc now).nonces ≡ some ts
    → now -ℤ (rc.window +ℤ rc.window) ≤ℤ ts
unfolding evict
evict_bounds rc now nonce ts h = not_lt_int→le ts _ (lookup-prune_kept _ nonce rc.nonces ts h)
