-- ===== src/Orchestrator/Semaphore/Laws.antt =====
-- TryAcquireN takes all the permits or none.
use agent_builder.Common.{
  ◌≡◌, ap, ◌∙◌, Bool, true, false, some, ℕ, zero, suc, ◌+◌, ltb, leb, ◌≤◌, ◌<◌, if◌then◌else◌,
  arith, Bool-cases, inl, inr,
}
use agent_builder.Common.Int.{ℤ, pos_part}
use agent_builder.Orchestrator.Semaphore.{
  Semaphore, has_room, send, receive, release, release_or, release_times, rolled_back, try_take,
  try_acquire_n,
}

abbrev at : ℕ → ℕ → Semaphore
at held size = record { held = held; cap = size }

-- A rollback gives back what was taken.
release_times-sent :
    (taken now before size : ℕ)
    → now ≡ taken + before
    → release_times taken (at now size) ≡ some (at before size)
unfolding release_times release release_or receive
release_times-sent zero now before size h = ap (λ n. some (at n size)) (h ∙ omega arith)
release_times-sent (suc taken) zero before size h = absurd (omega arith)
release_times-sent (suc taken) (suc now) before size h =
    release_times-sent taken now before size (omega arith)

-- What TryAcquireN is to do, in one comparison.
unfoldable pub all_or_nothing : ℕ → Semaphore → Bool × Semaphore
all_or_nothing n s =
    if leb (n + s.held) s.cap then (true, record s { held = n + s.held }) else (false, s)

taken_all :
    (left taken now size : ℕ)
    → left + now ≤ size
    → try_take left taken (at now size) ≡ some (true, at (left + now) size)
unfolding try_take has_room send
taken_all zero taken now size h = ap (λ n. some (true, at n size)) (omega arith)
taken_all (suc left) taken now size h =
    let room : ltb now size ≡ true = ground arith in
    rw room (
      taken_all left (suc taken) (suc now) size (omega arith)
      ∙ ap (λ n. some (true, at n size)) (omega arith))

taken_none :
    (left taken now before size : ℕ)
    → size < left + now
    → now ≤ size
    → now ≡ taken + before
    → try_take left taken (at now size) ≡ some (false, at before size)
unfolding try_take has_room send rolled_back
taken_none zero taken now before size h k e = absurd (omega arith)
taken_none (suc left) taken now before size h k e = elim (Bool-cases (ltb now size)) [
  | inl room ↦
      rw room (
        taken_none left (suc taken) (suc now) before size (omega arith) (ground arith)
          (omega arith))
  | inr full ↦ rw full (ap rolled_back (release_times-sent taken now before size e))
]

fits_lem : (n : ℕ) (s : Semaphore) → leb (n + s.held) s.cap ≡ true → n + s.held ≤ s.cap
fits_lem n s h = ground arith

over_lem : (n : ℕ) (s : Semaphore) → leb (n + s.held) s.cap ≡ false → s.cap < n + s.held
over_lem n s h = ground arith

-- On a semaphore within its capacity, TryAcquireN takes all the permits asked for if they are free,
-- and otherwise leaves it as it was; its rollback never blocks.
pub try_acquire_n-all_or_nothing :
    (n : ℤ) (s : Semaphore)
    → s.held ≤ s.cap
    → try_acquire_n n s ≡ some (all_or_nothing (pos_part n) s)
unfolding try_acquire_n all_or_nothing
try_acquire_n-all_or_nothing n s h = elim (Bool-cases (leb (pos_part n + s.held) s.cap)) [
  | inl fits ↦ rw fits (taken_all (pos_part n) zero s.held s.cap (fits_lem (pos_part n) s fits))
  | inr over ↦ rw over (
      taken_none (pos_part n) zero s.held s.held s.cap (over_lem (pos_part n) s over) h
        (omega arith))
]
