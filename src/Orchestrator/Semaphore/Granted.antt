-- ===== src/Orchestrator/Semaphore/Granted.antt =====
-- The permits that the calls report as granted, and the bound.
use agent_builder.Common.{
  ◌≡◌, refl, ◌∙◌, Bool, true, false, Option, none, some, ℕ, zero, suc, ◌+◌, ltb, leb, ◌≤◌,
  if◌then◌else◌, arith, Bool-cases, inl, inr, List, [], ◌∷◌, subst,
}
use agent_builder.Common.Int.{ℤ, pos, pos_part, lt_int}
use agent_builder.Orchestrator.Semaphore.{
  Semaphore, new_semaphore, has_room, send, receive, release, release_or, release_times, release_n,
  try_acquire_n, Acquired, acquired, context_done, parked, acquire,
}
use agent_builder.Orchestrator.Semaphore.Laws.{all_or_nothing, try_acquire_n-all_or_nothing}

-- The calls on a semaphore.
pub data Call : Type 0 where
  acquiring : Bool → Bool → Call
  trying : ℤ → Call
  releasing : Call
  releasing_n : ℤ → Call

-- A semaphore, and how many permits its callers were told that they have, and gave back, so far.
pub record Account : Type 0 where
  pub semaphore : Semaphore
  pub granted : ℕ
  pub returned : ℕ

-- A nil error of Acquire grants one permit. A select that ends without one, and one that is still
-- parked, leaves all as it was.
unfoldable pub after_acquire : Acquired → Account → Account
after_acquire (acquired t) a = record a { semaphore = t; granted = suc a.granted }
after_acquire context_done a = a
after_acquire parked a = a

-- TryAcquireN grants as many as it was asked for where it returns true.
unfoldable pub after_try : ℕ → Option (Bool × Semaphore) → Account → Option Account
after_try n none a = none
after_try n (some (true, t)) a = some (record a { semaphore = t; granted = n + a.granted })
after_try n (some (false, t)) a = some (record a { semaphore = t })

unfoldable pub after_release : ℕ → Option Semaphore → Account → Option Account
after_release n none a = none
after_release n (some t) a = some (record a { semaphore = t; returned = n + a.returned })

-- `none` is a call that blocks for want of a permit to give back.
unfoldable pub perform : Call → Account → Option Account
unfolding after_acquire after_try after_release
perform (acquiring is_done first) a = some (after_acquire (acquire is_done first a.semaphore) a)
perform (trying n) a = after_try (pos_part n) (try_acquire_n n a.semaphore) a
perform releasing a = after_release 1 (release a.semaphore) a
perform (releasing_n n) a = after_release (pos_part n) (release_n n a.semaphore) a

unfoldable pub perform_all_from : List Call → Option Account → Option Account
unfolding perform
perform_all_from cs none = none
perform_all_from [] (some a) = some a
perform_all_from (c ∷ cs) (some a) = perform_all_from cs (perform c a)

-- The calls on a new semaphore.
unfoldable pub perform_all : List Call → ℤ → Option Account
unfolding perform_all_from
perform_all cs n =
    perform_all_from cs (some (record { semaphore = new_semaphore n; granted = 0; returned = 0 }))

-- The number that NewSemaphore was given, or one if that number is not positive.
abbrev pub bound : ℤ → ℕ
bound n = if lt_int n (pos 1) then 1 else pos_part n

unfoldable pub is_acquired : Acquired → Bool
is_acquired (acquired t) = true
is_acquired _ = false

-- The semaphore holds what was granted and not returned, and no more than a capacity that no call
-- changes.
unfoldable IsCounted : ℕ → Option Account → Type 0
IsCounted n none = Unit
IsCounted n (some a) =
    (a.semaphore.held + a.returned ≡ a.granted) × (a.semaphore.held ≤ n) × (a.semaphore.cap ≡ n)

-- What gives back permits: a semaphore with so many fewer of them, where it does not block.
unfoldable IsGiven : ℕ → Semaphore → Option Semaphore → Type 0
IsGiven n s none = Unit
IsGiven n s (some t) = (n + t.held ≡ s.held) × (t.cap ≡ s.cap)

receive-IsGiven : (s : Semaphore) → IsGiven 1 s (release s)
unfolding release IsGiven
receive-IsGiven s = go s.held refl
  where
    go : (held : ℕ) → s.held ≡ held → IsGiven 1 s (receive held s.cap)
    go zero e = tt
    go (suc held) e = (omega arith, refl)

chained-IsGiven :
    (n : ℕ) (s : Semaphore) (o : Option Semaphore)
    → ((t : Semaphore) → IsGiven n t (release_times n t))
    → IsGiven 1 s o
    → IsGiven (suc n) s (release_or o (release_times n))
unfolding release_or IsGiven
chained-IsGiven n s none more h = tt
chained-IsGiven n s (some t) more (h, k) = go (release_times n t) (more t)
  where
    go : (o : Option Semaphore) → IsGiven n t o → IsGiven (suc n) s o
    go none g = tt
    go (some u) (g, l) = (omega arith, l ∙ k)

release_times-IsGiven : (n : ℕ) (s : Semaphore) → IsGiven n s (release_times n s)
unfolding release_times IsGiven
release_times-IsGiven zero s = (omega arith, refl)
release_times-IsGiven (suc n) s =
    chained-IsGiven n s (release s) (release_times-IsGiven n) (receive-IsGiven s)

release-IsCounted :
    (n given : ℕ) (a : Account) (o : Option Semaphore)
    → IsGiven given a.semaphore o
    → IsCounted n (some a)
    → IsCounted n (after_release given o a)
unfolding after_release IsCounted IsGiven
release-IsCounted n given a none g h = tt
release-IsCounted n given a (some t) (g, k) (count, within, size) =
    (omega arith, omega arith, k ∙ size)

acquire-IsCounted :
    (is_done first : Bool) (n : ℕ) (a : Account)
    → IsCounted n (some a)
    → IsCounted n (some (after_acquire (acquire is_done first a.semaphore) a))
unfolding acquire after_acquire has_room send IsCounted
acquire-IsCounted false first n a h = ground arith
acquire-IsCounted true false n a h = ground arith
acquire-IsCounted true true n a h = ground arith

try-IsCounted :
    (asked n : ℕ) (a : Account)
    → IsCounted n (some a)
    → IsCounted n (after_try asked (some (all_or_nothing asked a.semaphore)) a)
unfolding all_or_nothing after_try IsCounted
try-IsCounted asked n a h = elim (Bool-cases (leb (asked + a.semaphore.held) a.semaphore.cap)) [
  | inl fits ↦ rw fits (ground arith)
  | inr over ↦ rw over h
]

within_lem : (n : ℕ) (a : Account) → IsCounted n (some a) → a.semaphore.held ≤ a.semaphore.cap
unfolding IsCounted
within_lem n a (count, within, size) = omega arith

perform-IsCounted :
    (c : Call) (n : ℕ) (a : Account) → IsCounted n (some a) → IsCounted n (perform c a)
unfolding perform release_n
perform-IsCounted (acquiring is_done first) n a h = acquire-IsCounted is_done first n a h
perform-IsCounted (trying m) n a h =
    rw (try_acquire_n-all_or_nothing m a.semaphore (within_lem n a h))
      (try-IsCounted (pos_part m) n a h)
perform-IsCounted releasing n a h = release-IsCounted n 1 a _ (receive-IsGiven a.semaphore) h
perform-IsCounted (releasing_n m) n a h =
    release-IsCounted n (pos_part m) a _ (release_times-IsGiven (pos_part m) a.semaphore) h

perform_all-IsCounted :
    (cs : List Call) (n : ℕ) (o : Option Account)
    → IsCounted n o
    → IsCounted n (perform_all_from cs o)
unfolding perform_all_from IsCounted
perform_all-IsCounted cs n none h = tt
perform_all-IsCounted [] n (some a) h = h
perform_all-IsCounted (c ∷ cs) n (some a) h =
    perform_all-IsCounted cs n (perform c a) (perform-IsCounted c n a h)

counted_lem :
    (n : ℕ) (a : Account)
    → IsCounted n (some a)
    → (a.returned ≤ a.granted)
      × (a.granted ≤ n + a.returned)
      × ((first : Bool)
          → is_acquired (acquire false first a.semaphore) ≡ ltb a.granted (n + a.returned))
unfolding IsCounted acquire has_room is_acquired
counted_lem n a (count, within, size) = (omega arith, omega arith, λ first. ground arith)

-- Whatever calls a new semaphore sees, as long as none blocks for want of a permit to give back: its
-- callers were granted at least what they gave back, and exceed it by at most the number that
-- NewSemaphore was given, or by one if that number is not positive; and the next Acquire, with a
-- context that is not done, gets a permit at once exactly if they exceed it by less.
pub capacity_kept :
    (cs : List Call) (n : ℤ) (a : Account)
    → perform_all cs n ≡ some a
    → (a.returned ≤ a.granted)
      × (a.granted ≤ bound n + a.returned)
      × ((first : Bool)
          → is_acquired (acquire false first a.semaphore) ≡ ltb a.granted (bound n + a.returned))
unfolding perform_all new_semaphore IsCounted
capacity_kept cs n a e = counted_lem (bound n) a (
    subst (IsCounted (bound n)) e
      (perform_all-IsCounted cs (bound n) (some _) (refl, omega arith, refl)))
