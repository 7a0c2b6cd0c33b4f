-- ===== src/Common/Int.antt =====
-- Go's signed integers, instants and durations: the mathematical integers. `negsuc n` is -(n + 1).
use Prim.Native.Nat.{ℕ, suc, ◌+◌, ◌-◌, ◌≤◌, ◌<◌}
use mathlib.Core.Path.{◌≡◌}
use mathlib.Core.Bool.{Bool, true, false}
use native.Mathlib.Omega.{arith}
use native.Mathlib.Decide.{ℕ_discrete}
use agent_builder.Common.Equality.{Eq}
use agent_builder.Common.Tests.{leb, ltb, if◌then◌else◌}

pub data ℤ : Type 0 where
  pos : ℕ → ℤ
  negsuc : ℕ → ℤ

unfoldable pub ℤ-discrete : Discrete ℤ
unfolding ℕ_discrete
ℤ-discrete = hlevel ℕ_discrete

instance unfoldable pub int_eq : Eq ℤ
unfolding ℤ-discrete
int_eq = record { dec = ℤ-discrete }

abbrev pub pos_part : ℤ → ℕ
pos_part (pos n) = n
pos_part (negsuc n) = 0

abbrev pub neg_part : ℤ → ℕ
neg_part (pos n) = 0
neg_part (negsuc n) = suc n

-- a - b, as an integer.
abbrev pub sub_ℕ : ℕ → ℕ → ℤ
sub_ℕ a b = if leb b a then pos (a - b) else negsuc (b - a - 1)

infixl 65 ◌+ℤ◌ ◌-ℤ◌
infix 50 ◌<ℤ◌ ◌≤ℤ◌
unfoldable pub ◌+ℤ◌ : ℤ → ℤ → ℤ
a +ℤ b = sub_ℕ (pos_part a + pos_part b) (neg_part a + neg_part b)

unfoldable pub ◌-ℤ◌ : ℤ → ℤ → ℤ
a -ℤ b = sub_ℕ (pos_part a + neg_part b) (neg_part a + pos_part b)

abbrev pub ◌<ℤ◌ : ℤ → ℤ → Type 0
a <ℤ b = pos_part a + neg_part b < pos_part b + neg_part a

abbrev pub ◌≤ℤ◌ : ℤ → ℤ → Type 0
a ≤ℤ b = pos_part a + neg_part b ≤ pos_part b + neg_part a

-- a < b on int, int64 and time.Duration; t.Before(u) on instants.
unfoldable pub lt_int : ℤ → ℤ → Bool
lt_int a b = ltb (pos_part a + neg_part b) (pos_part b + neg_part a)

pub +ℤ_parts :
    (a b : ℤ)
    → pos_part (a +ℤ b) + neg_part a + neg_part b ≡ neg_part (a +ℤ b) + pos_part a + pos_part b
unfolding ◌+ℤ◌
+ℤ_parts a b = ground arith

pub -ℤ_parts :
    (a b : ℤ)
    → pos_part (a -ℤ b) + neg_part a + pos_part b ≡ neg_part (a -ℤ b) + pos_part a + neg_part b
unfolding ◌-ℤ◌
-ℤ_parts a b = ground arith

pub lt_int→lt : (a b : ℤ) → lt_int a b ≡ true → a <ℤ b
unfolding lt_int
lt_int→lt a b h = ground arith

pub not_lt_int→le : (a b : ℤ) → lt_int a b ≡ false → b ≤ℤ a
unfolding lt_int
not_lt_int→le a b h = ground arith

pub lt→lt_int : (a b : ℤ) → a <ℤ b → lt_int a b ≡ true
unfolding lt_int
lt→lt_int a b h = ground arith

pub le→not_lt_int : (a b : ℤ) → b ≤ℤ a → lt_int a b ≡ false
unfolding lt_int
le→not_lt_int a b h = ground arith

pub ℤ_antisym : (a b : ℤ) → a ≤ℤ b → b ≤ℤ a → a ≡ b
ℤ_antisym (pos m) (pos n) h k = ground arith
ℤ_antisym (pos m) (negsuc n) h k = absurd (omega arith)
ℤ_antisym (negsuc m) (pos n) h k = absurd (omega arith)
ℤ_antisym (negsuc m) (negsuc n) h k = ground arith

-- What `omega` needs to compute with sums, differences and tests of integers that stay shut.
pub ruleset int_laws =
    (arith, +ℤ_parts, -ℤ_parts, lt_int→lt, not_lt_int→le, lt→lt_int, le→not_lt_int)
