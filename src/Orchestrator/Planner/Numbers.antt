-- ===== src/Orchestrator/Planner/Numbers.antt =====
-- The numbers in the IDs of sub-goals.
use Prim.Native.Nat.{◌/◌, ◌%◌}
use agent_builder.Common.{
  ◌≡◌, refl, sym, ap, ◌∙◌, false, List, [], ◌∷◌, ◌++◌, ℕ, zero, suc, ◌+◌, ◌==◌, ◌≤◌, ◌<◌, nat_eq,
  some_inj, if◌then◌else◌, arith, Bool-cases, inl, inr, ltb,
}
use mathlib.Core.List.{append_cancel_left}
use agent_builder.Common.Int.{pos}
use agent_builder.Common.Text.{codes, is_empty}
use agent_builder.Telegram.Authz.Ids.{format_int, digits_from, parse_digits}
use agent_builder.Telegram.Authz.IdLaws.{parse_digits-formatted}
use agent_builder.Orchestrator.Planner.{itoa, itoa_digits, sub_goal_id}

abbrev tail : List ℕ → List ℕ
tail [] = []
tail (c ∷ s) = s

itoa_digits-zero : (fuel : ℕ) (digits : List ℕ) → itoa_digits fuel 0 digits ≡ digits
unfolding itoa_digits
itoa_digits-zero zero digits = refl
itoa_digits-zero (suc fuel) digits = refl

-- The two loops write the same digits of a positive number, with enough fuel each.
itoa_digits-digits_from :
    (fuel more n : ℕ) (digits : List ℕ)
    → 0 < n
    → n ≤ fuel
    → n < more
    → itoa_digits fuel n digits ≡ digits_from more n digits
unfolding itoa_digits digits_from
itoa_digits-digits_from zero more n digits p h k = absurd (omega arith)
itoa_digits-digits_from (suc fuel) zero n digits p h k = absurd (omega arith)
itoa_digits-digits_from (suc fuel) (suc more) n digits p h k =
    let nonzero : (n == 0) ≡ false = ground arith in
    elim (Bool-cases (ltb n 10)) [
      | inl small ↦
          let e : n / 10 ≡ 0 = ground arith in
          let f : n % 10 ≡ n = ground arith in rw (nonzero, small, e, f) (itoa_digits-zero fuel _)
      | inr large ↦
          rw (nonzero, large)
            (itoa_digits-digits_from fuel more (n / 10) ((b'0' + n % 10) ∷ digits) (ground arith)
              (omega arith) (omega arith))
    ]

itoa-nonzero : (n : ℕ) → (n == 0) ≡ false → itoa n ≡ itoa_digits n n []
unfolding itoa
itoa-nonzero n h = rw h refl

-- The planner's itoa writes what strconv.FormatInt writes: the decimal digits, without leading zeros.
pub itoa-format_int : (n : ℕ) → itoa n ≡ format_int (pos n)
unfolding itoa format_int digits_from
itoa-format_int zero = refl
itoa-format_int (suc n) =
    itoa-nonzero (suc n) (ground arith)
    ∙ itoa_digits-digits_from (suc n) (suc (suc n)) (suc n) [] (omega arith) (omega arith)
        (omega arith)

format_int_inj : (i j : ℕ) → format_int (pos i) ≡ format_int (pos j) → i ≡ j
unfolding format_int
format_int_inj i j h =
    some_inj (sym (parse_digits-formatted i) ∙ ap (parse_digits 0) h ∙ parse_digits-formatted j)

minus_inj : (s t : List ℕ) → (b'-' ∷ s) ≡ (b'-' ∷ t) → s ≡ t
minus_inj s t h = ap tail h

-- Different numbers make different IDs.
pub sub_goal_id_inj : (id : List ℕ) (i j : ℕ) → sub_goal_id id i ≡ sub_goal_id id j → i ≡ j
unfolding sub_goal_id
sub_goal_id_inj id i j h = format_int_inj i j (
    sym (itoa-format_int i)
    ∙ minus_inj _ _ (append_cancel_left (if is_empty id then codes "goal" else id) _ _ h)
    ∙ itoa-format_int j)

is_empty-append : (s t : List ℕ) (c : ℕ) → is_empty (s ++ (c ∷ t)) ≡ false
is_empty-append [] t c = refl
is_empty-append (d ∷ s) t c = refl

pub is_empty-sub_goal_id : (id : List ℕ) (i : ℕ) → is_empty (sub_goal_id id i) ≡ false
unfolding sub_goal_id
is_empty-sub_goal_id id i = is_empty-append _ (itoa i) b'-'
