-- ===== src/Telegram/Authz/Ids.antt =====
-- Sender IDs: `Normalize` of authz.go, and the functions of strconv that it and its callers use.
use Prim.Native.Nat.{◌/◌, ◌%◌}
use agent_builder.Common.{
  Bool, true, false, Option, none, some, List, [], ◌∷◌, ℕ, zero, suc, ◌+◌, ◌-◌, ◌*◌, ◌^◌, ltb, leb,
  ◌==◌, ◌&&◌, nat_eq, if◌then◌else◌,
}
use agent_builder.Common.Int.{ℤ, pos, negsuc, sub_ℕ}
use agent_builder.Common.Text.{trim_space, is_empty}

unfoldable pub is_digit : ℕ → Bool
is_digit c = leb b'0' c && leb c b'9'

-- The value of a run of digits behind the value read so far.
unfoldable pub parse_digits : ℕ → List ℕ → Option ℕ
unfolding is_digit
parse_digits acc [] = some acc
parse_digits acc (c ∷ s) =
    let rest = parse_digits (acc * 10 + (c - b'0')) s in if is_digit c then rest else none

-- int64: -2^63 to 2^63 - 1.
unfoldable pub in_int64 : Bool → Option ℕ → Option ℤ
in_int64 negative none = none
in_int64 false (some n) = if ltb n (2 ^ 63) then some (pos n) else none
in_int64 true (some n) = if leb n (2 ^ 63) then some (sub_ℕ 0 n) else none

unfoldable pub parse_signed : Bool → List ℕ → Option ℤ
unfolding in_int64 parse_digits
parse_signed negative [] = none
parse_signed negative (c ∷ s) = in_int64 negative (parse_digits 0 (c ∷ s))

-- strconv.ParseInt(s, 10, 64)
unfoldable pub parse_int : List ℕ → Option ℤ
unfolding parse_signed nat_eq
parse_int [] = none
parse_int (c ∷ s) =
    if c == b'+'
    then parse_signed false s
    else if c == b'-'
    then parse_signed true s
    else parse_signed false (c ∷ s)

unfoldable pub normalize : List ℕ → Option ℤ
unfolding parse_int trim_space
normalize raw = let trimmed = trim_space raw in if is_empty trimmed then none else parse_int trimmed

-- The decimal digits of `n` before `rest`; the fuel exceeds `n`.
unfoldable pub digits_from : ℕ → ℕ → List ℕ → List ℕ
digits_from zero n rest = rest
digits_from (suc fuel) n rest =
    let more = digits_from fuel (n / 10) ((b'0' + n % 10) ∷ rest) in
    if ltb n 10 then (b'0' + n) ∷ rest else more

-- strconv.FormatInt(i, 10)
unfoldable pub format_int : ℤ → List ℕ
unfolding digits_from
format_int (pos n) = digits_from (suc n) n []
format_int (negsuc n) = b'-' ∷ digits_from (suc (suc n)) (suc n) []
