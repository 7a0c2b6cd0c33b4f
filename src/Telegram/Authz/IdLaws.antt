-- ===== src/Telegram/Authz/IdLaws.antt =====
-- The formatting of a sender ID makes no difference.
use Prim.Native.Nat.{◌/◌, ◌%◌}
use agent_builder.Common.{
  ◌≡◌, refl, ap, Bool, true, false, some, List, [], ◌∷◌, ◌++◌, ℕ, zero, suc, ◌+◌, ◌-◌, ◌*◌, ◌^◌,
  ◌<◌, ltb, nat_eq, arith, All, inl, inr, Bool-cases, ◌∙◌,
}
use agent_builder.Common.Int.{ℤ, pos, negsuc}
use agent_builder.Common.Text.{is_space, trim_left, trim_right, trim_space, is_empty}
use agent_builder.Telegram.Authz.Ids.{
  is_digit, parse_digits, in_int64, parse_signed, parse_int, normalize, digits_from, format_int,
}

digit_of_lt : (d : ℕ) → d < 10 → is_digit (b'0' + d) ≡ true
unfolding is_digit
digit_of_lt d h = ground arith

parse_digits-digit :
    (acc d : ℕ) (rest : List ℕ)
    → d < 10
    → parse_digits acc ((b'0' + d) ∷ rest) ≡ parse_digits (acc * 10 + d) rest
unfolding parse_digits
parse_digits-digit acc d rest h =
    let e : b'0' + d - b'0' ≡ d = omega arith in
    let t : is_digit (b'0' + d) ≡ true = digit_of_lt d h in rw (t, e)

-- Reading what `digits_from` writes.
parse_digits-digits_from :
    (fuel n : ℕ) (rest : List ℕ)
    → n < fuel
    → parse_digits 0 (digits_from fuel n rest) ≡ parse_digits n rest
unfolding digits_from
parse_digits-digits_from zero n rest h = absurd (omega arith)
parse_digits-digits_from (suc fuel) n rest h = elim (Bool-cases (ltb n 10)) [
  | inl small ↦
      rw small
        (parse_digits-digit 0 n rest (ground arith) ∙ ap (λ m. parse_digits m rest) (omega arith))
  | inr large ↦ rw large (
      parse_digits-digits_from fuel (n / 10) ((b'0' + n % 10) ∷ rest) (ground arith)
      ∙ parse_digits-digit (n / 10) (n % 10) rest (omega arith)
      ∙ ap (λ m. parse_digits m rest) (omega arith))
]

abbrev AreDigits : List ℕ → Type 0
AreDigits = All (λ c. is_digit c ≡ true)

abbrev AreSpaces : List ℕ → Type 0
AreSpaces = All (λ c. is_space c ≡ true)

digits_from-AreDigits :
    (fuel n : ℕ) (rest : List ℕ) → AreDigits rest → AreDigits (digits_from fuel n rest)
unfolding digits_from
digits_from-AreDigits zero n rest h = h
digits_from-AreDigits (suc fuel) n rest h = elim (Bool-cases (ltb n 10)) [
  | inl small ↦ rw small (digit_of_lt n (ground arith), h)
  | inr large ↦
      rw large (digits_from-AreDigits fuel (n / 10) _ (digit_of_lt (n % 10) (omega arith), h))
]

digits_from-cons : (fuel n c : ℕ) (rest : List ℕ) → is_empty (digits_from fuel n (c ∷ rest)) ≡ false
unfolding digits_from
digits_from-cons zero n c rest = refl
digits_from-cons (suc fuel) n c rest =
    ground (arith, digits_from-cons fuel (n / 10) (b'0' + n % 10) (c ∷ rest))

digits_from-ne_nil : (fuel n : ℕ) → is_empty (digits_from (suc fuel) n []) ≡ false
unfolding digits_from
digits_from-ne_nil fuel n = ground (arith, digits_from-cons fuel (n / 10) (b'0' + n % 10) [])

digit_not_space : (c : ℕ) → is_digit c ≡ true → is_space c ≡ false
unfolding is_digit is_space
digit_not_space c h = ground arith

trim_left-digits : (s : List ℕ) → AreDigits s → trim_left s ≡ s
unfolding trim_left
trim_left-digits [] h = refl
trim_left-digits (c ∷ s) h = rw (digit_not_space c h.0)

trim_right-digits : (s : List ℕ) → AreDigits s → trim_right s ≡ s
unfolding trim_right
trim_right-digits [] h = refl
trim_right-digits (c ∷ []) h = rw (digit_not_space c h.0)
trim_right-digits (c ∷ d ∷ s) h = ground (arith, trim_right-digits (d ∷ s) h.1)

trim_left-spaces : (l s : List ℕ) → AreSpaces l → trim_left (l ++ s) ≡ trim_left s
unfolding trim_left
trim_left-spaces [] s h = refl
trim_left-spaces (c ∷ l) s h = rw h.0 (trim_left-spaces l s h.1)

trim_right-all : (r : List ℕ) → AreSpaces r → trim_right r ≡ []
unfolding trim_right
trim_right-all [] h = refl
trim_right-all (c ∷ r) h = rw (trim_right-all r h.1, h.0)

trim_right-spaces : (s r : List ℕ) → AreSpaces r → trim_right (s ++ r) ≡ trim_right s
unfolding trim_right
trim_right-spaces [] r h = trim_right-all r h
trim_right-spaces (c ∷ s) r h = rw (trim_right-spaces s r h)

trim_left-all : (r : List ℕ) → AreSpaces r → trim_left r ≡ []
unfolding trim_left
trim_left-all [] h = refl
trim_left-all (c ∷ r) h = rw h.0 (trim_left-all r h.1)

trim_both-spaces :
    (s r : List ℕ) → AreSpaces r → trim_right (trim_left (s ++ r)) ≡ trim_right (trim_left s)
unfolding trim_left
trim_both-spaces [] r h = ap trim_right (trim_left-all r h)
trim_both-spaces (c ∷ s) r h = elim (Bool-cases (is_space c)) [
  | inl space ↦ rw space (trim_both-spaces s r h)
  | inr other ↦ rw other (trim_right-spaces (c ∷ s) r h)
]

-- Spaces around a raw sender ID make no difference to `Normalize`.
pub normalize_padded :
    (l s r : List ℕ)
    → All (λ c. is_space c ≡ true) l
    → All (λ c. is_space c ≡ true) r
    → normalize (l ++ (s ++ r)) ≡ normalize s
unfolding normalize
normalize_padded l s r hl hr =
    let e : trim_space (l ++ (s ++ r)) ≡ trim_space s =
      unfold trim_space in
      ap trim_right (trim_left-spaces l (s ++ r) hl) ∙ trim_both-spaces s r hr in
    rw e

trim-digits : (s : List ℕ) → AreDigits s → trim_space s ≡ s
unfolding trim_space
trim-digits s h = ap trim_right (trim_left-digits s h) ∙ trim_right-digits s h

parse_int-digits :
    (s : List ℕ)
    → AreDigits s
    → is_empty s ≡ false
    → parse_int s ≡ in_int64 false (parse_digits 0 s)
unfolding parse_int is_digit
parse_int-digits [] h e = cc
parse_int-digits (c ∷ s) h e = ground (arith, h.0)

normalize-digits :
    (s : List ℕ)
    → AreDigits s
    → is_empty s ≡ false
    → normalize s ≡ in_int64 false (parse_digits 0 s)
unfolding normalize
normalize-digits s h e = rw (trim-digits s h, e) (parse_int-digits s h e)

pub parse_digits-formatted : (n : ℕ) → parse_digits 0 (digits_from (suc n) n []) ≡ some n
unfolding parse_digits
parse_digits-formatted n = parse_digits-digits_from (suc n) n [] (omega arith)

minus-trimmed : (s : List ℕ) → AreDigits s → trim_space (b'-' ∷ s) ≡ b'-' ∷ s
unfolding trim_space trim_left trim_right is_space
minus-trimmed [] h = refl
minus-trimmed (c ∷ s) h = rw (trim_right-digits (c ∷ s) h) refl

parse_signed-digits :
    (negative : Bool) (s : List ℕ)
    → is_empty s ≡ false
    → parse_signed negative s ≡ in_int64 negative (parse_digits 0 s)
unfolding parse_signed
parse_signed-digits negative [] e = cc
parse_signed-digits negative (c ∷ s) e = refl

minus_parsed : (s : List ℕ) → parse_int (b'-' ∷ s) ≡ parse_signed true s
unfolding parse_int
minus_parsed s = refl

-- The numbers that an int64 holds.
unfoldable pub InInt64 : ℤ → Type 0
InInt64 (pos n) = n < 2 ^ 63
InInt64 (negsuc n) = n < 2 ^ 63

in_int64-neg : (n : ℕ) → n < 2 ^ 63 → in_int64 true (some (suc n)) ≡ some (negsuc n)
unfolding in_int64
in_int64-neg n h = ground arith

in_int64-pos : (n : ℕ) → n < 2 ^ 63 → in_int64 false (some n) ≡ some (pos n)
unfolding in_int64
in_int64-pos n h = ground arith

minus-normalized : (s : List ℕ) → AreDigits s → normalize (b'-' ∷ s) ≡ parse_signed true s
unfolding normalize
minus-normalized s h = rw (minus-trimmed s h) (minus_parsed s)

-- Normalize reads every int64 back from what FormatInt writes.
pub normalize-format_int : (id : ℤ) → InInt64 id → normalize (format_int id) ≡ some id
unfolding format_int InInt64
normalize-format_int (pos n) h =
    let digits = digits_from-AreDigits (suc n) n [] tt in
    normalize-digits _ digits (digits_from-ne_nil n n)
    ∙ ap (in_int64 false) (parse_digits-formatted n)
    ∙ in_int64-pos n h
normalize-format_int (negsuc n) h =
    let digits = digits_from-AreDigits (suc (suc n)) (suc n) [] tt in
    minus-normalized _ digits
    ∙ parse_signed-digits true _ (digits_from-ne_nil (suc n) (suc n))
    ∙ ap (in_int64 true) (parse_digits-formatted (suc n))
    ∙ in_int64-neg n h

-- `k` zeros before `s`.
unfoldable pub zeros : ℕ → List ℕ → List ℕ
zeros zero s = s
zeros (suc k) s = b'0' ∷ zeros k s

zeros-AreDigits : (k : ℕ) (s : List ℕ) → AreDigits s → AreDigits (zeros k s)
unfolding zeros is_digit
zeros-AreDigits zero s h = h
zeros-AreDigits (suc k) s h = (refl, zeros-AreDigits k s h)

zeros-ne_nil : (k : ℕ) (s : List ℕ) → is_empty s ≡ false → is_empty (zeros k s) ≡ false
unfolding zeros
zeros-ne_nil zero s h = h
zeros-ne_nil (suc k) s h = refl

parse_digits-zeros : (k : ℕ) (s : List ℕ) → parse_digits 0 (zeros k s) ≡ parse_digits 0 s
unfolding zeros
parse_digits-zeros zero s = refl
parse_digits-zeros (suc k) s =
    parse_digits-digit 0 0 (zeros k s) (omega arith) ∙ parse_digits-zeros k s

-- Normalize reads an ID from its decimal digits, whatever number of zeros stands before them and
-- whatever spaces stand around them.
pub normalize-padded :
    (n k : ℕ) (l r : List ℕ)
    → n < 2 ^ 63
    → All (λ c. is_space c ≡ true) l
    → All (λ c. is_space c ≡ true) r
    → normalize (l ++ (zeros k (format_int (pos n)) ++ r)) ≡ some (pos n)
unfolding format_int
normalize-padded n k l r h hl hr =
    let digits = digits_from-AreDigits (suc n) n [] tt in
    normalize_padded l _ r hl hr
    ∙ normalize-digits _ (zeros-AreDigits k _ digits) (zeros-ne_nil k _ (digits_from-ne_nil n n))
    ∙ ap (in_int64 false) (parse_digits-zeros k _ ∙ parse_digits-formatted n)
    ∙ in_int64-pos n h
