-- ===== src/Loop/Truncate.antt =====
-- How `truncate_at_rune` cuts the output of a step.
use agent_builder.Common.{
  ◌≡◌, refl, ap, true, false, List, [], ◌∷◌, ◌++◌, arith, ℕ, zero, suc, ◌≤◌, length, length-append,
  All,
}
use agent_builder.Loop.Format.{take, is_continuation, drop_continuations, truncate_at_rune}
use mathlib.Core.List.{reverse, reverse-append, reverse-cons, reverse-reverse, append_assoc}

abbrev IsContinuations : List ℕ → Type 0
IsContinuations = All (λ b. is_continuation b ≡ true)

length-reverse : (s : List ℕ) → length (reverse s) ≡ length s
length-reverse [] = refl
length-reverse (b ∷ s) =
    omega
      (arith, ap length (reverse-cons b s), length-append (reverse s) (b ∷ []), length-reverse s)

length-take : (n : ℕ) (s : List ℕ) → length (take n s) ≤ n
length-take zero s = omega arith
length-take (suc n) [] = omega arith
length-take (suc n) (b ∷ s) = omega (arith, length-take n s)

length-drop_continuations : (s : List ℕ) → length (drop_continuations s) ≤ length s
unfolding drop_continuations
length-drop_continuations [] = omega arith
length-drop_continuations (b ∷ s) = ground (arith, length-drop_continuations s)

-- The result never has more bytes than the cap.
pub length-truncate_at_rune : (s : List ℕ) (cap : ℕ) → length (truncate_at_rune s cap) ≤ cap
unfolding truncate_at_rune
length-truncate_at_rune s cap = ground (
  arith,
  length-reverse (drop_continuations (reverse (take cap s))),
  length-drop_continuations (reverse (take cap s)),
  length-reverse (take cap s),
  length-take cap s,
)

take-length-append : (s t : List ℕ) → take (length s) (s ++ t) ≡ s
take-length-append [] t = refl
take-length-append (b ∷ s) t = ap (◌∷◌ b) (take-length-append s t)

drop-append :
    (conts t : List ℕ)
    → IsContinuations conts
    → drop_continuations (conts ++ t) ≡ drop_continuations t
unfolding drop_continuations
drop-append [] t h = refl
drop-append (b ∷ conts) t h = rw h.0 (drop-append conts t h.1)

All-append-one :
    (s : List ℕ) (b : ℕ)
    → IsContinuations s
    → is_continuation b ≡ true
    → IsContinuations (s ++ b ∷ [])
All-append-one [] b h e = (e, tt)
All-append-one (c ∷ s) b h e = (h.0, All-append-one s b h.1 e)

All-reverse : (s : List ℕ) → IsContinuations s → IsContinuations (reverse s)
All-reverse [] h = tt
All-reverse (b ∷ s) h = rw reverse-cons (All-append-one (reverse s) b (All-reverse s h.1) h.0)

drop-lead :
    (lead : ℕ) (t : List ℕ)
    → is_continuation lead ≡ false
    → drop_continuations (lead ∷ t) ≡ lead ∷ t
unfolding drop_continuations
drop-lead lead t h = rw h

reverse-split :
    (a conts : List ℕ) (lead : ℕ)
    → reverse (a ++ lead ∷ conts) ≡ reverse conts ++ (lead ∷ reverse a)
reverse-split a conts lead =
    rw (reverse-append a (lead ∷ conts), reverse-cons lead conts)
      (append_assoc (reverse conts) (lead ∷ []) (reverse a))

cut-lead :
    (a conts : List ℕ) (lead : ℕ)
    → is_continuation lead ≡ false
    → IsContinuations conts
    → reverse (drop_continuations (reverse (a ++ lead ∷ conts))) ≡ a ++ lead ∷ []
cut-lead a conts lead h c = rw (
  reverse-split a conts lead,
  drop-append (reverse conts) (lead ∷ reverse a) (All-reverse conts c),
  drop-lead lead (reverse a) h,
  reverse-cons lead (reverse a),
  reverse-reverse a,
)

lead_not_continuation : (lead : ℕ) → 0xc0 ≤ lead → is_continuation lead ≡ false
unfolding is_continuation
lead_not_continuation lead h = ground arith

-- Where the cap falls behind the lead byte of a character of several bytes and some of its
-- continuation bytes, all of them or not, the continuation bytes go and the lead byte stays: the
-- result ends in a lead byte with nothing behind it, which is no UTF-8 text.
pub truncate_at_rune-splits :
    (a conts rest : List ℕ) (lead last : ℕ)
    → 0xc0 ≤ lead
    → All (λ b. is_continuation b ≡ true) conts
    → let s = (a ++ lead ∷ conts) ++ last ∷ rest in
      truncate_at_rune s (length (a ++ lead ∷ conts)) ≡ a ++ lead ∷ []
unfolding truncate_at_rune
truncate_at_rune-splits a conts rest lead last h c = ground (
  arith,
  length-append (a ++ lead ∷ conts) (last ∷ rest),
  take-length-append (a ++ lead ∷ conts) (last ∷ rest),
  cut-lead a conts lead (lead_not_continuation lead h) c,
)
