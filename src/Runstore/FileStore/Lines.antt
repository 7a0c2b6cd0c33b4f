-- ===== src/Runstore/FileStore/Lines.antt =====
-- Journals as lines: what is split, and what is replayed, behind text that ends in a newline.
use agent_builder.Common.{
  ◌≡◌, refl, false, Option, none, some, List, [], ◌∷◌, ◌++◌, ℕ, ◌==◌, nat_eq, Bool-cases, inl, inr,
  All,
}
use agent_builder.Runstore.FileStore.{
  Index, Codec, onto_line, split_lines, replay_line, replay_next, replay_lines,
}

-- Text that no newline divides.
unfoldable pub IsOneLine : List ℕ → Type 0
IsOneLine = All (λ b. (b == b'\n') ≡ false)

pub split_lines-one : (s : List ℕ) → IsOneLine s → split_lines s ≡ ([], s)
unfolding split_lines onto_line IsOneLine
split_lines-one [] h = refl
split_lines-one (b ∷ s) (h, hs) = rw (h, split_lines-one s hs) refl

pub split_lines-ended : (s : List ℕ) → IsOneLine s → split_lines (s ++ (b'\n' ∷ [])) ≡ (s ∷ [], [])
unfolding split_lines onto_line IsOneLine
split_lines-ended [] h = refl
split_lines-ended (b ∷ s) (h, hs) = rw (h, split_lines-ended s hs) refl

-- The parts of a text behind text that ends in a newline.
abbrev pub behind : List (List ℕ) → List (List ℕ) × List ℕ → List (List ℕ) × List ℕ
behind ls (ms, tail) = (ls ++ ms, tail)

onto_line-behind :
    (b : ℕ) (split more : List (List ℕ) × List ℕ)
    → (onto_line b split).1 ≡ []
    → onto_line b (behind split.0 more) ≡ behind (onto_line b split).0 more
unfolding onto_line
onto_line-behind b ([], tail) more h = absurd cc
onto_line-behind b (l ∷ ls, tail) more h = refl

onto_line-ended :
    (b : ℕ) (split : List (List ℕ) × List ℕ) → (onto_line b split).1 ≡ [] → split.1 ≡ []
unfolding onto_line
onto_line-ended b ([], tail) h = absurd cc
onto_line-ended b (l ∷ ls, tail) h = h

pub split_lines-append :
    (s t : List ℕ)
    → (split_lines s).1 ≡ []
    → split_lines (s ++ t) ≡ behind (split_lines s).0 (split_lines t)
unfolding split_lines
split_lines-append [] t h = refl
split_lines-append (b ∷ s) t h = elim (Bool-cases (b == b'\n')) [
  | inl newline ↦
      let ended : (split_lines s).1 ≡ [] = rw newline at h in
      rw (newline, split_lines-append s t ended) refl
  | inr other ↦
      let ended : (onto_line b (split_lines s)).1 ≡ [] = rw other at h in
      rw (other, split_lines-append s t (onto_line-ended b (split_lines s) ended))
        (onto_line-behind b (split_lines s) (split_lines t) ended)
]

pub replay_lines-append :
    (c : Codec) (ls ms : List (List ℕ)) (index : Index)
    → replay_lines c (ls ++ ms) index ≡ replay_next (replay_lines c ls index) (replay_lines c ms)
unfolding replay_lines replay_next
replay_lines-append c [] ms index = refl
replay_lines-append c (l ∷ ls) ms index = go (replay_line c l index) (replay_lines-append c ls ms)
  where
    go :
        (o : Option Index)
        → ((later : Index)
            → replay_lines c (ls ++ ms) later
              ≡ replay_next (replay_lines c ls later) (replay_lines c ms))
        → replay_next o (replay_lines c (ls ++ ms))
          ≡ replay_next (replay_next o (replay_lines c ls)) (replay_lines c ms)
    go none rest = refl
    go (some later) rest = rest later
