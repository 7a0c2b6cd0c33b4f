-- ===== src/Telegram/Derive/Laws.antt =====
-- How replies find their goal.
use agent_builder.Common.{
  ◌≡◌, ◌≢◌, ◌⊎◌, refl, ap, sym, ◌∙◌, some, List, [], ◌∷◌, ℕ, ◌==◌, ==-refl, eq_of_==, arith, inl,
  inr, Bool-cases, if◌then◌else◌,
}
use agent_builder.Common.Int.{ℤ}
use agent_builder.Common.Map.{Map, lookup, lookup-insert}
use agent_builder.Common.Text.{text_eq}
use agent_builder.Telegram.Authz.Ids.{normalize, format_int}
use agent_builder.Telegram.Authz.IdLaws.{InInt64, normalize-format_int}
use agent_builder.Telegram.Authz.Decide.{to_lower}
use agent_builder.Telegram.Message.{Message, Derived, new_goal}
use agent_builder.Telegram.Derive.{
  text_or_empty, reply_goal, fresh_goal_id, as_new_goal, by_verb, derive_message, split_verb,
}

-- A text becomes a new goal, which is entered under the message's ID, or leaves the cache as it is.
by_verb_lem :
    (verb rest reply : List ℕ) (m : Message) (text : List ℕ) (cache : Map (List ℕ) (List ℕ))
    → (by_verb verb rest reply m text cache ≡ as_new_goal m text cache)
      ⊎ (((by_verb verb rest reply m text cache).1 ≡ cache)
          × ((by_verb verb rest reply m text cache).0.kind ≢ new_goal))
unfolding by_verb
by_verb_lem verb rest reply m text cache = ground arith

derive_lem :
    (m : Message) (text : List ℕ) (cache : Map (List ℕ) (List ℕ))
    → (derive_message m text cache ≡ as_new_goal m text cache)
      ⊎ (((derive_message m text cache).1 ≡ cache)
          × ((derive_message m text cache).0.kind ≢ new_goal))
unfolding derive_message
derive_lem m text cache =
    by_verb_lem (to_lower (split_verb text).0) (split_verb text).1 (reply_goal cache m.reply_to) m
      text cache

-- Messages handled one after the other.
unfoldable pub derive_all : List (Message × List ℕ) → Map (List ℕ) (List ℕ) → Map (List ℕ) (List ℕ)
unfolding derive_message
derive_all [] cache = cache
derive_all ((m, text) ∷ ms) cache = derive_all ms (derive_message m text cache).1

-- Each has an int64 as its ID, and another than `id`.
abbrev pub OtherIds : ℤ → List (Message × List ℕ) → Type 0
OtherIds id [] = Unit
OtherIds id ((m, text) ∷ ms) = InInt64 m.message_id × (m.message_id ≢ id) × OtherIds id ms

format_int-injective : (i j : ℤ) → InInt64 i → InInt64 j → format_int i ≡ format_int j → i ≡ j
format_int-injective i j hi hj e =
    some_inj (sym (normalize-format_int i hi) ∙ ap normalize e ∙ normalize-format_int j hj)
  where
    some_inj : some i ≡ some j → i ≡ j
    some_inj h = cc

new_goal-reply :
    (m : Message) (text : List ℕ) (cache : Map (List ℕ) (List ℕ))
    → reply_goal (as_new_goal m text cache).1 (some m.message_id) ≡ fresh_goal_id m
unfolding reply_goal as_new_goal text_or_empty
new_goal-reply m text cache =
    rw
      (
        lookup-insert (format_int m.message_id) (format_int m.message_id) (fresh_goal_id m) cache,
        ==-refl (format_int m.message_id),
      )
      refl

new_goal-other :
    (m : Message) (text : List ℕ) (cache : Map (List ℕ) (List ℕ)) (id : ℤ)
    → InInt64 m.message_id
    → InInt64 id
    → m.message_id ≢ id
    → reply_goal (as_new_goal m text cache).1 (some id) ≡ reply_goal cache (some id)
unfolding reply_goal as_new_goal
new_goal-other m text cache id hm hi differ =
    elim (Bool-cases (format_int m.message_id == format_int id)) [
      | inl same ↦ absurd (differ (format_int-injective m.message_id id hm hi (eq_of_== _ _ same)))
      | inr other ↦ ap text_or_empty (
          lookup-insert (format_int id) (format_int m.message_id) (fresh_goal_id m) cache
          ∙ ap (λ b. if b then some (fresh_goal_id m) else lookup (format_int id) cache) other)
    ]

derive-other :
    (m : Message) (text : List ℕ) (cache : Map (List ℕ) (List ℕ)) (id : ℤ)
    → InInt64 m.message_id
    → InInt64 id
    → m.message_id ≢ id
    → reply_goal (derive_message m text cache).1 (some id) ≡ reply_goal cache (some id)
derive-other m text cache id hm hi differ = elim (derive_lem m text cache) [
  | inl e ↦
      ap (λ (d : Derived × Map (List ℕ) (List ℕ)). reply_goal d.1 (some id)) e
      ∙ new_goal-other m text cache id hm hi differ
  | inr (e, _) ↦ ap (λ c. reply_goal c (some id)) e
]

derive_all-other :
    (ms : List (Message × List ℕ)) (cache : Map (List ℕ) (List ℕ)) (id : ℤ)
    → InInt64 id
    → OtherIds id ms
    → reply_goal (derive_all ms cache) (some id) ≡ reply_goal cache (some id)
unfolding derive_all
derive_all-other [] cache id hi h = refl
derive_all-other ((m, text) ∷ ms) cache id hi (hm, differ, others) =
    derive_all-other ms (derive_message m text cache).1 id hi others
    ∙ derive-other m text cache id hm hi differ

-- After a message that became a new goal, and any messages with other IDs, a reply to it finds the goal
-- ID that was made for it.
pub reply_finds_goal :
    (m : Message) (text : List ℕ) (cache : Map (List ℕ) (List ℕ)) (ms : List (Message × List ℕ))
    → InInt64 m.message_id
    → (derive_message m text cache).0.kind ≡ new_goal
    → OtherIds m.message_id ms
    → reply_goal (derive_all ms (derive_message m text cache).1) (some m.message_id)
      ≡ fresh_goal_id m
reply_finds_goal m text cache ms hm new others = elim (derive_lem m text cache) [
  | inl e ↦
      derive_all-other ms (derive_message m text cache).1 m.message_id hm others
      ∙ ap (λ (d : Derived × Map (List ℕ) (List ℕ)). reply_goal d.1 (some m.message_id)) e
      ∙ new_goal-reply m text cache
  | inr (_, old) ↦ absurd (old new)
]

-- Where a second message has the ID of the first, as messages of two chats can, and both became new
-- goals, a reply to either finds the goal of the second.
pub reply_crosses_chats :
    (m m' : Message) (text text' : List ℕ) (cache : Map (List ℕ) (List ℕ))
    → m'.message_id ≡ m.message_id
    → (derive_message m' text' (derive_message m text cache).1).0.kind ≡ new_goal
    → reply_goal (derive_message m' text' (derive_message m text cache).1).1 (some m.message_id)
      ≡ fresh_goal_id m'
reply_crosses_chats m m' text text' cache same new =
    elim (derive_lem m' text' (derive_message m text cache).1) [
      | inl e ↦
          ap
            (λ id. reply_goal (derive_message m' text' (derive_message m text cache).1).1 (some id))
            (sym same)
          ∙ ap (λ (d : Derived × Map (List ℕ) (List ℕ)). reply_goal d.1 (some m'.message_id)) e
          ∙ new_goal-reply m' text' (derive_message m text cache).1
      | inr (_, old) ↦ absurd (old new)
    ]
