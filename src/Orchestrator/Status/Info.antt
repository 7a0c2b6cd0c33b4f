-- ===== src/Orchestrator/Status/Info.antt =====
-- The queue of information for a goal, between the messages that fill it and the checkpoints that
-- drain it.
use agent_builder.Common.{
  ◌≡◌, refl, sym, ap, ◌∙◌, Bool, true, false, Option, none, some, List, [], ◌∷◌, ◌++◌, ℕ, ◌==◌,
  if◌then◌else◌, append-nil, append_assoc, ==-refl, subst, true_not_false, eq_of_==,
}
use agent_builder.Common.Int.{ℤ}
use agent_builder.Common.Text.{text_eq}
use agent_builder.Orchestrator.Status.{
  GoalStatus, StatusRegistry, status_or_new, with_state, with_progress, with_info, without_info,
  drain_info, drain_found, get, info_of, pending_info,
}
use agent_builder.Orchestrator.Status.Laws.{
  Call, registered, stated, progressed, informed, drained, handled, cancelling, perform,
  perform_all, evolve, clear, perform-some, perform-either,
}

-- No call registers the goal again: Register overwrites the entry, its queue included.
unfoldable pub NeverRegistered : {C : Type 0} → List ℕ → List (List ℕ × (ℤ × Call C)) → Type 0
unfolding text_eq
NeverRegistered id [] = Unit
NeverRegistered id ((j, (now, registered s)) ∷ cs) = ((j == id) ≡ false) × NeverRegistered id cs
NeverRegistered id (_ ∷ cs) = NeverRegistered id cs

-- What was sent to a goal, in order.
unfoldable pub sent_by : {C : Type 0} → Call C → List (List ℕ)
sent_by (informed text) = text ∷ []
sent_by _ = []

unfoldable pub sent : {C : Type 0} → List ℕ → List (List ℕ × (ℤ × Call C)) → List (List ℕ)
unfolding sent_by text_eq
sent id [] = []
sent id ((j, (now, c)) ∷ cs) = (if j == id then sent_by c else []) ++ sent id cs

-- What the drains of a goal returned, in order.
unfoldable pub taken_by :
    {C : Type 0} → List ℕ → ℤ → Call C → Option (StatusRegistry C) → List (List ℕ)
unfolding drain_info
taken_by id now drained r = (drain_info id now r).0
taken_by id now _ r = []

unfoldable pub taken :
    {C : Type 0} → List ℕ → List (List ℕ × (ℤ × Call C)) → Option (StatusRegistry C) → List (List ℕ)
unfolding taken_by perform text_eq
taken id [] r = []
taken id ((j, (now, c)) ∷ cs) r =
    (if j == id then taken_by id now c r else []) ++ taken id cs (perform (j, (now, c)) r)

info_of-clear :
    (now : ℤ) (texts : List (List ℕ)) (g : Option GoalStatus)
    → info_of g ≡ texts
    → info_of (clear texts now g) ≡ []
unfolding info_of clear without_info
info_of-clear now [] g h = h
info_of-clear now (text ∷ texts) g h = refl

info_of-status_or_new :
    (id : List ℕ) (now : ℤ) (g : Option GoalStatus)
    → (status_or_new id now g).pending_info ≡ info_of g
unfolding info_of status_or_new
info_of-status_or_new id now none = refl
info_of-status_or_new id now (some g) = refl

module _ {C : Type 0} where
  drained_found :
      (id : List ℕ) (now : ℤ) (texts : List (List ℕ)) (r : Option (StatusRegistry C))
      → (drain_found texts id now r).0 ≡ texts
  unfolding drain_found
  drained_found id now [] r = refl
  drained_found id now (text ∷ texts) r = refl

  own_info :
      (id : List ℕ) (now : ℤ) (r : StatusRegistry C)
      → (status_or_new id now (get id (some r))).pending_info ≡ info_of (get id (some r)) ++ []
  own_info id now r = info_of-status_or_new id now (get id (some r)) ∙ sym (append-nil _)

  -- One call on the goal: what it takes and what it leaves is what was there and what it brings.
  step-own :
      (id : List ℕ) (now : ℤ) (c : Call C) (r : StatusRegistry C)
      → NeverRegistered id ((id, (now, c)) ∷ [])
      → taken_by id now c (some r) ++ info_of (evolve id now c (get id (some r)))
        ≡ pending_info id (some r) ++ sent_by c
  unfolding NeverRegistered taken_by evolve sent_by pending_info info_of with_state with_progress
      with_info drain_info
  step-own id now (registered s) r (h, _) = absurd (true_not_false (sym (==-refl id) ∙ h))
  step-own id now (stated s) r h = own_info id now r
  step-own id now (progressed p) r h = own_info id now r
  step-own id now (informed text) r h =
      ap (λ q. q ++ (text ∷ [])) (info_of-status_or_new id now (get id (some r)))
  step-own id now drained r h =
      rw (info_of-clear now (info_of (get id (some r))) (get id (some r)) refl)
        (ap (λ q. q ++ []) (drained_found id now _ (some r)))
  step-own id now (handled c) r h = sym (append-nil _)
  step-own id now cancelling r h = sym (append-nil _)

  step-either :
      (id j : List ℕ) (now : ℤ) (c : Call C) (r r' : StatusRegistry C)
      → NeverRegistered id ((j, (now, c)) ∷ [])
      → perform (j, (now, c)) (some r) ≡ some r'
      → (b : Bool) → (j == id) ≡ b
      → (if b then taken_by id now c (some r) else []) ++ pending_info id (some r')
        ≡ pending_info id (some r) ++ (if b then sent_by c else [])
  unfolding pending_info
  step-either id j now c r r' never e true same = rw (perform-either id j now c r r' e true same) (
      step-own id now c r
        (subst (λ x. NeverRegistered id ((x, (now, c)) ∷ [])) (eq_of_== j id same) never))
  step-either id j now c r r' never e false other =
      ap info_of (perform-either id j now c r r' e false other) ∙ sym (append-nil _)

  -- The guard of the first call, and of the others.
  first-NeverRegistered :
      (id j : List ℕ) (now : ℤ) (c : Call C) (cs : List (List ℕ × (ℤ × Call C)))
      → NeverRegistered id ((j, (now, c)) ∷ cs)
      → NeverRegistered id ((j, (now, c)) ∷ []) × NeverRegistered id cs
  unfolding NeverRegistered
  first-NeverRegistered id j now (registered s) cs (h, k) = ((h, tt), k)
  first-NeverRegistered id j now (stated s) cs k = (tt, k)
  first-NeverRegistered id j now (progressed p) cs k = (tt, k)
  first-NeverRegistered id j now (informed text) cs k = (tt, k)
  first-NeverRegistered id j now drained cs k = (tt, k)
  first-NeverRegistered id j now (handled c) cs k = (tt, k)
  first-NeverRegistered id j now cancelling cs k = (tt, k)

  -- Over any calls that do not register the goal again, what DrainInfo returned for the goal, in
  -- order, and then what is still pending, is what was pending at first and then what was sent, in
  -- order: nothing is lost, repeated or given to another goal.
  pub taken-sent :
      (id : List ℕ) (cs : List (List ℕ × (ℤ × Call C))) (r : StatusRegistry C)
      → NeverRegistered id cs
      → taken id cs (some r) ++ pending_info id (perform_all cs (some r))
        ≡ pending_info id (some r) ++ sent id cs
  unfolding perform_all taken sent
  taken-sent id [] r never = sym (append-nil _)
  taken-sent id ((j, (now, c)) ∷ cs) r never =
      let (r', e) = perform-some j now c r in
      let (first, others) = first-NeverRegistered id j now c cs never in
      let taken_now = if j == id then taken_by id now c (some r) else [] in
      let sent_now = if j == id then sent_by c else [] in
      rw e (
        append_assoc taken_now (taken id cs (some r')) _
        ∙ ap (λ q. taken_now ++ q) (taken-sent id cs r' others)
        ∙ sym (append_assoc taken_now (pending_info id (some r')) (sent id cs))
        ∙ ap (λ q. q ++ sent id cs) (step-either id j now c r r' first e (j == id) refl)
        ∙ append_assoc (pending_info id (some r)) sent_now (sent id cs))
