-- ===== src/Orchestrator/Status/Laws.antt =====
-- What a status query reads after any calls of the status registry.
use agent_builder.Common.{
  ◌≡◌, refl, sym, ap, ◌∙◌, Bool, true, false, Option, none, some, List, [], ◌∷◌, ℕ, ◌==◌, ==-refl,
  if◌then◌else◌, eq_of_==, subst,
}
use agent_builder.Common.Int.{ℤ}
use agent_builder.Common.Map.{lookup, lookup-insert}
use agent_builder.Common.Text.{text_eq}
use agent_builder.Orchestrator.Status.{
  GoalState, GoalStatus, SubGoalProgress, StatusRegistry, new_status, status_or_new, change_goal,
  register, set_state, set_sub_goal, with_state, with_progress, with_info, without_info,
  enqueue_info, drain_info, drain_found, get, info_of, pending_info, set_cancel_func, cancel,
}

-- The calls that write to the registry. Each carries the goal and its clock reading.
pub data Call (C : Type 0) : Type 0 where
  registered : GoalState → Call C
  stated : GoalState → Call C
  progressed : SubGoalProgress → Call C
  informed : List ℕ → Call C
  drained : Call C
  handled : Option C → Call C
  cancelling : Call C

-- One call, on the registry: the goal, the clock reading and what is called.
unfoldable pub perform :
    {C : Type 0} → List ℕ × (ℤ × Call C) → Option (StatusRegistry C) → Option (StatusRegistry C)
perform (id, (now, registered s)) r = register id s now r
perform (id, (now, stated s)) r = set_state id s now r
perform (id, (now, progressed p)) r = set_sub_goal id p now r
perform (id, (now, informed text)) r = enqueue_info id text now r
perform (id, (now, drained)) r = (drain_info id now r).1
perform (id, (now, handled c)) r = set_cancel_func id c r
perform (id, (now, cancelling)) r = (cancel id r).1

unfoldable pub perform_all :
    {C : Type 0}
    → List (List ℕ × (ℤ × Call C))
    → Option (StatusRegistry C)
    → Option (StatusRegistry C)
unfolding perform
perform_all [] r = r
perform_all (c ∷ cs) r = perform_all cs (perform c r)

-- The abstract registry: one goal, that nobody else touches.
unfoldable pub clear : List (List ℕ) → ℤ → Option GoalStatus → Option GoalStatus
unfolding without_info status_or_new
clear [] now g = g
clear (text ∷ texts) now g = some (without_info (status_or_new [] now g))

unfoldable pub evolve : {C : Type 0} → List ℕ → ℤ → Call C → Option GoalStatus → Option GoalStatus
unfolding new_status status_or_new with_state with_progress with_info clear info_of
evolve id now (registered s) g = some (new_status id s now)
evolve id now (stated s) g = some (with_state s (status_or_new id now g))
evolve id now (progressed p) g = some (with_progress p (status_or_new id now g))
evolve id now (informed text) g = some (with_info text (status_or_new id now g))
evolve id now drained g = clear (info_of g) now g
evolve id now (handled c) g = g
evolve id now cancelling g = g

-- The calls on one goal alone, replayed on its status.
unfoldable pub replay :
    {C : Type 0} → List ℕ → List (List ℕ × (ℤ × Call C)) → Option GoalStatus → Option GoalStatus
unfolding text_eq evolve
replay id [] g = g
replay id ((j, (now, c)) ∷ cs) g = replay id cs (if j == id then evolve id now c g else g)

module _ {C : Type 0} where
  get-change_goal :
      (id j : List ℕ) (now : ℤ) (f : GoalStatus → GoalStatus) (r : StatusRegistry C)
      → get id (change_goal j now f (some r))
        ≡ (if j == id then some (f (status_or_new j now (lookup j r.goals))) else lookup id r.goals)
  unfolding get change_goal
  get-change_goal id j now f r = lookup-insert id j _ r.goals

  change_same :
      (id : List ℕ) (now : ℤ) (f : GoalStatus → GoalStatus) (r : StatusRegistry C)
      → get id (change_goal id now f (some r)) ≡ some (f (status_or_new id now (lookup id r.goals)))
  unfolding get change_goal
  change_same id now f r = get-change_goal id id now f r ∙ (rw (==-refl id) refl)

  change_other :
      (id j : List ℕ) (now : ℤ) (f : GoalStatus → GoalStatus) (r : Option (StatusRegistry C))
      → (j == id) ≡ false
      → get id (change_goal j now f r) ≡ get id r
  unfolding get change_goal
  change_other id j now f none h = refl
  change_other id j now f (some r) h = get-change_goal id j now f r ∙ (rw h refl)

  drain-other :
      (id j : List ℕ) (now : ℤ) (texts : List (List ℕ)) (r : Option (StatusRegistry C))
      → (j == id) ≡ false
      → get id (drain_found texts j now r).1 ≡ get id r
  unfolding drain_found
  drain-other id j now [] r h = refl
  drain-other id j now (text ∷ texts) r h = change_other id j now without_info r h

  drain-same :
      (id : List ℕ) (now : ℤ) (texts : List (List ℕ)) (r : StatusRegistry C) (g : Option GoalStatus)
      → get id (some r) ≡ g
      → info_of g ≡ texts
      → get id (drain_found texts id now (some r)).1 ≡ clear texts now g
  unfolding drain_found clear info_of get status_or_new
  drain-same id now [] r g e h = e
  drain-same id now (text ∷ texts) r none e h = absurd cc
  drain-same id now (text ∷ texts) r (some g) e h = change_same id now without_info r ∙ (rw e refl)

  -- A call on another goal leaves the status as it is.
  perform-other :
      (id j : List ℕ) (now : ℤ) (c : Call C) (r : StatusRegistry C)
      → (j == id) ≡ false
      → get id (perform (j, (now, c)) (some r)) ≡ get id (some r)
  unfolding perform get register set_state set_sub_goal enqueue_info drain_info set_cancel_func
      cancel
  perform-other id j now (registered s) r h = lookup-insert id j _ r.goals ∙ (rw h refl)
  perform-other id j now (stated s) r h = change_other id j now (with_state s) (some r) h
  perform-other id j now (progressed p) r h = change_other id j now (with_progress p) (some r) h
  perform-other id j now (informed text) r h = change_other id j now (with_info text) (some r) h
  perform-other id j now drained r h = drain-other id j now _ (some r) h
  perform-other id j now (handled none) r h = refl
  perform-other id j now (handled (some c)) r h = refl
  perform-other id j now cancelling r h = refl

  -- A call on the goal itself acts on its status as `evolve` says.
  perform-same :
      (id : List ℕ) (now : ℤ) (c : Call C) (r : StatusRegistry C)
      → get id (perform (id, (now, c)) (some r)) ≡ evolve id now c (get id (some r))
  unfolding perform evolve get register set_state set_sub_goal enqueue_info drain_info
      set_cancel_func cancel pending_info
  perform-same id now (registered s) r = lookup-insert id id _ r.goals ∙ (rw (==-refl id) refl)
  perform-same id now (stated s) r = change_same id now (with_state s) r
  perform-same id now (progressed p) r = change_same id now (with_progress p) r
  perform-same id now (informed text) r = change_same id now (with_info text) r
  perform-same id now drained r = drain-same id now _ r (get id (some r)) refl refl
  perform-same id now (handled none) r = refl
  perform-same id now (handled (some c)) r = refl
  perform-same id now cancelling r = refl

  drained-some :
      (id : List ℕ) (now : ℤ) (texts : List (List ℕ)) (r : StatusRegistry C)
      → (r' : StatusRegistry C) × ((drain_found texts id now (some r)).1 ≡ some r')
  unfolding drain_found change_goal
  drained-some id now [] r = (r, refl)
  drained-some id now (text ∷ texts) r = (_, refl)

  -- A registry stays a registry.
  pub perform-some :
      (j : List ℕ) (now : ℤ) (c : Call C) (r : StatusRegistry C)
      → (r' : StatusRegistry C) × (perform (j, (now, c)) (some r) ≡ some r')
  unfolding perform register set_state set_sub_goal enqueue_info drain_info drain_found
      set_cancel_func cancel change_goal
  perform-some j now (registered s) r = (_, refl)
  perform-some j now (stated s) r = (_, refl)
  perform-some j now (progressed p) r = (_, refl)
  perform-some j now (informed text) r = (_, refl)
  perform-some j now drained r = drained-some j now _ r
  perform-some j now (handled none) r = (_, refl)
  perform-some j now (handled (some c)) r = (_, refl)
  perform-some j now cancelling r = (_, refl)

  pub perform-either :
      (id j : List ℕ) (now : ℤ) (c : Call C) (r r' : StatusRegistry C)
      → perform (j, (now, c)) (some r) ≡ some r'
      → (b : Bool) → (j == id) ≡ b
      → get id (some r') ≡ (if b then evolve id now c (get id (some r)) else get id (some r))
  perform-either id j now c r r' e true same =
      let eq = eq_of_== j id same in
      ap (get id) (sym e)
      ∙ subst (λ x. get id (perform (x, (now, c)) (some r)) ≡ evolve id now c (get id (some r)))
          (sym eq) (perform-same id now c r)
  perform-either id j now c r r' e false other =
      ap (get id) (sym e) ∙ perform-other id j now c r other

  -- After any calls, a status query for a goal reads what the calls on that goal alone, in their
  -- order, make of the status it had.
  pub get-perform_all :
      (id : List ℕ) (cs : List (List ℕ × (ℤ × Call C))) (r : StatusRegistry C)
      → get id (perform_all cs (some r)) ≡ replay id cs (get id (some r))
  unfolding perform_all replay
  get-perform_all id [] r = refl
  get-perform_all id ((j, (now, c)) ∷ cs) r =
      let (r', e) = perform-some j now c r in
      rw e (
        get-perform_all id cs r'
        ∙ ap (replay id cs) (perform-either id j now c r r' e (j == id) refl))
