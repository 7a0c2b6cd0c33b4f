-- ===== src/Orchestrator/Status/Cancels.antt =====
-- A goal is cancelled at most once.
use agent_builder.Common.{
  ◌≡◌, refl, sym, ap, ◌∙◌, Option, none, some, List, [], ◌∷◌, ℕ, ◌==◌, ==-refl, false, Bool-cases,
  inl, inr, if◌then◌else◌,
}
use agent_builder.Common.Int.{ℤ}
use agent_builder.Common.Map.{lookup, lookup-insert, lookup-delete}
use agent_builder.Common.Text.{text_eq}
use agent_builder.Orchestrator.Status.{
  StatusRegistry, register, set_state, set_sub_goal, enqueue_info, drain_info, drain_found,
  change_goal, set_cancel_func, cancel,
}
use agent_builder.Orchestrator.Status.Laws.{
  Call, registered, stated, progressed, informed, drained, handled, cancelling, perform,
  perform_all, perform-some,
}

-- No call gives the goal a cancel function.
unfoldable pub NeverHandled : {C : Type 0} → List ℕ → List (List ℕ × (ℤ × Call C)) → Type 0
unfolding text_eq
NeverHandled id [] = Unit
NeverHandled id ((j, (now, handled c)) ∷ cs) = ((j == id) ≡ false) × NeverHandled id cs
NeverHandled id (_ ∷ cs) = NeverHandled id cs

-- The cancel function that a goal has.
unfoldable pub handle_of : {C : Type 0} → List ℕ → Option (StatusRegistry C) → Option C
unfolding lookup text_eq
handle_of id none = none
handle_of id (some r) = lookup id r.cancels

module _ {C : Type 0} where
  drain-handle :
      (id j : List ℕ) (now : ℤ) (texts : List (List ℕ)) (r : StatusRegistry C)
      → handle_of id (drain_found texts j now (some r)).1 ≡ handle_of id (some r)
  unfolding drain_found change_goal handle_of
  drain-handle id j now [] r = refl
  drain-handle id j now (text ∷ texts) r = refl

  -- A cancellation takes the function from its goal and from no other.
  cancel-handle :
      (id j : List ℕ) (r : StatusRegistry C)
      → handle_of id (cancel j (some r)).1 ≡ (if j == id then none else handle_of id (some r))
  unfolding cancel handle_of
  cancel-handle id j r = lookup-delete id j r.cancels

  kept_none :
      (id j : List ℕ) (r : StatusRegistry C)
      → handle_of id (some r) ≡ none
      → handle_of id (cancel j (some r)).1 ≡ none
  kept_none id j r h =
      cancel-handle id j r
      ∙ (elim (Bool-cases (j == id)) [ inl same ↦ rw same refl | inr other ↦ rw other h ])

  set-handle :
      (id j : List ℕ) (c : C) (r : StatusRegistry C)
      → handle_of id (set_cancel_func j (some c) (some r))
        ≡ (if j == id then some c else handle_of id (some r))
  unfolding set_cancel_func handle_of
  set-handle id j c r = lookup-insert id j c r.cancels

  -- No call but a new registration gives a goal without a function one.
  perform-none :
      (id j : List ℕ) (now : ℤ) (c : Call C) (cs : List (List ℕ × (ℤ × Call C)))
      (r : StatusRegistry C)
      → NeverHandled id ((j, (now, c)) ∷ cs)
      → handle_of id (some r) ≡ none
      → NeverHandled id cs × (handle_of id (perform (j, (now, c)) (some r)) ≡ none)
  unfolding perform NeverHandled register set_state set_sub_goal enqueue_info drain_info
      set_cancel_func change_goal handle_of
  perform-none id j now (registered s) cs r never h = (never, h)
  perform-none id j now (stated s) cs r never h = (never, h)
  perform-none id j now (progressed p) cs r never h = (never, h)
  perform-none id j now (informed text) cs r never h = (never, h)
  perform-none id j now drained cs r never h = (never, drain-handle id j now _ r ∙ h)
  perform-none id j now (handled none) cs r (other, never) h = (never, h)
  perform-none id j now (handled (some c)) cs r (other, never) h =
      (never, set-handle id j c r ∙ (rw other h))
  perform-none id j now cancelling cs r never h = (never, kept_none id j r h)

  perform_all-none :
      (id : List ℕ) (cs : List (List ℕ × (ℤ × Call C))) (r : StatusRegistry C)
      → NeverHandled id cs
      → handle_of id (some r) ≡ none
      → handle_of id (perform_all cs (some r)) ≡ none
  unfolding perform_all
  perform_all-none id [] r never h = h
  perform_all-none id ((j, (now, c)) ∷ cs) r never h =
      let (r', e) = perform-some j now c r in
      let (later, gone) = perform-none id j now c cs r never h in
      rw e (perform_all-none id cs r' later (ap (handle_of id) (sym e) ∙ gone))

  cancel-found : (id : List ℕ) (r : Option (StatusRegistry C)) → (cancel id r).0 ≡ handle_of id r
  unfolding cancel handle_of
  cancel-found id none = refl
  cancel-found id (some r) = refl

  -- Once a goal has been cancelled, a later cancellation finds no function to call, whatever calls
  -- come between, unless one gives the goal a new function; and the function of every other goal
  -- stays where it was.
  pub cancel_once :
      (id : List ℕ) (cs : List (List ℕ × (ℤ × Call C))) (r : StatusRegistry C)
      → NeverHandled id cs
      → ((cancel id (perform_all cs (cancel id (some r)).1)).0 ≡ none)
        × ((other : List ℕ)
            → (id == other) ≡ false
            → (cancel other (cancel id (some r)).1).0 ≡ (cancel other (some r)).0)
  unfolding cancel
  cancel_once id cs r never =
      let gone = cancel-handle id id r ∙ (rw (==-refl id) refl) in
      (
        cancel-found id _ ∙ perform_all-none id cs _ never gone,
        λ other differ.
            cancel-found other _
            ∙ cancel-handle other id r
            ∙ (rw differ (sym (cancel-found other (some r)))),
      )
