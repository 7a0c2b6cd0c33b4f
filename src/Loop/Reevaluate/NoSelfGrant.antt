-- ===== src/Loop/Reevaluate/NoSelfGrant.antt =====
-- The allow set of a reevaluated task is the last replan's, and nothing else.
use agent_builder.Common.{
  ◌≡◌, refl, true, false, some, List, [], arith, ℕ, zero, suc, ◌+◌, ◌≤◌, String, Bool-cases, inl,
  inr,
}
use agent_builder.Common.Int.{ℤ, pos}
use agent_builder.Loop.{Fallible, ok, fault, BlockedAction, returns}
use agent_builder.Loop.Retry.{needs_human, StatusWriteResult, StatusWriter}
use agent_builder.Loop.Reevaluate.{
  ReplanFunc, Reevaluation, ReevaluationPolicy, ReevaluationOutcome, resolved, escalated,
  resolved_outcome, escalated_outcome, escalate, is_zero, after_replan, replans_from,
  reevaluate_blocked,
}

module _ {W : Type 0} (replan : ReplanFunc W) (blocked : BlockedAction) where
  -- `Denied n a v b w`: from `v`, where `a` was the last allow set, `n` replans in a row leave the
  -- action blocked, and lead to `w`, where `b` is the set of the last replan.
  pub data Denied : ℕ → List String → W → List String → W → Type 0 where
    here : {a : List String} {v : W} → Denied 0 a v a v
    again :
        {n : ℕ} {a b : List String} {v w u : W} (r : Reevaluation)
        → replan blocked v ≡ (ok r, u)
        → r.still_blocked ≡ true
        → Denied n r.allowed_resources u b w
        → Denied (suc n) a v b w

  -- A replan after `n` denied ones routed around the denial, and its allow set is applied.
  pub record RoutedAround (limit : ℕ) (a : List String) (v : W) (o : ReevaluationOutcome)
      (final : W) : Type 0 where
    pub denials : ℕ
    pub last : List String
    pub before : W
    pub answer : Reevaluation
    pub within : denials + 1 ≤ limit
    pub chain : Denied denials a v last before
    pub replanned : replan blocked before ≡ (ok answer, final)
    pub freed : answer.still_blocked ≡ false
    pub kind : o.kind ≡ resolved
    pub applied : o.allowed_resources ≡ answer.allowed_resources

  -- As many replans as allowed were denied; the task was marked, and the denial is handed over.
  pub record HandedOver (limit : ℕ) (a : List String) (v : W) (writer : StatusWriter W)
      (task_id : String) (o : ReevaluationOutcome) (final : W) : Type 0 where
    pub last : List String
    pub before : W
    pub written : StatusWriteResult
    pub chain : Denied limit a v last before
    pub marked : writer task_id needs_human before ≡ (ok written, final)
    pub kind : o.kind ≡ escalated
    pub applied : o.allowed_resources ≡ last

  -- The two ends of a reevaluation that returns an outcome.
  pub data Ends (limit first : ℕ) (a : List String) (v : W) (max : ℤ) (writer : StatusWriter W)
      (task_id : String) (o : ReevaluationOutcome) (final : W) : Type 0 where
    around :
        (r : RoutedAround limit a v o final)
        → o.reevaluations ≡ pos (first + r.denials)
        → Ends limit first a v max writer task_id o final
    over :
        HandedOver limit a v writer task_id o final
        → o.escalation
          ≡ some (record { status = needs_human; blocked = blocked; reevaluations = max })
        → Ends limit first a v max writer task_id o final

  module _ (max : ℤ) (writer : StatusWriter W) (task_id : String) where
    Ends-again :
        (limit first : ℕ) (a : List String) (v u : W) (r : Reevaluation) (o : ReevaluationOutcome)
        (final : W)
        → replan blocked v ≡ (ok r, u)
        → r.still_blocked ≡ true
        → Ends limit (suc first) r.allowed_resources u max writer task_id o final
        → Ends (suc limit) first a v max writer task_id o final
    Ends-again limit first a v u r o final e b (around x n) =
        around
          (record {
            denials = suc x.denials;
            last = x.last;
            before = x.before;
            answer = x.answer;
            within = omega (arith, x.within);
            chain = again r e b x.chain;
            replanned = x.replanned;
            freed = x.freed;
            kind = x.kind;
            applied = x.applied;
          })
          (ground arith)
    Ends-again limit first a v u r o final e b (over x n) =
        over
          (record {
            last = x.last;
            before = x.before;
            written = x.written;
            chain = again r e b x.chain;
            marked = x.marked;
            kind = x.kind;
            applied = x.applied;
          })
          n

    Ends-escalate :
        (first : ℕ) (a : List String) (v : W) (o : ReevaluationOutcome)
        → (escalate writer task_id blocked max a v).0 ≡ returns o
        → Ends 0 first a v max writer task_id o (escalate writer task_id blocked max a v).1
    unfolding escalate
    Ends-escalate first a v o h = go (writer task_id needs_human v) refl h
      where
        go :
            (x : Fallible StatusWriteResult × W)
            → writer task_id needs_human v ≡ x
            → escalated_outcome task_id blocked max a x.0 ≡ returns o
            → Ends 0 first a v max writer task_id o x.1
        go (fault e, u) p q = cc
        go (ok written, u) p q =
            over
              (record {
                last = a;
                before = v;
                written = written;
                chain = here;
                marked = p;
                kind = ground arith;
                applied = ground arith;
              })
              (ground arith)

    Ends-round :
        (left first : ℕ) (a : List String) (v : W) (o : ReevaluationOutcome)
        (x : Fallible Reevaluation × W)
        → replan blocked v ≡ x
        → ((b : List String) (u : W)
            → (replans_from left (suc first) replan max writer task_id blocked b u).0 ≡ returns o
            → Ends left
                (suc first)
                b
                u
                max
                writer
                task_id
                o
                (replans_from left (suc first) replan max writer task_id blocked b u).1)
        → (after_replan
            (replans_from left (suc first) replan max writer task_id blocked)
            first
            x.0
            x.1).0
          ≡ returns o
        → Ends
            (suc left)
            first
            a
            v
            max
            writer
            task_id
            o
            (after_replan
              (replans_from left (suc first) replan max writer task_id blocked)
              first
              x.0
              x.1).1
    unfolding after_replan
    Ends-round left first a v o (fault e, u) p ih h = cc
    Ends-round left first a v o (ok r, u) p ih h = elim (Bool-cases r.still_blocked) [
      | inl b ↦
          let q : (replans_from left (suc first) replan max writer task_id blocked
                r.allowed_resources u).0
              ≡ returns o =
            rw b at h in
          rw b (Ends-again left first a v u r o _ p b (ih r.allowed_resources u q))
      | inr f ↦
          let q : returns (resolved_outcome first r.allowed_resources) ≡ returns o = rw f at h in
          rw f (
            around
              (record {
                denials = 0;
                last = a;
                before = v;
                answer = r;
                within = omega arith;
                chain = here;
                replanned = p;
                freed = f;
                kind = ground arith;
                applied = ground arith;
              })
              (ground arith))
    ]

    replans-Ends :
        (left first : ℕ) (a : List String) (v : W) (o : ReevaluationOutcome)
        → (replans_from left first replan max writer task_id blocked a v).0 ≡ returns o
        → Ends left first a v max writer task_id o
            (replans_from left first replan max writer task_id blocked a v).1
    unfolding replans_from
    replans-Ends zero first a v o h = Ends-escalate first a v o h
    replans-Ends (suc left) first a v o h =
        Ends-round left first a v o (replan blocked v) refl
          (λ b u. replans-Ends left (suc first) b u o) h

-- Where ReevaluateBlocked returns an outcome, the denial was not empty, and one of two things
-- happened. Either fewer replans than the bound were denied in a row, the next one routed around
-- the denial, and the set it returned is the one applied; or as many as the bound were denied, the
-- task was marked `needs-human`, the human is given the denied action, and the set reported is that
-- of the last replan. No other set is ever applied, so the denied resource is in it only if a replan
-- put it there.
pub reevaluate-Ends :
    {W : Type 0} (p : ReevaluationPolicy W) (replan : ReplanFunc W) (n : ℕ) (task_id : String)
    (blocked : BlockedAction) (writer : StatusWriter W) (w : W) (o : ReevaluationOutcome)
    → p.replan ≡ some replan
    → p.max_reevaluations ≡ pos n
    → (reevaluate_blocked p task_id blocked (some writer) w).0 ≡ returns o
    → (is_zero blocked ≡ false)
      × Ends replan blocked n 1 [] w
          (pos n)
          writer
          task_id
          o
          (reevaluate_blocked p task_id blocked (some writer) w).1
unfolding reevaluate_blocked
reevaluate-Ends p replan n task_id blocked writer w o e m h = elim (Bool-cases (is_zero blocked)) [
  | inl empty ↦ cc (rw empty at h)
  | inr named ↦ (
    named,
    rw (named, e, m)
        (replans-Ends replan blocked (pos n) writer task_id n 1 [] w o (rw (named, e, m) at h)),
  )
]
