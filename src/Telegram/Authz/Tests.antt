-- ===== src/Telegram/Authz/Tests.antt =====
-- The laws of the sender authorization at concrete inputs.
use agent_builder.Common.{◌≡◌, ◌⊎◌, ◌↔◌, refl, some, List, [], ◌∷◌, ℕ, nat_eq}
use agent_builder.Common.Int.{pos, negsuc}
use agent_builder.Common.Text.{codes}
use agent_builder.Telegram.Authz.Ids.{normalize}
use agent_builder.Telegram.Authz.Store.{Store, Files, absent}
use agent_builder.Telegram.Authz.Decide.{
  Action, AuditReason, untargeted, decide_pairing, fields, to_lower,
}
use agent_builder.Telegram.Authz.DecideLaws.{stranger_cannot_approve, approve_iff}

abbrev two_senders : Store
two_senders = record { path = "store"; approved = (pos 9, tt) ∷ (negsuc 3, tt) ∷ [] }

abbrev no_files : Files
no_files _ = absent

stranger_cannot_approve_example :
    (decide_pairing (codes "7") (pos 9) (codes "approve 7") (some two_senders)
      ≡ decide_pairing (codes "7") (pos 9) (codes "status") (some two_senders))
    × ((decide_pairing (codes "7") (pos 9) (codes "approve 7") (some two_senders)
          ≡ untargeted Action.accept_plaintext AuditReason.plaintext_accepted)
        ⊎ (decide_pairing (codes "7") (pos 9) (codes "approve 7") (some two_senders)
            ≡ untargeted Action.pairing_pending AuditReason.pairing_request))
stranger_cannot_approve_example =
    stranger_cannot_approve (codes "7") (codes "approve 7") (codes "status") (pos 9)
      (some two_senders) (unfold normalize in λ e. cc)

approve_iff_example :
    (decide_pairing (codes "9") (pos 9) (codes "Approve 12") (some two_senders) ≡ record {
      action = Action.pairing_approve;
      reason = AuditReason.pairing_approved;
      target_id = pos 12;
    })
    ↔ ((normalize (codes "9") ≡ some (pos 9))
        × ((verb argument : List ℕ) × (fields (codes "Approve 12") ≡ verb ∷ argument ∷ [])
            × (to_lower verb ≡ codes "approve")
            × (normalize argument ≡ some (pos 12))))
approve_iff_example =
    approve_iff (codes "9") (codes "Approve 12") (pos 9) (pos 12) (some two_senders)

owner_approves :
    decide_pairing (codes "9") (pos 9) (codes "Approve  012") (some two_senders) ≡ record {
      action = Action.pairing_approve;
      reason = AuditReason.pairing_approved;
      target_id = pos 12;
    }
unfolding decide_pairing
owner_approves = refl
