-- ===== src/Telegram/Pairing.antt =====
-- The pairing handlers: internal/channel/telegram/pairing.go, with `emitAuditEvent` of adapter.go.
-- `audited` are the reasons handed to the audit sink, `notified` the chats and texts handed to the
-- notifier; what either answers changes nothing. The texts of errors are arguments.
use agent_builder.Common.{
  Bool, true, false, Option, none, some, List, [], ◌∷◌, ◌++◌, ℕ, if◌then◌else◌,
}
use agent_builder.Common.Int.{ℤ}
use agent_builder.Common.Map.{Map}
use agent_builder.Common.Text.{codes, is_empty}
use agent_builder.Envelope.Replay.{ReplayCache}
use agent_builder.Telegram.Authz.Ids.{format_int}
use agent_builder.Telegram.Authz.Store.{Store, Files, Json, Stage, add, persist}
use agent_builder.Telegram.Message.{Message, sender_id, chat_id}
pub mod Laws
mod Tests

-- The fields of the Adapter that do not change, as far as the handlers read them.
pub record Owner : Type 0 where
  pub has_sink : Bool
  pub has_notifier : Bool
  pub owner_id : ℤ
  pub owner_chat : List ℕ
  pub json : Json
  pub add_error : List ℕ
  pub persist_error : List ℕ

-- The fields that change, the files, and what has left the adapter.
pub record World : Type 0 where
  pub offset : ℤ
  pub store : Option Store
  pub files : Files
  pub replay : ReplayCache
  pub goals : Map (List ℕ) (List ℕ)
  pub audited : List (List ℕ)
  pub notified : List (List ℕ × List ℕ)

unfoldable pub emit_audit_event : Owner → List ℕ → World → World
emit_audit_event o reason w =
    if o.has_sink then record w { audited = w.audited ++ (reason ∷ []) } else w

unfoldable pub notify : Owner → List ℕ → List ℕ → World → World
notify o chat text w =
    if o.has_notifier
    then if is_empty chat then w else record w { notified = w.notified ++ ((chat, text) ∷ []) }
    else w

unfoldable pub owner_notification : List ℕ → List ℕ
owner_notification sender =
    codes "User "
    ++ (sender
        ++ (codes " requests access — reply \"approve "
            ++ (sender ++ (codes "\" or \"deny " ++ (sender ++ codes "\"")))))

unfoldable pub handle_pairing_pending : Owner → Message → World → World
unfolding emit_audit_event notify owner_notification sender_id chat_id
handle_pairing_pending o m w = notify o o.owner_chat (owner_notification (sender_id m)) (
    notify o (chat_id m) (codes "Access pending: your request is awaiting owner approval.")
      (emit_audit_event o (codes "pairing_request") w))

-- Audit, then a text to the owner.
unfoldable pub report : Owner → List ℕ → List ℕ → World → World
unfolding emit_audit_event notify
report o reason text w = notify o o.owner_chat text (emit_audit_event o reason w)

-- Behind Add and behind Persist.
unfoldable pub after_persist : Owner → List ℕ → Bool × Files → World → World
unfolding report
after_persist o target (true, files) w =
    report o (codes "pairing_approved")
      (codes "approved: user " ++ (target ++ codes " can now send commands"))
      (record w { files = files })
after_persist o target (false, files) w =
    report o (codes "pairing_approve_persist_failed")
      (codes "approve " ++ (target ++ (codes " failed to persist: " ++ o.persist_error)))
      (record w { files = files })

unfoldable pub after_add : Owner → Option Stage → List ℕ → Option Store → World → World
unfolding report after_persist persist
after_add o failing target none w =
    report o (codes "pairing_approve_add_failed")
      (codes "approve " ++ (target ++ (codes " failed: " ++ o.add_error))) w
after_add o failing target (some s) w =
    after_persist o target (persist o.json failing s w.files) (record w { store = some s })

unfoldable pub approve_in : Owner → Option Stage → List ℕ → Option Store → World → World
unfolding report after_add add
approve_in o failing target none w =
    report o (codes "pairing_approve_no_store")
      (codes "approve " ++ (target ++ codes " failed: no approval store configured")) w
approve_in o failing target (some s) w = after_add o failing target (add target s) w

-- `failing` is the call of Persist that fails, if one does.
unfoldable pub handle_pairing_approve : Owner → Option Stage → ℤ → World → World
unfolding approve_in format_int
handle_pairing_approve o failing target w = approve_in o failing (format_int target) w.store w

unfoldable pub handle_pairing_deny : Owner → ℤ → World → World
unfolding report format_int
handle_pairing_deny o target w =
    report o (codes "pairing_denied")
      (codes "denied: user " ++ (format_int target ++ codes " was not approved")) w

unfoldable pub handle_pairing_malformed : Owner → List ℕ → World → World
unfolding report
handle_pairing_malformed o reason w =
    report o reason
      (codes "malformed command — use \"approve <id>\" or \"deny <id>\" with a numeric id") w
