-- ===== src/Telegram/Batch/Tests.antt =====
-- One update in envelope mode and one in allowlist mode.
use agent_builder.Common.{◌≡◌, refl, true, false, some, none, [], ◌∷◌, inl, nat_eq, string_eq}
use agent_builder.Common.Int.{pos, int_eq, lt_int, ◌+ℤ◌, ◌-ℤ◌}
use agent_builder.Common.Map.{lookup}
use agent_builder.Common.Text.{codes, text_eq}
use agent_builder.Envelope.Replay.{check, is_stale}
use agent_builder.Envelope.Open.{Envelope, Crypto, verify_and_open}
use agent_builder.Telegram.Authz.Json.{json}
use agent_builder.Telegram.Authz.Store.{absent}
use agent_builder.Telegram.Authz.Decide.{Mode}
use agent_builder.Telegram.Authz.DecideLaws.{Holds}
use agent_builder.Telegram.Message.{Message, Derived, sender_id}
use agent_builder.Telegram.Pairing.{World}
use agent_builder.Telegram.Derive.{derive_message}
use agent_builder.Telegram.Batch.{Adapter, Arrival, allowed, too_long, process_update}
use agent_builder.Telegram.Batch.Laws.{Admitted}
use agent_builder.Telegram.Batch.Delivered.{delivered_if_held, delivered_if_opened}

abbrev letter : Envelope
letter = record {
  from = "operator";
  to = "orchestrator";
  nonce = "000000000000000000000000000000000000000000000000";
  ts = "1000";
  payload = codes "6869";
  sig =
      codes
        "00000000000000000000000000000000000000000000000000000000000000000000000000000000000000000000000000000000000000000000000000000000";
}

abbrev crypto : Crypto
crypto = record {
  marshal = λ env. [];
  ed25519_sign = λ priv m. [];
  ed25519_verify = λ pub_key m sig. true;
  box_open = λ ciphertext nonce priv sender. some ciphertext;
  parse_rfc3339 = λ ts. some (pos 1000);
  scan_unix = λ ts. none;
}

abbrev adapter : Mode → Adapter
adapter mode = record {
  mode = mode;
  owner = record {
    has_sink = true;
    has_notifier = true;
    owner_id = pos 9;
    owner_chat = b'9' ∷ [];
    json = json;
    add_error = [];
    persist_error = [];
  };
  max_message_bytes = 1000;
  guard = λ id text. allowed;
  parse_envelope = λ text. some letter;
  parse_error = λ text. [];
  decode_text = λ bytes. bytes;
  crypto = crypto;
  signing_key = codes "01234567890123456789012345678901";
  private_key = [];
  sender_key = [];
}

abbrev message : Message
message = record {
  message_id = pos 5;
  text = codes "build it";
  from = some (pos 9);
  chat = some (pos 9);
  reply_to = none;
}

abbrev arrival : Arrival
arrival = record {
  update = record { update_id = pos 70; message = some message };
  now = pos 1010;
  failing = none;
}

abbrev world : World
world = record {
  offset = pos 0;
  store = some (record { path = "store"; approved = (pos 9, tt) ∷ [] });
  files = λ _. absent;
  replay = record { window = pos 60; nonces = [] };
  goals = [];
  audited = [];
  notified = [];
}

abbrev first_goal : Derived
first_goal = (derive_message message (codes "build it") []).0

held_lem : (process_update (adapter Mode.allowlist) arrival world).0 ≡ some first_goal
unfolding process_update
held_lem = refl

delivered_if_held_example :
    (m : Message) × (some message ≡ some m)
    × Holds world.store (sender_id m)
    × (too_long (adapter Mode.allowlist) m ≡ false)
    × (allowed ≡ allowed)
delivered_if_held_example =
    delivered_if_held (adapter Mode.allowlist) arrival world first_goal (inl refl) held_lem

abbrev opened_goal : Derived
opened_goal = (derive_message message (codes "hi") []).0

opened_lem : (process_update (adapter Mode.envelope) arrival world).0 ≡ some opened_goal
unfolding process_update check is_stale lookup string_eq ◌+ℤ◌ ◌-ℤ◌ lt_int
opened_lem = refl

delivered_if_opened_example :
    (m : Message) × (some message ≡ some m)
    × (too_long (adapter Mode.envelope) m ≡ false)
    × ((env : Envelope) × (some letter ≡ some env)
        × Admitted
            (adapter Mode.envelope)
            (pos 70)
            env
            (verify_and_open crypto env
              (codes "01234567890123456789012345678901")
              world.replay
              (pos 1010)
              []
              []).0)
delivered_if_opened_example =
    delivered_if_opened (adapter Mode.envelope) arrival world opened_goal refl opened_lem
