-- ===== src/Telegram/Pairing/Tests.antt =====
-- The owner's approval at a concrete adapter, with a stand-in for JSON that writes no bytes but the ID.
use agent_builder.Common.{◌≡◌, ◌≢◌, refl, true, some, none, List, [], ◌∷◌, ℕ, arith}
use agent_builder.Common.Int.{pos}
use agent_builder.Telegram.Authz.Ids.{normalize, format_int}
use agent_builder.Telegram.Authz.IdLaws.{InInt64}
use agent_builder.Telegram.Authz.Json.{json, decode-encode}
use agent_builder.Telegram.Authz.Store.{Store, new_store, contains, absent, load, Stage}
use agent_builder.Telegram.Pairing.{Owner, World, handle_pairing_approve}
use agent_builder.Telegram.Pairing.Laws.{approved_in_memory, approval_survives}

abbrev owner : Owner
owner = record {
  has_sink = true;
  has_notifier = true;
  owner_id = pos 9;
  owner_chat = b'9' ∷ [];
  json = json;
  add_error = [];
  persist_error = [];
}

abbrev store : Store
store = record { path = "store"; approved = (pos 9, tt) ∷ [] }

abbrev world : World
world = record {
  offset = pos 0;
  store = some store;
  files = λ _. absent;
  replay = record { window = pos 60; nonces = [] };
  goals = [];
  audited = [];
  notified = [];
}

approved_in_memory_example :
    (s' : Store) × ((handle_pairing_approve owner (some Stage.rename) (pos 12) world).store
      ≡ some s')
    × (contains s' (format_int (pos 12)) ≡ some true)
    × ((raw : List ℕ) → normalize raw ≢ some (pos 12) → contains s' raw ≡ contains store raw)
unfolding InInt64
approved_in_memory_example =
    approved_in_memory owner (some Stage.rename) (pos 12) store world (omega arith) refl

approval_survives_example :
    (reloaded : Store) × (load json
        (handle_pairing_approve owner none (pos 12) world).files
        (new_store "store")
      ≡ some reloaded)
    × (contains reloaded (format_int (pos 12)) ≡ some true)
unfolding InInt64
approval_survives_example =
    approval_survives owner (pos 12) store world (omega arith) refl decode-encode
