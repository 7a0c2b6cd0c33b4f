-- ===== src/Envelope/Open.antt =====
-- Signing, verifying and opening an envelope: internal/envelope/envelope.go and `Open` of
-- confidentiality.go. The cryptography, JSON and the parsers of time are the fields of `Crypto`;
-- keys, bytes and the text of a signature or a payload are lists of numbers.
use Prim.Native.Nat.{◌/◌, ◌%◌}
use agent_builder.Common.{
  Bool, true, false, Option, none, some, List, [], ◌∷◌, ℕ, ◌+◌, ◌-◌, ◌*◌, String, leb, ltb, ◌==◌,
  ◌&&◌, nat_eq, length, if◌then◌else◌,
}
use agent_builder.Common.Int.{ℤ}
use agent_builder.Common.Text.{codes}
use agent_builder.Envelope.Replay.{Error, Result, accepted, rejected, ReplayCache, check}
pub mod HexLaws
pub mod Order
pub mod RoundTrip
mod Tests

pub record Envelope : Type 0 where
  pub from : String
  pub to : String
  pub nonce : String
  pub ts : String
  pub payload : List ℕ
  pub sig : List ℕ

pub record Crypto : Type 0 where
  pub marshal : Envelope → List ℕ
  pub ed25519_sign : List ℕ → List ℕ → List ℕ
  pub ed25519_verify : List ℕ → List ℕ → List ℕ → Bool
  pub box_open : List ℕ → List ℕ → List ℕ → List ℕ → Option (List ℕ)
  pub parse_rfc3339 : String → Option ℤ
  pub scan_unix : String → Option ℤ

-- ErrUnknownKey, ErrBadSignature, ErrReplay and ErrStaleTimestamp, ErrDecryptionFailed, or an error
-- that wraps none of these.
pub data Failure : Type 0 where
  unknown_key : Failure
  bad_signature : Failure
  not_fresh : Error → Failure
  decryption_failed : Failure
  malformed : Failure

pub data Opened : Type 0 where
  plaintext : List ℕ → Opened
  failed : Failure → Opened

unfoldable pub hex_value : ℕ → Option ℕ
hex_value c =
    if leb b'0' c && leb c b'9'
    then some (c - b'0')
    else if leb b'a' c && leb c b'f'
    then some (c - b'a' + 10)
    else if leb b'A' c && leb c b'F'
    then some (c - b'A' + 10)
    else none

unfoldable pub pair_up : Option ℕ → Option ℕ → Option (List ℕ) → Option (List ℕ)
pair_up (some h) (some l) (some s) = some ((h * 16 + l) ∷ s)
pair_up _ _ _ = none

-- hex.DecodeString
unfoldable pub decode_hex : List ℕ → Option (List ℕ)
unfolding hex_value pair_up
decode_hex [] = some []
decode_hex (c ∷ []) = none
decode_hex (c ∷ d ∷ s) = pair_up (hex_value c) (hex_value d) (decode_hex s)

unfoldable pub hex_digit : ℕ → ℕ
hex_digit n = if ltb n 10 then b'0' + n else b'a' + (n - 10)

-- hex.EncodeToString
unfoldable pub encode_hex : List ℕ → List ℕ
unfolding hex_digit
encode_hex [] = []
encode_hex (b ∷ s) = hex_digit (b / 16) ∷ hex_digit (b % 16) ∷ encode_hex s

abbrev pub with_sig : List ℕ → Envelope → Envelope
with_sig sig env = record {
  from = env.from;
  to = env.to;
  nonce = env.nonce;
  ts = env.ts;
  payload = env.payload;
  sig = sig;
}

module _ (crypto : Crypto) where
  unfoldable pub signing_bytes : Envelope → List ℕ
  signing_bytes env = crypto.marshal (with_sig [] env)

  -- `none` is the error on a private key of the wrong size.
  unfoldable pub sign : Envelope → List ℕ → Option Envelope
  unfolding signing_bytes encode_hex
  sign env priv =
      if length priv == 64
      then some (with_sig (encode_hex (crypto.ed25519_sign priv (signing_bytes env))) env)
      else none

  unfoldable pub verify_decoded : Envelope → List ℕ → Option (List ℕ) → Option Failure
  unfolding signing_bytes nat_eq
  verify_decoded env pub_key none = some bad_signature
  verify_decoded env pub_key (some sig) =
      if length sig == 64
      then if crypto.ed25519_verify pub_key (signing_bytes env) sig
        then none
        else some bad_signature
      else some bad_signature

  -- `none` is the nil error.
  unfoldable pub verify : Envelope → List ℕ → Option Failure
  unfolding verify_decoded decode_hex nat_eq
  verify env pub_key =
      if length pub_key == 32
      then verify_decoded env pub_key (decode_hex env.sig)
      else some unknown_key

  unfoldable pub parse_ts : Option ℤ → Option ℤ → Option ℤ
  parse_ts (some ts) unix = some ts
  parse_ts none unix = unix

  -- `Open` of confidentiality.go.
  unfoldable pub opened : Option (List ℕ) → Opened
  opened none = failed decryption_failed
  opened (some text) = plaintext text

  unfoldable pub open_payload : Option (List ℕ) → List ℕ → List ℕ → List ℕ → Opened
  unfolding opened
  open_payload none nonce priv sender = failed malformed
  open_payload (some ciphertext) nonce priv sender =
      opened (crypto.box_open ciphertext nonce priv sender)

  -- Behind the call of Check.
  unfoldable pub after_check :
      Result × ReplayCache → Envelope → List ℕ → List ℕ → List ℕ → Opened × ReplayCache
  unfolding open_payload decode_hex
  after_check (rejected e, cache) env nonce priv sender = (failed (not_fresh e), cache)
  after_check (accepted, cache) env nonce priv sender =
      (open_payload (decode_hex env.payload) nonce priv sender, cache)

  -- Behind Verify: the nonce and the timestamp as decoded.
  unfoldable pub after_decode :
      Option (List ℕ)
      → Option ℤ
      → Envelope
      → ReplayCache
      → ℤ
      → List ℕ
      → List ℕ
      → Opened × ReplayCache
  unfolding after_check check nat_eq
  after_decode none ts env cache now priv sender = (failed malformed, cache)
  after_decode (some nonce) none env cache now priv sender = (failed malformed, cache)
  after_decode (some nonce) (some ts) env cache now priv sender =
      if length nonce == 24
      then after_check (check cache now env.nonce ts) env nonce priv sender
      else (failed malformed, cache)

  unfoldable pub after_verify :
      Option Failure → Envelope → ReplayCache → ℤ → List ℕ → List ℕ → Opened × ReplayCache
  unfolding after_decode decode_hex parse_ts
  after_verify (some e) env cache now priv sender = (failed e, cache)
  after_verify none env cache now priv sender =
      after_decode (decode_hex (codes env.nonce))
        (parse_ts (crypto.parse_rfc3339 env.ts) (crypto.scan_unix env.ts)) env cache now priv sender

  -- `now` is the clock that Check reads.
  unfoldable pub verify_and_open :
      Envelope → List ℕ → ReplayCache → ℤ → List ℕ → List ℕ → Opened × ReplayCache
  unfolding verify after_verify
  verify_and_open env sign_pub cache now priv sender =
      after_verify (verify env sign_pub) env cache now priv sender
