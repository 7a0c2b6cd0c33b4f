-- ===== src/Envelope/Open/Tests.antt =====
-- The laws of signed envelopes with a stand-in for the cryptography.
use agent_builder.Common.{
  ◌≡◌, ◌≢◌, refl, ap, none, some, List, [], ◌∷◌, ℕ, zero, suc, ◌<◌, ◌==◌, arith, length, All,
  ==-refl, string_eq, nat_eq,
}
use agent_builder.Common.Int.{pos, ◌+ℤ◌, ◌-ℤ◌, lt_int}
use agent_builder.Common.Map.{lookup}
use agent_builder.Common.Text.{codes, text_eq}
use agent_builder.Envelope.Replay.{ReplayCache, evicts, check, is_stale, run}
use agent_builder.Envelope.Open.{
  Envelope, Crypto, plaintext, with_sig, encode_hex, sign, verify, verify_and_open,
}
use agent_builder.Envelope.Open.Order.{opened_once}
use agent_builder.Envelope.Open.RoundTrip.{verify-sign}

repeated : ℕ → ℕ → List ℕ
repeated zero b = []
repeated (suc n) b = b ∷ repeated n b

length-repeated : (n b : ℕ) → length (repeated n b) ≡ n
unfolding repeated
length-repeated zero b = refl
length-repeated (suc n) b = ap suc (length-repeated n b)

repeated-bytes : (n b : ℕ) → b < 256 → All (λ c. c < 256) (repeated n b)
unfolding repeated
repeated-bytes zero b h = tt
repeated-bytes (suc n) b h = (h, repeated-bytes n b h)

-- Every signature is sixty-four sevens, and nothing is encrypted.
toy : Crypto
unfolding repeated text_eq
toy = record {
  marshal = λ env. codes env.to;
  ed25519_sign = λ priv m. repeated 64 7;
  ed25519_verify = λ pub_key m sig. sig == repeated 64 7;
  box_open = λ ciphertext nonce priv sender. some ciphertext;
  parse_rfc3339 = λ ts. none;
  scan_unix = λ ts. some (pos 1000);
}

abbrev letter : Envelope
letter = record {
  from = "operator";
  to = "orchestrator";
  nonce = "00112233445566778899aabbccddeeff0011223344556677";
  ts = "1000";
  payload = codes "6869";
  sig = [];
}

abbrev key : List ℕ
key = repeated 32 1

signed : Envelope
unfolding encode_hex repeated
signed = with_sig (encode_hex (repeated 64 7)) letter

signed_lem : sign toy letter (repeated 64 2) ≡ some signed
unfolding sign toy signed repeated nat_eq
signed_lem = refl

verify-sign_example : verify toy signed key ≡ none
verify-sign_example =
    verify-sign toy letter signed (repeated 64 2) key (unfold toy in λ m. ==-refl (repeated 64 7))
      (unfold toy in λ m. length-repeated 64 7)
      (unfold toy in λ m. repeated-bytes 64 7 (omega arith)) (length-repeated 32 1) signed_lem

abbrev cache : ReplayCache
cache = record { window = pos 60; nonces = [] }

signed_opens : (verify_and_open toy signed key cache (pos 1010) [] []).0 ≡ plaintext (codes "hi")
unfolding verify_and_open toy signed repeated check is_stale lookup string_eq ◌+ℤ◌ ◌-ℤ◌ lt_int
signed_opens = refl

opened_once_example :
    (verify_and_open toy signed key
      (run (verify_and_open toy signed key cache (pos 1010) [] []).1 ((pos 1020, evicts) ∷ []))
      (pos 1030)
      []
      []).0
    ≢ plaintext (codes "hi")
opened_once_example =
    opened_once toy signed key key cache (pos 1010) (pos 1030) [] [] [] [] (codes "hi") (codes "hi")
      ((pos 1020, evicts) ∷ []) signed_opens (omega arith)
