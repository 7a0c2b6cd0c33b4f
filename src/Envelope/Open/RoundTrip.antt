-- ===== src/Envelope/Open/RoundTrip.antt =====
-- What `Sign` writes, `Verify` accepts, and `VerifyAndOpen` opens.
use agent_builder.Common.{
  ◌≡◌, refl, sym, true, some, none, List, ℕ, ◌<◌, ◌==◌, nat_eq, length, All, Bool-cases, inl, inr,
  subst,
}
use agent_builder.Envelope.Open.{
  Envelope, Crypto, with_sig, encode_hex, signing_bytes, sign, verify_decoded, verify,
}
use agent_builder.Envelope.Open.HexLaws.{decode_hex-encode_hex}

signed_form :
    (crypto : Crypto) (env signed : Envelope) (priv : List ℕ)
    → sign crypto env priv ≡ some signed
    → signed ≡ with_sig (encode_hex (crypto.ed25519_sign priv (signing_bytes crypto env))) env
unfolding sign
signed_form crypto env signed priv h = elim (Bool-cases (length priv == 64)) [
  | inl right ↦ some_inj (sym (rw right at h))
  | inr wrong ↦ absurd (not_signed (rw wrong at h))
]
  where
    some_inj : {a b : Envelope} → some a ≡ some b → a ≡ b
    some_inj h = cc

    not_signed : {a : Envelope} → none ≡ some a → ⊥
    not_signed h = cc

verify_decoded-valid :
    (crypto : Crypto) (env : Envelope) (pub_key sig : List ℕ)
    → length sig ≡ 64
    → crypto.ed25519_verify pub_key (signing_bytes crypto env) sig ≡ true
    → verify_decoded crypto env pub_key (some sig) ≡ none
unfolding verify_decoded
verify_decoded-valid crypto env pub_key sig len ok = rw (len, ok) refl

-- Verify accepts what Sign returns, if the two keys belong together: ed25519.Verify accepts with the
-- public one every signature that ed25519.Sign makes with the private one, a signature is 64 bytes,
-- and the public key has its size.
pub verify-sign :
    (crypto : Crypto) (env signed : Envelope) (priv pub_key : List ℕ)
    → ((m : List ℕ) → crypto.ed25519_verify pub_key m (crypto.ed25519_sign priv m) ≡ true)
    → ((m : List ℕ) → length (crypto.ed25519_sign priv m) ≡ 64)
    → ((m : List ℕ) → All (λ b. b < 256) (crypto.ed25519_sign priv m))
    → length pub_key ≡ 32
    → sign crypto env priv ≡ some signed
    → verify crypto signed pub_key ≡ none
unfolding verify
verify-sign crypto env signed priv pub_key genuine size bytes key h =
    let message = signing_bytes crypto env in
    let sig = crypto.ed25519_sign priv message in
    let e : signed ≡ with_sig (encode_hex sig) env = signed_form crypto env signed priv h in
    subst (λ x. verify crypto x pub_key ≡ none) (sym e)
      (rw (key, decode_hex-encode_hex sig (bytes message))
        (verify_decoded-valid crypto (with_sig (encode_hex sig) env) pub_key sig (size message)
          (unfold signing_bytes in genuine message)))
