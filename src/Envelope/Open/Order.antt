-- ===== src/Envelope/Open/Order.antt =====
-- Plaintext comes out of `VerifyAndOpen` only behind the signature and the replay cache, and only once.
use agent_builder.Common.{
  some_inj, ◌≡◌, ◌≢◌, refl, ap, subst, ◌∙◌, sym, Option, some, none, List, ℕ, ◌==◌, nat_eq, length,
  Bool-cases, inl, inr, eq_of_==,
}
use agent_builder.Common.Int.{ℤ}
use agent_builder.Common.Text.{codes}
use agent_builder.Envelope.Replay.{Result, accepted, rejected, ReplayCache, check, run, Call}
use agent_builder.Envelope.Replay.Once.{accepted_once, IsOrdered}
use agent_builder.Envelope.Open.{
  Envelope, Crypto, Failure, Opened, plaintext, failed, malformed, decode_hex, verify, parse_ts,
  opened, open_payload, after_check, after_decode, after_verify, verify_and_open,
}

-- The timestamp that VerifyAndOpen reads.
abbrev pub timestamp : Crypto → Envelope → Option ℤ
timestamp crypto env = parse_ts crypto (crypto.parse_rfc3339 env.ts) (crypto.scan_unix env.ts)

module _ (crypto : Crypto) where
  -- What must hold behind the signature for an envelope to be opened to a text.
  abbrev pub Unsealed : Envelope → ReplayCache → ℤ → List ℕ → List ℕ → List ℕ → Type 0
  Unsealed env cache now priv sender text =
      (nonce : List ℕ) × (ts : ℤ) × (ciphertext : List ℕ) × (decode_hex (codes env.nonce)
        ≡ some nonce)
      × (length nonce ≡ 24)
      × (timestamp crypto env ≡ some ts)
      × ((check cache now env.nonce ts).0 ≡ accepted)
      × (decode_hex env.payload ≡ some ciphertext)
      × (crypto.box_open ciphertext nonce priv sender ≡ some text)

  opened→some :
      (result : Option (List ℕ)) (text : List ℕ)
      → opened crypto result ≡ plaintext text
      → result ≡ some text
  unfolding opened
  opened→some none text h = cc
  opened→some (some t) text h = cc

  failed_not_plaintext : (e : Failure) (text : List ℕ) → failed e ≢ plaintext text
  failed_not_plaintext e text h = cc

  open_payload→opens :
      (ciphertext : Option (List ℕ)) (nonce priv sender text : List ℕ)
      → open_payload crypto ciphertext nonce priv sender ≡ plaintext text
      → (c : List ℕ) × (ciphertext ≡ some c) × (crypto.box_open c nonce priv sender ≡ some text)
  unfolding open_payload
  open_payload→opens none nonce priv sender text h = cc
  open_payload→opens (some c) nonce priv sender text h = (c, refl, opened→some _ text h)

  after_check→opens :
      (result : Result × ReplayCache) (env : Envelope) (nonce priv sender text : List ℕ)
      → (after_check crypto result env nonce priv sender).0 ≡ plaintext text
      → (result.0 ≡ accepted)
        × ((c : List ℕ) × (decode_hex env.payload ≡ some c)
            × (crypto.box_open c nonce priv sender ≡ some text))
  unfolding after_check
  after_check→opens (rejected e, cache) env nonce priv sender text h = cc
  after_check→opens (accepted, cache) env nonce priv sender text h =
      (refl, open_payload→opens (decode_hex env.payload) nonce priv sender text h)

  after_decode→opens :
      (nonce : Option (List ℕ)) (ts : Option ℤ) (env : Envelope) (cache : ReplayCache) (now : ℤ)
      (priv sender text : List ℕ)
      → (after_decode crypto nonce ts env cache now priv sender).0 ≡ plaintext text
      → (n : List ℕ) × (t : ℤ) × (c : List ℕ) × (nonce ≡ some n)
        × (length n ≡ 24)
        × (ts ≡ some t)
        × ((check cache now env.nonce t).0 ≡ accepted)
        × (decode_hex env.payload ≡ some c)
        × (crypto.box_open c n priv sender ≡ some text)
  unfolding after_decode
  after_decode→opens none ts env cache now priv sender text h = cc
  after_decode→opens (some n) none env cache now priv sender text h = cc
  after_decode→opens (some n) (some t) env cache now priv sender text h =
      elim (Bool-cases (length n == 24)) [
        | inl right ↦
            let (fresh, (c, dc, box)) =
              after_check→opens (check cache now env.nonce t) env n priv sender text
                (rw right at h) in
            (n, t, c, refl, eq_of_== (length n) 24 right, refl, fresh, dc, box)
        | inr wrong ↦ absurd (failed_not_plaintext malformed text (rw wrong at h))
      ]

  after_verify→opens :
      (checked : Option Failure) (env : Envelope) (cache : ReplayCache) (now : ℤ)
      (priv sender text : List ℕ)
      → (after_verify crypto checked env cache now priv sender).0 ≡ plaintext text
      → (checked ≡ none) × Unsealed env cache now priv sender text
  unfolding after_verify
  after_verify→opens (some e) env cache now priv sender text h = cc
  after_verify→opens none env cache now priv sender text h =
      let (n, t, c, dn, len, pt, fresh, dc, box) =
        after_decode→opens (decode_hex (codes env.nonce)) (timestamp crypto env) env cache now priv
          sender text h in
      (refl, (n, t, c, dn, len, pt, fresh, dc, box))

  -- An envelope is opened only if its signature is valid, its nonce is 24 bytes, its timestamp is
  -- readable, the replay cache accepts it, and its payload decrypts to the text.
  opens_only :
      (env : Envelope) (sign_pub : List ℕ) (cache : ReplayCache) (now : ℤ)
      (priv sender text : List ℕ)
      → (verify_and_open crypto env sign_pub cache now priv sender).0 ≡ plaintext text
      → (verify crypto env sign_pub ≡ none) × Unsealed env cache now priv sender text
  unfolding verify_and_open
  opens_only env sign_pub cache now priv sender text h =
      after_verify→opens (verify crypto env sign_pub) env cache now priv sender text h

  after_check-accepts :
      (result : Result × ReplayCache) (env : Envelope) (nonce priv sender text c : List ℕ)
      → result.0 ≡ accepted
      → decode_hex env.payload ≡ some c
      → crypto.box_open c nonce priv sender ≡ some text
      → after_check crypto result env nonce priv sender ≡ (plaintext text, result.1)
  unfolding after_check open_payload opened
  after_check-accepts (rejected e, cache) env nonce priv sender text c a dc box = cc
  after_check-accepts (accepted, cache) env nonce priv sender text c a dc box = rw (dc, box) refl

  decoded_opens :
      (n : List ℕ) (t : ℤ) (env : Envelope) (cache : ReplayCache) (now : ℤ) (priv sender : List ℕ)
      → length n ≡ 24
      → after_decode crypto (some n) (some t) env cache now priv sender
        ≡ after_check crypto (check cache now env.nonce t) env n priv sender
  unfolding after_decode
  decoded_opens n t env cache now priv sender len = rw len refl

  -- If all of this holds, the text comes out, and the cache is the one that Check leaves.
  pub opens :
      (env : Envelope) (sign_pub : List ℕ) (cache : ReplayCache) (now : ℤ)
      (priv sender text nonce ciphertext : List ℕ) (ts : ℤ)
      → verify crypto env sign_pub ≡ none
      → decode_hex (codes env.nonce) ≡ some nonce
      → length nonce ≡ 24
      → timestamp crypto env ≡ some ts
      → (check cache now env.nonce ts).0 ≡ accepted
      → decode_hex env.payload ≡ some ciphertext
      → crypto.box_open ciphertext nonce priv sender ≡ some text
      → verify_and_open crypto env sign_pub cache now priv sender
        ≡ (plaintext text, (check cache now env.nonce ts).1)
  unfolding verify_and_open after_verify
  opens env sign_pub cache now priv sender text nonce ciphertext ts v dn len pt fresh dc box =
      rw (v, dn, pt)
        (decoded_opens nonce ts env cache now priv sender len
          ∙ after_check-accepts (check cache now env.nonce ts) env nonce priv sender text ciphertext
              fresh dc box)

-- Once VerifyAndOpen has returned a plaintext for an envelope, it never returns one for that envelope
-- again, whatever the keys, and whatever calls of the replay cache come between, if the clock readings
-- never decrease.
pub opened_once :
    (crypto : Crypto) (env : Envelope) (sign_pub sign_pub' : List ℕ) (cache : ReplayCache)
    (now later : ℤ) (priv priv' sender sender' text text' : List ℕ) (calls : List (ℤ × Call))
    → (verify_and_open crypto env sign_pub cache now priv sender).0 ≡ plaintext text
    → IsOrdered now calls later
    → (verify_and_open crypto env sign_pub'
        (run (verify_and_open crypto env sign_pub cache now priv sender).1 calls)
        later
        priv'
        sender').0
      ≢ plaintext text'
opened_once crypto env sign_pub sign_pub' cache now later priv priv' sender sender' text text' calls
      h ordered again =
    let (v, (n, t, c, dn, len, pt, fresh, dc, box)) =
      opens_only crypto env sign_pub cache now priv sender text h in
    let e : (verify_and_open crypto env sign_pub cache now priv sender).1
        ≡ (check cache now env.nonce t).1 =
      ap (λ (o : Opened × ReplayCache). o.1)
        (opens crypto env sign_pub cache now priv sender text n c t v dn len pt fresh dc box) in
    let after = run (verify_and_open crypto env sign_pub cache now priv sender).1 calls in
    let (v', (n', t', c', dn', len', pt', fresh', dc', box')) =
      opens_only crypto env sign_pub' after later priv' sender' text' again in
    let same : t' ≡ t = some_inj (sym pt' ∙ pt) in
    accepted_once cache now later env.nonce t calls fresh ordered (
      subst (λ x. (check (run x calls) later env.nonce t).0 ≡ accepted) e
        (subst (λ x. (check after later env.nonce x).0 ≡ accepted) same fresh'))
