-- ===== src/Envelope/Open/HexLaws.antt =====
-- Hexadecimal text is read back as the bytes that it was written from.
use Prim.Native.Nat.{◌/◌, ◌%◌}
use agent_builder.Common.{◌≡◌, refl, ap, some, List, [], ◌∷◌, ℕ, ◌<◌, All, arith}
use agent_builder.Envelope.Open.{hex_value, pair_up, decode_hex, hex_digit, encode_hex}

hex_value-hex_digit : (n : ℕ) → n < 16 → hex_value (hex_digit n) ≡ some n
unfolding hex_value hex_digit
hex_value-hex_digit n h = ground arith

-- DecodeString reads back what EncodeToString writes of bytes.
pub decode_hex-encode_hex : (s : List ℕ) → All (λ b. b < 256) s → decode_hex (encode_hex s) ≡ some s
unfolding decode_hex encode_hex pair_up
decode_hex-encode_hex [] h = refl
decode_hex-encode_hex (b ∷ s) h =
    rw
      (
        hex_value-hex_digit (b / 16) (byte_high b h.0),
        hex_value-hex_digit (b % 16) (omega arith),
        decode_hex-encode_hex s h.1,
      )
      (ap (λ n. some (n ∷ s)) (omega arith))
  where
    byte_high : (b : ℕ) → b < 256 → b / 16 < 16
    byte_high b h = omega arith
