-- ===== src/Telegram/Authz/Json.antt =====
-- A stand-in for the JSON library in the tests: an integer is a pair of a sign and a number.
use agent_builder.Common.{
  ◌≡◌, refl, ap, Option, none, some, List, [], ◌∷◌, ◌++◌, ℕ, ◌==◌, nat_eq, if◌then◌else◌,
}
use agent_builder.Common.Int.{ℤ, pos, negsuc}
use agent_builder.Telegram.Authz.Store.{Json}

encode : List ℤ → List ℕ
encode [] = []
encode (pos n ∷ s) = 0 ∷ n ∷ encode s
encode (negsuc n ∷ s) = 1 ∷ n ∷ encode s

more : ℤ → Option (List ℤ) → Option (List ℤ)
more id none = none
more id (some s) = some (id ∷ s)

decode : List ℕ → Option (List ℤ)
unfolding more
decode [] = none
decode (_ ∷ []) = some []
decode (t ∷ n ∷ s) = more (if t == 0 then pos n else negsuc n) (decode s)

unfoldable pub json : Json
unfolding encode decode
json = record { marshal = encode; unmarshal = decode }

pub decode-encode : (ids : List ℤ) → json.unmarshal (json.marshal ids ++ (b'\n' ∷ [])) ≡ some ids
unfolding json encode decode more nat_eq
decode-encode [] = refl
decode-encode (pos n ∷ s) = ap (more (pos n)) (decode-encode s)
decode-encode (negsuc n ∷ s) = ap (more (negsuc n)) (decode-encode s)
