-- ===== src/Proxy/Token.antt =====
-- api/proxytoken/token.go: tokens of proxy routes, which the console signs and a worker verifies.
--
-- HMAC with SHA-256, base64 and encoding/json are parameters. A string is a list of code points, which
-- is what a Go string is that holds valid UTF-8; others are not modelled. A slice of bytes (a key, a
-- mac, a JSON text) is a list of bytes, and `utf8` gives the bytes of a string. Times are milliseconds.
use onlyboxes.Prelude.{
  ℕ, ◌+◌, ◌%◌, ◌/◌, [], Bool, true, false, ◌&&◌, ◌||◌, not, Option, none, some, ◌∷◌, ◌++◌, Text,
  codes, length, trim_space, is_empty, text_eq, has_prefix, trim_prefix, cut, contains, ltb, leb,
  ◌==◌, if◌then◌else◌, ℤ, pos, negsuc,
}

pub record Claims : Type 0 where
  pub worker_id : Text
  pub session_id : Text
  pub port : ℤ
  pub expires_at : ℤ

pub record Crypto : Type 0 where
  pub mac : Text → Text → Text
  pub encode : Text → Text
  pub decode : Text → Option Text
  pub marshal : Claims → Option Text
  pub unmarshal : Text → Option Claims

pub data Error : Type 0 where
  secret_required key_required invalid_claims marshal_failed : Error
  invalid_token expired_token : Error

pub data Result {ℓ} (A : Type ℓ) : Type ℓ where
  ok : A → Result A
  err : Error → Result A

abbrev pub prefix : Text
prefix = codes "obx_route_v1."

abbrev pub key_derivation_label : Text
key_derivation_label = codes "onlyboxes/proxy-route/v1"

abbrev pub max_token_length : ℕ
max_token_length = 4096

-- `sha256.Size`
abbrev pub mac_size : ℕ
mac_size = 32

abbrev pub dot : ℕ
dot = b'.'

-- The bytes of a code point, and `[]byte(s)`.
abbrev pub utf8_code : ℕ → Text
utf8_code c =
    if ltb c 0x80
    then c ∷ []
    else if ltb c 0x800
    then (0xc0 + c / 64) ∷ (0x80 + c % 64) ∷ []
    else if ltb c 0x10000
    then (0xe0 + c / 4096) ∷ (0x80 + (c / 64) % 64) ∷ (0x80 + c % 64) ∷ []
    else (0xf0 + c / 262144)
      ∷ (0x80 + (c / 4096) % 64)
      ∷ (0x80 + (c / 64) % 64)
      ∷ (0x80 + c % 64)
      ∷ []

unfoldable pub utf8 : Text → Text
utf8 [] = []
utf8 (c ∷ s) = utf8_code c ++ utf8 s

-- The code points that UTF-8 has bytes for: all up to 0x10ffff but the surrogates.
unfoldable pub is_valid_utf8 : Text → Bool
is_valid_utf8 [] = true
is_valid_utf8 (c ∷ s) = (ltb c 0xd800 || (leb 0xe000 c && leb c 0x10ffff)) && is_valid_utf8 s

abbrev pub is_port : ℤ → Bool
is_port (pos n) = leb 1 n && leb n 65535
is_port (negsuc n) = false

abbrev pub is_positive : ℤ → Bool
is_positive (pos n) = ltb 0 n
is_positive (negsuc n) = false

unfoldable pub validate_claims : Claims → Bool
validate_claims c =
    not (is_empty (trim_space c.worker_id))
    && not (is_empty (trim_space c.session_id))
    && is_port c.port
    && is_positive c.expires_at

-- `now.UnixMilli() >= claims.ExpiresAtUnixMs`
unfoldable pub is_expired : ℕ → ℤ → Bool
is_expired now (pos n) = leb n now
is_expired now (negsuc n) = true

module _ (crypto : Crypto) where
  unfoldable pub derive_key : Text → Result Text
  unfolding utf8
  derive_key worker_secret =
      let secret = trim_space worker_secret in
      if is_empty secret
      then err secret_required
      else ok (crypto.mac (utf8 secret) (utf8 key_derivation_label))

  abbrev pub signed_value : Text → Text
  signed_value payload = prefix ++ crypto.encode payload

  abbrev pub sign_payload : Text → Option Text → Result Text
  sign_payload key none = err marshal_failed
  sign_payload key (some payload) =
      ok
        (signed_value payload ++ dot ∷ crypto.encode (crypto.mac key (utf8 (signed_value payload))))

  unfoldable pub sign : Text → Claims → Result Text
  unfolding validate_claims utf8
  sign key claims =
      if is_empty key
      then err key_required
      else if not (validate_claims claims)
      then err invalid_claims
      else sign_payload key (crypto.marshal claims)

  abbrev pub verify_claims : ℕ → Option Claims → Result Claims
  verify_claims now none = err invalid_token
  verify_claims now (some claims) =
      if not (validate_claims claims)
      then err invalid_token
      else if is_expired now claims.expires_at
      then err expired_token
      else ok claims

  abbrev pub verify_payload : ℕ → Option Text → Result Claims
  verify_payload now none = err invalid_token
  verify_payload now (some payload) = verify_claims now (crypto.unmarshal payload)

  abbrev pub verify_signature : Text → ℕ → Text → Option Text → Result Claims
  verify_signature key now encoded none = err invalid_token
  verify_signature key now encoded (some signature) =
      if length signature == mac_size
        && text_eq signature (crypto.mac key (utf8 (prefix ++ encoded)))
      then verify_payload now (crypto.decode encoded)
      else err invalid_token

  -- `strings.Split` gives two parts exactly if there is one separator.
  abbrev pub verify_parts : Text → ℕ → Option (Text × Text) → Result Claims
  verify_parts key now none = err invalid_token
  verify_parts key now (some (encoded, signature)) =
      if contains dot signature || is_empty encoded || is_empty signature
      then err invalid_token
      else verify_signature key now encoded (crypto.decode signature)

  unfoldable pub verify : Text → Text → ℕ → Result Claims
  unfolding validate_claims is_expired utf8
  verify key given now =
      let token = trim_space given in
      if is_empty key
      then err invalid_token
      else if is_empty token
          || ltb max_token_length (length (utf8 token))
          || not (has_prefix prefix token)
      then err invalid_token
      else verify_parts key now (cut dot (trim_prefix prefix token))
