-- ===== src/Proxy/Signed.antt =====
-- api/proxytoken/token.go: what `Sign` makes, `Verify` takes.
use onlyboxes.Prelude.{
  ℕ, ◌≡◌, refl, sym, ap, subst, ◌∙◌, true, false, Option, none, some, [], ◌∷◌, ◌++◌, Text, arith,
  codes, length, is_empty, is_space, text_eq_refl, has_prefix, has_prefix-append, trim_prefix,
  trim_prefix-append, cut, cut-append, contains, IsTrimmed, IsTrimmed-append, ltb, Bool-cases, inl,
  inr,
}
use onlyboxes.Proxy.Token.{
  Claims, Crypto, utf8, is_valid_utf8, ok, prefix, max_token_length, mac_size, dot, validate_claims,
  is_expired, signed_value, sign_payload, sign, verify_parts, verify,
}

-- What the libraries' documentation says: base64 decodes what it encodes, and JSON does where the strings
-- are valid UTF-8; the URL alphabet has no dot and no space; only no bytes are encoded as an empty
-- string; and HMAC with SHA-256 has 32 bytes.
pub record IsLawful (crypto : Crypto) : Type 0 where
  pub decode-encode : (x : Text) → crypto.decode (crypto.encode x) ≡ some x
  pub has_no_dot : (x : Text) → contains dot (crypto.encode x) ≡ false
  pub has_no_space : (x : Text) → IsTrimmed (crypto.encode x)
  pub encodes_more : (x : Text) → is_empty x ≡ false → is_empty (crypto.encode x) ≡ false
  pub unmarshal-marshal :
      (c : Claims) (x : Text)
      → is_valid_utf8 c.worker_id ≡ true
      → is_valid_utf8 c.session_id ≡ true
      → crypto.marshal c ≡ some x
      → crypto.unmarshal x ≡ some c
  pub marshals_more : (c : Claims) (x : Text) → crypto.marshal c ≡ some x → is_empty x ≡ false
  pub mac_length : (key x : Text) → length (crypto.mac key x) ≡ mac_size

length_more : (x : Text) → length x ≡ mac_size → is_empty x ≡ false
length_more [] h = absurd (omega (arith, h))
length_more (c ∷ x) h = refl

append_assoc : (a b c : Text) → (a ++ b) ++ c ≡ a ++ (b ++ c)
append_assoc [] b c = refl
append_assoc (x ∷ a) b c = ap (λ (t : Text). x ∷ t) (append_assoc a b c)

abbrev prefix_tail : Text
prefix_tail = codes "bx_route_v1."

token-IsTrimmed :
    (body signature : Text)
    → IsTrimmed signature
    → is_empty signature ≡ false
    → IsTrimmed ((prefix ++ body) ++ dot ∷ signature)
unfolding is_space
token-IsTrimmed body signature t e =
    subst (λ (k : Text). IsTrimmed (b'o' ∷ prefix_tail ++ k))
      (append_assoc body (dot ∷ []) signature)
      (IsTrimmed-append b'o' (prefix_tail ++ (body ++ dot ∷ [])) signature refl t e)

ok_injective : {a b : Text} → ok a ≡ ok b → a ≡ b
ok_injective h = cc h

module _ (crypto : Crypto) (lawful : IsLawful crypto) (key : Text) (claims : Claims) (now : ℕ)
    (worker_utf8 : is_valid_utf8 claims.worker_id ≡ true)
    (session_utf8 : is_valid_utf8 claims.session_id ≡ true) (key_given : is_empty key ≡ false)
    (valid : validate_claims claims ≡ true) (live : is_expired now claims.expires_at ≡ false) where
  abbrev signature_of : Text → Text
  signature_of payload = crypto.encode (crypto.mac key (utf8 (signed_value crypto payload)))

  signature_given : (payload : Text) → is_empty (signature_of payload) ≡ false
  signature_given payload =
      lawful.encodes_more _
        (length_more _ (lawful.mac_length key (utf8 (signed_value crypto payload))))

  parts_taken :
      (payload : Text)
      → crypto.marshal claims ≡ some payload
      → verify_parts crypto key now (some (crypto.encode payload, signature_of payload)) ≡ ok claims
  parts_taken payload m =
      let e1 = lawful.has_no_dot (crypto.mac key (utf8 (signed_value crypto payload))) in
      let e2 = lawful.encodes_more payload (lawful.marshals_more claims payload m) in
      let e3 = signature_given payload in
      let e4 = lawful.decode-encode (crypto.mac key (utf8 (signed_value crypto payload))) in
      let e5 = lawful.mac_length key (utf8 (signed_value crypto payload)) in
      let e6 = text_eq_refl (crypto.mac key (utf8 (signed_value crypto payload))) in
      let e7 = lawful.decode-encode payload in
      let e8 = lawful.unmarshal-marshal claims payload worker_utf8 session_utf8 m in
      rw (e1, e2, e3, e4, e5, e6, e7, e8, valid, live) refl

  text_taken :
      (token encoded signature : Text)
      → IsTrimmed token
      → is_empty token ≡ false
      → ltb max_token_length (length (utf8 token)) ≡ false
      → has_prefix prefix token ≡ true
      → cut dot (trim_prefix prefix token) ≡ some (encoded, signature)
      → verify crypto key token now ≡ verify_parts crypto key now (some (encoded, signature))
  unfolding verify
  text_taken token encoded signature t e short p c = rw (t, key_given, e, short, p, c) refl

  token_taken :
      (payload : Text)
      → crypto.marshal claims ≡ some payload
      → ltb max_token_length
          (length (utf8 (signed_value crypto payload ++ dot ∷ signature_of payload)))
        ≡ false
      → verify crypto key (signed_value crypto payload ++ dot ∷ signature_of payload) now
        ≡ ok claims
  token_taken payload m short =
      let body = crypto.encode payload in
      let rest = body ++ dot ∷ signature_of payload in
      let t =
        token-IsTrimmed body (signature_of payload) (lawful.has_no_space _)
          (signature_given payload) in
      text_taken (signed_value crypto payload ++ dot ∷ signature_of payload) body
        (signature_of payload) t refl short (has_prefix-append prefix rest)
        (ap (cut dot) (trim_prefix-append prefix rest)
          ∙ cut-append dot body (signature_of payload) (lawful.has_no_dot payload))
      ∙ parts_taken payload m

  payload_taken :
      (o : Option Text) (token : Text)
      → crypto.marshal claims ≡ o
      → sign_payload crypto key o ≡ ok token
      → ltb max_token_length (length (utf8 token)) ≡ false
      → verify crypto key token now ≡ ok claims
  payload_taken none token m h short = absurd (cc)
  payload_taken (some payload) token m h short =
      let same : signed_value crypto payload ++ dot ∷ signature_of payload ≡ token =
        ok_injective h in
      subst (λ (k : Text). verify crypto key k now ≡ ok claims) same
        (token_taken payload m
          (ap (λ (k : Text). ltb max_token_length (length (utf8 k))) same ∙ short))

-- Where base64, JSON and HMAC keep what their documentation says, and the ids of the claims are valid
-- UTF-8: a token that is signed with a key is
-- verified under the same key, and gives the claims back, until the claims expire, provided that the
-- token is not longer than the 4096 bytes that are read.
pub verify-sign :
    (crypto : Crypto) (key : Text) (claims : Claims) (token : Text) (now : ℕ)
    → IsLawful crypto
    → is_valid_utf8 claims.worker_id ≡ true
    → is_valid_utf8 claims.session_id ≡ true
    → sign crypto key claims ≡ ok token
    → ltb max_token_length (length (utf8 token)) ≡ false
    → is_expired now claims.expires_at ≡ false
    → verify crypto key token now ≡ ok claims
unfolding sign
verify-sign crypto key claims token now lawful wu su h short live =
    elim (Bool-cases (is_empty key)) [
      | inl k ↦ absurd (ground (arith, h, k))
      | inr k ↦ elim (Bool-cases (validate_claims claims)) [
        | inl v ↦
            payload_taken crypto lawful key claims now wu su k v live (crypto.marshal claims) token
              refl (sym (rw (k, v) refl) ∙ h) short
        | inr v ↦ absurd (ground (arith, h, k, v))
      ]
    ]
