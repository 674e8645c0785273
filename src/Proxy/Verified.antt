-- ===== src/Proxy/Verified.antt =====
-- api/proxytoken/token.go: the tokens that `Verify` takes.
use onlyboxes.Prelude.{
  ℕ, ◌≡◌, refl, sym, ap, ◌∙◌, true, false, ◌&&◌, ◌||◌, not, Option, none, some, [], ◌∷◌, ◌++◌, Text,
  arith, length, trim_space, is_empty, text_eq, text_eq→eq, has_prefix, trim_prefix, cut, contains,
  ltb, ◌==◌, if_cases, Bool-cases, inl, inr,
}
use onlyboxes.Proxy.Token.{
  Claims, Crypto, utf8, ok, prefix, max_token_length, mac_size, dot, validate_claims, is_expired,
  verify_claims, verify_payload, verify_signature, verify_parts, verify,
}

-- A token that is signed under the key, with claims that are valid and not expired.
pub record IsAccepted (crypto : Crypto) (key token : Text) (now : ℕ) (claims : Claims)
    : Type 0 where
  pub encoded : Text
  pub signature : Text
  pub payload : Text
  pub shape : trim_space token ≡ prefix ++ (encoded ++ dot ∷ signature)
  pub signed : crypto.decode signature ≡ some (crypto.mac key (utf8 (prefix ++ encoded)))
  pub decoded : crypto.decode encoded ≡ some payload
  pub unmarshalled : crypto.unmarshal payload ≡ some claims
  pub valid : validate_claims claims ≡ true
  pub live : is_expired now claims.expires_at ≡ false

pub has_prefix-trim_prefix : (p s : Text) → has_prefix p s ≡ true → s ≡ p ++ trim_prefix p s
unfolding has_prefix trim_prefix
has_prefix-trim_prefix [] s h = refl
has_prefix-trim_prefix (c ∷ p) [] h = absurd (cc)
has_prefix-trim_prefix (c ∷ p) (d ∷ s) h = ground (arith, has_prefix-trim_prefix p s)

abbrev joined : ℕ → Option (Text × Text) → Text → Text
joined sep none s = s
joined sep (some (a, b)) s = a ++ sep ∷ b

cons_joined :
    (sep c : ℕ) (o : Option (Text × Text)) (s : Text)
    → joined sep o s ≡ s
    → joined sep (elim o [ none ↦ none | some (a, b) ↦ some (c ∷ a, b) ]) (c ∷ s) ≡ c ∷ s
cons_joined sep c none s h = refl
cons_joined sep c (some (a, b)) s h = ap (λ (t : Text). c ∷ t) h

joined-cut : (sep : ℕ) (s : Text) → joined sep (cut sep s) s ≡ s
unfolding cut
joined-cut sep [] = refl
joined-cut sep (c ∷ s) =
    if_cases (λ (o : Option (Text × Text)). joined sep o (c ∷ s) ≡ c ∷ s) (c == sep) _ _
      (λ e. ground (arith, e)) (λ _. cons_joined sep c (cut sep s) s (joined-cut sep s))

module _ (crypto : Crypto) (key : Text) (now : ℕ) (claims : Claims) where
  claims_accepted :
      (o : Option Claims)
      → verify_claims crypto now o ≡ ok claims
      → (o ≡ some claims)
        × (validate_claims claims ≡ true)
        × (is_expired now claims.expires_at ≡ false)
  claims_accepted none h = absurd (cc)
  claims_accepted (some c) h = elim (Bool-cases (validate_claims c)) [
    | inr v ↦ absurd (ground (arith, h, v))
    | inl v ↦ elim (Bool-cases (is_expired now c.expires_at)) [
      | inl x ↦ absurd (ground (arith, h, v, x))
      | inr x ↦
          let same : c ≡ claims = ground (arith, h, v, x) in
          (
            ap some same,
            ap validate_claims (sym same) ∙ v,
            ap (λ (k : Claims). is_expired now k.expires_at) (sym same) ∙ x,
          )
    ]
  ]

  payload-IsAccepted :
      (token encoded signature : Text) (o : Option Text)
      → trim_space token ≡ prefix ++ (encoded ++ dot ∷ signature)
      → crypto.decode signature ≡ some (crypto.mac key (utf8 (prefix ++ encoded)))
      → crypto.decode encoded ≡ o
      → verify_payload crypto now o ≡ ok claims
      → IsAccepted crypto key token now claims
  payload-IsAccepted token encoded signature none t s d h = absurd (cc)
  payload-IsAccepted token encoded signature (some payload) t s d h =
      let a = claims_accepted (crypto.unmarshal payload) h in
      record {
        encoded = encoded;
        signature = signature;
        payload = payload;
        shape = t;
        signed = s;
        decoded = d;
        unmarshalled = a.0;
        valid = a.1;
        live = a.2;
      }

  signature-IsAccepted :
      (token encoded signature : Text) (o : Option Text)
      → trim_space token ≡ prefix ++ (encoded ++ dot ∷ signature)
      → crypto.decode signature ≡ o
      → verify_signature crypto key now encoded o ≡ ok claims
      → IsAccepted crypto key token now claims
  signature-IsAccepted token encoded signature none t s h = absurd (cc)
  signature-IsAccepted token encoded signature (some g) t s h =
      elim (Bool-cases
        (length g == mac_size && text_eq g (crypto.mac key (utf8 (prefix ++ encoded))))) [
          | inr e ↦ absurd (ground (arith, h, e))
          | inl e ↦
              let same : g ≡ crypto.mac key (utf8 (prefix ++ encoded)) =
                text_eq→eq g (crypto.mac key (utf8 (prefix ++ encoded))) (ground (arith, e)) in
              payload-IsAccepted token encoded signature (crypto.decode encoded) t
                (s ∙ ap some same) refl (sym (rw e refl) ∙ h)
        ]

  parts-IsAccepted :
      (token rest : Text) (o : Option (Text × Text))
      → trim_space token ≡ prefix ++ rest
      → joined dot o rest ≡ rest
      → verify_parts crypto key now o ≡ ok claims
      → IsAccepted crypto key token now claims
  parts-IsAccepted token rest none t j h = absurd (cc)
  parts-IsAccepted token rest (some (encoded, signature)) t j h =
      elim (Bool-cases (contains dot signature || is_empty encoded || is_empty signature)) [
        | inl e ↦ absurd (ground (arith, h, e))
        | inr e ↦
            signature-IsAccepted token encoded signature (crypto.decode signature)
              (t ∙ ap (λ (k : Text). prefix ++ k) (sym j)) refl (sym (rw e refl) ∙ h)
      ]

-- A token that is verified under a key is made of a part that decodes to the claims that come out, and of
-- a signature of that very part under that very key; the claims are valid and have not expired.
pub verify-IsAccepted :
    (crypto : Crypto) (key token : Text) (now : ℕ) (claims : Claims)
    → verify crypto key token now ≡ ok claims
    → IsAccepted crypto key token now claims
unfolding verify
verify-IsAccepted crypto key token now claims h =
    let t = trim_space token in
    let refused =
      is_empty t || ltb max_token_length (length (utf8 t)) || not (has_prefix prefix t) in
    elim (Bool-cases (is_empty key)) [
      | inl k ↦ absurd (ground (arith, h, k))
      | inr k ↦ elim (Bool-cases refused) [
        | inl r ↦ absurd (ground (arith, h, k, r))
        | inr r ↦
            let p : has_prefix prefix t ≡ true = ground (arith, r) in
            parts-IsAccepted crypto key now claims token (trim_prefix prefix t)
              (cut dot (trim_prefix prefix t)) (has_prefix-trim_prefix prefix t p)
              (joined-cut dot (trim_prefix prefix t)) (sym (rw (k, r) refl) ∙ h)
      ]
    ]
