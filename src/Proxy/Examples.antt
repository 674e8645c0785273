-- ===== src/Proxy/Examples.antt =====
-- api/proxytoken/token.go: the theorems at a codec that is written out, with a constant for the mac.
use onlyboxes.Prelude.{
  ℕ, zero, suc, ◌+◌, ◌≡◌, refl, ap, ◌∙◌, true, false, ◌&&◌, Option, none, some, [], ◌∷◌, Text,
  codes, arith, trim_space, trim_left, trim_right, keep, is_space, is_empty, text_eq, text_eq→eq,
  contains, IsTrimmed, ◌==◌, if◌then◌else◌, ℤ, pos, negsuc,
}
use onlyboxes.Proxy.Token.{
  Claims, Crypto, utf8, is_valid_utf8, ok, dot, validate_claims, is_expired, sign, verify,
}
use onlyboxes.Proxy.Signed.{IsLawful, verify-sign}
use onlyboxes.Proxy.Verified.{IsAccepted, verify-IsAccepted}

-- A number is so many letters a and a letter b.
abbrev unary : ℕ → Text → Text
unary zero t = b'b' ∷ t
unary (suc n) t = b'a' ∷ unary n t

abbrev encode : Text → Text
encode [] = []
encode (n ∷ ns) = unary n (encode ns)

abbrev put_first : ℕ → Option Text → Option Text
put_first n none = none
put_first n (some t) = some (n ∷ t)

abbrev decode_from : ℕ → Text → Option Text
decode_from k [] = if k == 0 then some [] else none
decode_from k (c ∷ t) = if c == b'a' then decode_from (k + 1) t else put_first k (decode_from 0 t)

decode-unary :
    (n k : ℕ) (t : Text) → decode_from k (unary n t) ≡ put_first (n + k) (decode_from 0 t)
decode-unary zero k t = ap (λ (j : ℕ). put_first j (decode_from 0 t)) (omega arith)
decode-unary (suc n) k t = ground (arith, decode-unary n (k + 1) t)

decode-encode : (x : Text) → decode_from 0 (encode x) ≡ some x
decode-encode [] = refl
decode-encode (n ∷ ns) = ground (arith, decode-unary n 0 (encode ns), decode-encode ns)

unary-dot : (n : ℕ) (t : Text) → contains dot t ≡ false → contains dot (unary n t) ≡ false
unary-dot zero t h = h
unary-dot (suc n) t h = unary-dot n t h

encode_dot : (x : Text) → contains dot (encode x) ≡ false
encode_dot [] = refl
encode_dot (n ∷ ns) = unary-dot n (encode ns) (encode_dot ns)

unary_right : (n : ℕ) (t : Text) → trim_right t ≡ t → trim_right (unary n t) ≡ unary n t
unfolding trim_right is_space
unary_right zero [] h = refl
unary_right zero (c ∷ t) h = ap (keep b'b') h
unary_right (suc zero) t h = ap (keep b'a') (unary_right zero t h)
unary_right (suc (suc n)) t h = ap (keep b'a') (unary_right (suc n) t h)

encode_right : (x : Text) → trim_right (encode x) ≡ encode x
unfolding trim_right
encode_right [] = refl
encode_right (n ∷ ns) = unary_right n (encode ns) (encode_right ns)

encode_left : (x : Text) → trim_left (encode x) ≡ encode x
unfolding trim_left is_space
encode_left [] = refl
encode_left (zero ∷ ns) = refl
encode_left (suc n ∷ ns) = refl

encode-IsTrimmed : (x : Text) → IsTrimmed (encode x)
unfolding trim_space
encode-IsTrimmed x = ap trim_right (encode_left x) ∙ encode_right x

encode_more : (x : Text) → is_empty x ≡ false → is_empty (encode x) ≡ false
encode_more [] h = h
encode_more (zero ∷ ns) h = refl
encode_more (suc n ∷ ns) h = refl

abbrev box_claims : Claims
box_claims = record {
  worker_id = codes "box";
  session_id = codes "s1";
  port = pos 80;
  expires_at = pos 500;
}

abbrev marshal_fields : Text → Text → ℤ → ℤ → Option Text
marshal_fields w s (pos p) (pos e) =
    if text_eq w (codes "box") && text_eq s (codes "s1") && p == 80 && e == 500
    then some (1 ∷ [])
    else none
marshal_fields w s p e = none

abbrev marshal : Claims → Option Text
marshal c = marshal_fields c.worker_id c.session_id c.port c.expires_at

unmarshal-fields :
    (w s : Text) (p e : ℤ) (x : Text)
    → marshal_fields w s p e ≡ some x
    → some box_claims ≡ some (record { worker_id = w; session_id = s; port = p; expires_at = e })
unmarshal-fields w s (pos p) (pos e) x h =
    ground (arith, h, text_eq→eq w (codes "box"), text_eq→eq s (codes "s1"))
unmarshal-fields w s (pos p) (negsuc e) x h = absurd (cc)
unmarshal-fields w s (negsuc p) (pos e) x h = absurd (cc)
unmarshal-fields w s (negsuc p) (negsuc e) x h = absurd (cc)

marshal_more :
    (w s : Text) (p e : ℤ) (x : Text) → marshal_fields w s p e ≡ some x → is_empty x ≡ false
marshal_more w s (pos p) (pos e) x h = ground (arith, h)
marshal_more w s (pos p) (negsuc e) x h = absurd (cc)
marshal_more w s (negsuc p) (pos e) x h = absurd (cc)
marshal_more w s (negsuc p) (negsuc e) x h = absurd (cc)

abbrev zeros : Text
zeros =
    0 ∷ 0 ∷ 0 ∷ 0 ∷ 0 ∷ 0 ∷ 0 ∷ 0 ∷ 0 ∷ 0 ∷ 0 ∷ 0 ∷ 0 ∷ 0 ∷ 0 ∷ 0 ∷ 0 ∷ 0 ∷ 0 ∷ 0 ∷ 0 ∷ 0 ∷ 0 ∷ 0
    ∷ 0 ∷ 0 ∷ 0 ∷ 0 ∷ 0 ∷ 0 ∷ 0 ∷ 0 ∷ []

abbrev pub unary_crypto : Crypto
unary_crypto = record {
  mac = λ key x. zeros;
  encode = encode;
  decode = decode_from 0;
  marshal = marshal;
  unmarshal = λ x. some box_claims;
}

pub unary_crypto-IsLawful : IsLawful unary_crypto
unary_crypto-IsLawful = record {
  decode-encode = decode-encode;
  has_no_dot = encode_dot;
  has_no_space = encode-IsTrimmed;
  encodes_more = encode_more;
  unmarshal-marshal = λ c x wu su. unmarshal-fields c.worker_id c.session_id c.port c.expires_at x;
  marshals_more = λ c x. marshal_more c.worker_id c.session_id c.port c.expires_at x;
  mac_length = λ key x. refl;
}

abbrev pub box_key : Text
box_key = codes "k"

abbrev pub box_token : Text
box_token = codes "obx_route_v1.ab.bbbbbbbbbbbbbbbbbbbbbbbbbbbbbbbb"

box_claims_valid : validate_claims box_claims ≡ true
unfolding validate_claims trim_space trim_left trim_right is_space
box_claims_valid = refl

box_signed : sign unary_crypto box_key box_claims ≡ ok box_token
unfolding sign text_eq utf8
box_signed = rw box_claims_valid refl

verify-sign_example : verify unary_crypto box_key box_token 100 ≡ ok box_claims
verify-sign_example =
    verify-sign unary_crypto box_key box_claims box_token 100 unary_crypto-IsLawful
      (unfold is_valid_utf8 in refl) (unfold is_valid_utf8 in refl) box_signed (unfold utf8 in refl)
      (unfold is_expired in refl)

box_verified : verify unary_crypto box_key box_token 100 ≡ ok box_claims
box_verified =
    verify-sign unary_crypto box_key box_claims box_token 100 unary_crypto-IsLawful
      (unfold is_valid_utf8 in refl) (unfold is_valid_utf8 in refl) box_signed (unfold utf8 in refl)
      (unfold is_expired in refl)

verify-IsAccepted_example : IsAccepted unary_crypto box_key box_token 100 box_claims
verify-IsAccepted_example =
    verify-IsAccepted unary_crypto box_key box_token 100 box_claims box_verified

-- An e with an acute accent, the sign of the euro, and a code point that takes four bytes.
utf8_bytes :
    utf8 (0xe9 ∷ 0x20ac ∷ 0x1f600 ∷ [])
    ≡ 0xc3 ∷ 0xa9 ∷ 0xe2 ∷ 0x82 ∷ 0xac ∷ 0xf0 ∷ 0x9f ∷ 0x98 ∷ 0x80 ∷ []
unfolding utf8
utf8_bytes = refl
