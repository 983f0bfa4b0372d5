-- ===== src/Nfc/Protocol/RoundTrip.antt =====
-- Templates of internal/nfc/protocol.go, built and read back.
use chainfx_payment_core.Common.{
  ℕ, suc, ◌+◌, ◌<◌, ◌≤◌, ◌/◌, ◌%◌, Bool-cases, inl, inr, ◌≡◌, refl, ◌++◌, ◌∷◌, [], ok, ltb, leb,
  ◌==◌, length, take, drop, drop-append, take-append, length-append, append_assoc, arith, sym, ap,
  ◌∙◌, append-nil, true, ◌-◌, false, ◌>>=◌, ◌*◌,
}
use chainfx_payment_core.Common.Text.{Text}
use chainfx_payment_core.Nfc.Protocol.{
  encode_length, decode_length, append_tlv, parse_fields, Fields, parse_token_response,
  build_token_response, parse_payload, parse_template, parse_tlv, token_of, field, status_ok,
  token_tag, version_tag,
}
use chainfx_payment_core.Nfc.Protocol.Lengths.{decode_length-encode_length, two_bytes}

-- The rest of a text behind its field.
drop_field : (e v rest : Text) → drop (length e + length v) (e ++ (v ++ rest)) ≡ rest
drop_field [] v rest =
    ap (λ k. drop k (v ++ rest)) (let e : 0 + length v ≡ length v = omega arith in e)
    ∙ drop-append v rest
drop_field (x ∷ e) v rest =
    ap (λ k. drop k (x ∷ (e ++ (v ++ rest))))
      (let q : suc (length e) + length v ≡ suc (length e + length v) = omega arith in q)
    ∙ drop_field e v rest

-- A round of the loop on a field whose length is read.
round :
    (fuel a b n used : ℕ) (t : Text) (fields : Fields)
    → decode_length t ≡ ok (n, used)
    → used + n ≤ length t
    → parse_fields (suc fuel) (a ∷ b ∷ t) fields
      ≡ parse_fields fuel (drop (used + n) t) ((a * 256 + b, take n (drop used t)) ∷ fields)
unfolding parse_fields decode_length
round fuel a b n used [] fields h l = cc
round fuel a b n used (c ∷ t) fields h l = rw (
  h,
  let e : ltb (length (a ∷ b ∷ c ∷ t)) (2 + used + n) ≡ false = ground arith in e,
  let f : 2 + used + n ≡ suc (suc (used + n)) = omega arith in f,
  let g : 2 + used ≡ suc (suc used) = omega arith in g,
)

-- One round of the loop takes one field that was appended.
pub parse_fields-field :
    (fuel tag : ℕ) (v rest : Text) (fields : Fields)
    → tag < 65536
    → length v < 65536
    → parse_fields (suc fuel) (append_tlv [] tag v ++ rest) fields
      ≡ parse_fields fuel rest ((tag, v) ∷ fields)
unfolding append_tlv parse_fields
parse_fields-field fuel tag v rest fields ht hv =
    let e = encode_length (length v) in
    ap (λ t. parse_fields (suc fuel) ((tag / 256 % 256) ∷ (tag % 256) ∷ t) fields)
      (append_assoc e v rest)
    ∙ round fuel (tag / 256 % 256) (tag % 256) (length v) (length e) (e ++ (v ++ rest)) fields
        (decode_length-encode_length (length v) (v ++ rest) hv)
        (omega (arith, length-append e (v ++ rest), length-append v rest))
    ∙ rw (drop_field e v rest, drop-append e (v ++ rest), take-append v rest, two_bytes tag ht)

length-encode_length : (n : ℕ) → (1 ≤ length (encode_length n)) × (length (encode_length n) ≤ 3)
unfolding encode_length
length-encode_length n = elim (Bool-cases (ltb n 0x80)) [
  | inl e ↦ rw (e) ground arith
  | inr e ↦ elim (Bool-cases (leb n 0xff)) [
    | inl f ↦ rw (e, f) ground arith
    | inr f ↦ rw (e, f) ground arith
  ]
]

-- The status is taken off.
parse-status : (p : Text) → 2 ≤ length p → parse_token_response (p ++ status_ok) ≡ parse_payload p
unfolding parse_token_response
parse-status p h =
    let l : length (p ++ status_ok) ≡ length p + 2 = length-append p status_ok in
    rw (
      let e : ltb (length (p ++ status_ok)) 4 ≡ false = ground (arith, l) in e,
      let c : length (p ++ status_ok) - 2 ≡ length p = omega (arith, l) in c,
      drop-append p status_ok,
      take-append p status_ok,
    )

parse_payload-template :
    (e body : Text) → 1 ≤ length e → parse_payload (0x70 ∷ (e ++ body)) ≡ parse_template (e ++ body)
unfolding parse_payload
parse_payload-template [] body h = elim h [ ]
parse_payload-template (x ∷ e) body h = refl

parse_template-body :
    (body : Text)
    → length body < 65536
    → parse_template (encode_length (length body) ++ body) ≡ (parse_tlv body >>= token_of)
unfolding parse_template
parse_template-body body h = rw (
  decode_length-encode_length (length body) body h,
  drop-append (encode_length (length body)) body,
  let e : (length body == length body) ≡ true = ground arith in e,
)

-- The body of a template: the version's field and the token's.
body : Text → Text
unfolding append_tlv
body token = append_tlv (append_tlv [] version_tag (0x01 ∷ [])) token_tag token

body-fields :
    (token : Text)
    → body token ≡ append_tlv [] version_tag (0x01 ∷ []) ++ (append_tlv [] token_tag token ++ [])
unfolding body append_tlv encode_length
body-fields token = rw (append-nil (encode_length (length token) ++ token))

length-body : (token : Text) → (2 ≤ length (body token)) × (length (body token) ≤ 9 + length token)
unfolding body append_tlv encode_length
length-body token =
    omega (
      arith,
      length-append (encode_length (length token)) token,
      length-encode_length (length token),
    )

parse_fields-body :
    (fuel : ℕ) (token : Text)
    → length token < 65536
    → parse_fields (suc (suc fuel)) (body token) []
      ≡ ok ((token_tag, token) ∷ (version_tag, 0x01 ∷ []) ∷ [])
unfolding parse_fields
parse_fields-body fuel token h = rw (
  body-fields token,
  parse_fields-field (suc fuel) version_tag (0x01 ∷ []) (append_tlv [] token_tag token ++ []) []
      (omega arith) (omega arith),
  parse_fields-field fuel token_tag token [] ((version_tag, 0x01 ∷ []) ∷ []) (omega arith) h,
)

parse_tlv-body :
    (token : Text)
    → length token < 65536
    → parse_tlv (body token) ≡ ok ((token_tag, token) ∷ (version_tag, 0x01 ∷ []) ∷ [])
unfolding parse_tlv
parse_tlv-body token h =
    let n = length (body token) in
    ap (λ k. parse_fields k (body token) [])
      (let e : n ≡ suc (suc (n - 2)) = omega (arith, length-body token) in e)
    ∙ parse_fields-body (n - 2) token h

build_token_response-body :
    (token : Text)
    → 1 ≤ length token
    → let b = body token in
      build_token_response token ≡ ok (0x70 ∷ (encode_length (length b) ++ (b ++ status_ok)))
unfolding build_token_response body
build_token_response-body [] h = elim h [ ]
build_token_response-body (x ∷ token) h = refl

token_of-fields :
    (token : Text) (fields : Fields)
    → 1 ≤ length token
    → token_of ((token_tag, token) ∷ fields) ≡ ok token
unfolding token_of field
token_of-fields [] fields h = elim h [ ]
token_of-fields (x ∷ token) fields h = refl

template :
    (b : Text)
    → 2 ≤ length b
    → length b < 65536
    → parse_token_response (0x70 ∷ (encode_length (length b) ++ (b ++ status_ok)))
      ≡ (parse_tlv b >>= token_of)
template b h l =
    let e = encode_length (length b) in
    ap (λ t. parse_token_response (0x70 ∷ t)) (sym (append_assoc e b status_ok))
    ∙ parse-status (0x70 ∷ (e ++ b))
        (omega (arith, length-append e b, length-encode_length (length b)))
    ∙ parse_payload-template e b (omega (arith, length-encode_length (length b)))
    ∙ parse_template-body b l

-- A token of 1 to 65526 bytes comes back from the response that is built for it.
pub parse_token_response-build_token_response :
    (token : Text)
    → 1 ≤ length token
    → length token ≤ 65526
    → (build_token_response token >>= parse_token_response) ≡ ok token
parse_token_response-build_token_response token h l = rw (
  build_token_response-body token h,
  template (body token) (omega (arith, length-body token)) (omega (arith, length-body token)),
  parse_tlv-body token (omega arith),
  token_of-fields token ((version_tag, 0x01 ∷ []) ∷ []) h,
)
