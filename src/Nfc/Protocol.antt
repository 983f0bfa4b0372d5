-- ===== src/Nfc/Protocol.antt =====
-- internal/nfc/protocol.go: a token as a tag-length-value field inside a response template. Bytes
-- are numbers below 256.
pub mod Lengths
pub mod RoundTrip
mod Fuel
mod Tests
use chainfx_payment_core.Common.{
  ℕ, zero, suc, ◌+◌, ◌-◌, ◌*◌, ◌/◌, ◌%◌, Bool, true, false, List, [], ◌∷◌, ◌++◌, Option, none, some,
  Result, ok, err, ltb, leb, ◌==◌, length, take, drop, if◌then◌else◌, ◌>>=◌,
}
use chainfx_payment_core.Common.Text.{Text, is_empty, text_eq}

abbrev pub token_tag : ℕ
token_tag = 0xDF01

abbrev pub version_tag : ℕ
version_tag = 0xDF02

abbrev pub status_ok : Text
status_ok = 0x90 ∷ 0x00 ∷ []

pub data ProtocolError : Type 0 where
  token_required response_too_short bad_status missing_template bad_template_length : ProtocolError
  token_missing missing_length short_extended_length unsupported_length : ProtocolError
  short_tlv tlv_overflow out_of_fuel : ProtocolError

abbrev pub Fields : Type 0
Fields = List (ℕ × Text)

-- A read of the map: the empty slice if the tag is missing.
pub field : ℕ → Fields → Text
field tag [] = []
field tag ((t, v) ∷ fields) = if t == tag then v else field tag fields

pub encode_length : ℕ → Text
encode_length n =
    if ltb n 0x80
    then n ∷ []
    else if leb n 0xff
    then 0x81 ∷ n ∷ []
    else 0x82 ∷ (n / 256 % 256) ∷ (n % 256) ∷ []

pub append_tlv : Text → ℕ → Text → Text
unfolding encode_length
append_tlv dst tag value =
    dst ++ ((tag / 256 % 256) ∷ (tag % 256) ∷ (encode_length (length value) ++ value))

pub build_token_response : Text → Result ProtocolError Text
unfolding append_tlv encode_length
build_token_response token =
    let body = append_tlv (append_tlv [] version_tag (0x01 ∷ [])) token_tag token in
    if is_empty token
    then err token_required
    else ok (0x70 ∷ (encode_length (length body) ++ (body ++ status_ok)))

-- The length and the number of bytes that it takes.
pub decode_length : Text → Result ProtocolError (ℕ × ℕ)
decode_length [] = err missing_length
decode_length (b ∷ rest) =
    if ltb b 0x80
    then ok (b, 1)
    else if b == 0x81
    then elim rest [ [] ↦ err short_extended_length | n ∷ r ↦ ok (n, 2) ]
    else if b == 0x82
    then elim rest [
      | [] ↦ err short_extended_length
      | hi ∷ r ↦ elim r [ [] ↦ err short_extended_length | lo ∷ r' ↦ ok (hi * 256 + lo, 3) ]
    ]
    else err unsupported_length

-- The loop of parseTLV. Each round takes at least three bytes.
pub parse_fields : ℕ → Text → Fields → Result ProtocolError Fields
unfolding decode_length
parse_fields fuel [] fields = ok fields
parse_fields zero (a ∷ raw) fields = err out_of_fuel
parse_fields (suc fuel) (a ∷ []) fields = err short_tlv
parse_fields (suc fuel) (a ∷ b ∷ []) fields = err short_tlv
parse_fields (suc fuel) (a ∷ b ∷ c ∷ rest) fields = decode_length (c ∷ rest) >>= λ (n, used).
    let raw = a ∷ b ∷ c ∷ rest in
    let next =
      parse_fields fuel (drop (2 + used + n) raw)
        ((a * 256 + b, take n (drop (2 + used) raw)) ∷ fields) in
    if ltb (length raw) (2 + used + n) then err tlv_overflow else next

pub parse_tlv : Text → Result ProtocolError Fields
unfolding parse_fields
parse_tlv raw = parse_fields (length raw) raw []

pub token_of : Fields → Result ProtocolError Text
unfolding field
token_of fields =
    let token = field token_tag fields in if is_empty token then err token_missing else ok token

-- Behind the template's tag.
pub parse_template : Text → Result ProtocolError Text
unfolding decode_length parse_tlv token_of
parse_template rest = decode_length rest >>= λ (n, used).
    if length (drop used rest) == n
    then parse_tlv (drop used rest) >>= token_of
    else err bad_template_length

pub parse_payload : Text → Result ProtocolError Text
unfolding parse_template
parse_payload [] = err missing_template
parse_payload (b ∷ []) = err missing_template
parse_payload (b ∷ c ∷ rest) = if b == 0x70 then parse_template (c ∷ rest) else err missing_template

pub parse_token_response : Text → Result ProtocolError Text
unfolding text_eq parse_payload
parse_token_response apdu =
    let cut = length apdu - 2 in
    if ltb (length apdu) 4
    then err response_too_short
    else if text_eq (drop cut apdu) status_ok
    then parse_payload (take cut apdu)
    else err bad_status
