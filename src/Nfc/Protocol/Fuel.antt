-- ===== src/Nfc/Protocol/Fuel.antt =====
-- The loop of parseTLV in internal/nfc/protocol.go ends.
use chainfx_payment_core.Common.{
  ℕ, zero, suc, ◌+◌, ◌*◌, ◌-◌, ◌≤◌, Bool-cases, inl, inr, ◌≢◌, ◌∷◌, [], ok, err, ltb, ◌==◌, length,
  take, drop, length-drop, arith, Result, ◌>>=◌,
}
use chainfx_payment_core.Common.Text.{Text}
use chainfx_payment_core.Nfc.Protocol.{
  ProtocolError, decode_length, parse_fields, Fields, parse_token_response, parse_payload,
  parse_template, parse_tlv, token_of, out_of_fuel,
}

-- An error that neither of two calls returns, their chain does not return.
bind-error :
    {A B : Type 0} (r : Result ProtocolError A) (f : A → Result ProtocolError B) (e : ProtocolError)
    → r ≢ err e
    → ((a : A) → f a ≢ err e)
    → (r >>= f) ≢ err e
bind-error (ok a) f e hr hf h = hf a h
bind-error (err e') f e hr hf h = ground arith

decode_length-fuel : (raw : Text) → decode_length raw ≢ err out_of_fuel
unfolding decode_length
decode_length-fuel [] h = ground arith
decode_length-fuel (b ∷ []) h = ground arith
decode_length-fuel (b ∷ c ∷ []) h = ground arith
decode_length-fuel (b ∷ c ∷ d ∷ rest) h = ground arith

parse_fields-fuel :
    (fuel : ℕ) (raw : Text) (fields : Fields)
    → length raw ≤ fuel
    → parse_fields fuel raw fields ≢ err out_of_fuel
unfolding parse_fields
parse_fields-fuel fuel [] fields l h = ground arith
parse_fields-fuel zero (a ∷ raw) fields l h = elim l [ ]
parse_fields-fuel (suc fuel) (a ∷ []) fields l h = ground arith
parse_fields-fuel (suc fuel) (a ∷ b ∷ []) fields l h = ground arith
parse_fields-fuel (suc fuel) (a ∷ b ∷ c ∷ rest) fields l h =
    bind-error (decode_length (c ∷ rest)) _ out_of_fuel (decode_length-fuel (c ∷ rest))
      (λ (n, used) g. elim (Bool-cases (ltb (length (a ∷ b ∷ c ∷ rest)) (2 + used + n))) [
        | inl e ↦ let k = rw e at g in ground arith
        | inr e ↦
            let k = rw e at g in
            parse_fields-fuel fuel (drop (2 + used + n) (a ∷ b ∷ c ∷ rest))
              ((a * 256 + b, take n (drop (2 + used) (a ∷ b ∷ c ∷ rest))) ∷ fields)
              (omega (arith, length-drop (2 + used + n) (a ∷ b ∷ c ∷ rest))) k
      ])
      h

token_of-fuel : (fields : Fields) → token_of fields ≢ err out_of_fuel
unfolding token_of
token_of-fuel fields h = ground arith

parse_template-fuel : (rest : Text) → parse_template rest ≢ err out_of_fuel
unfolding parse_template parse_tlv
parse_template-fuel rest =
    bind-error (decode_length rest) _ out_of_fuel (decode_length-fuel rest) (λ (n, used) h.
      elim (Bool-cases (length (drop used rest) == n)) [
        | inl e ↦
            bind-error (parse_tlv (drop used rest)) token_of out_of_fuel
              (parse_fields-fuel (length (drop used rest)) (drop used rest) [] (omega arith))
              token_of-fuel (rw e at h)
        | inr e ↦ let k = rw e at h in ground arith
      ])

parse_payload-fuel : (p : Text) → parse_payload p ≢ err out_of_fuel
unfolding parse_payload
parse_payload-fuel [] h = ground arith
parse_payload-fuel (b ∷ []) h = ground arith
parse_payload-fuel (b ∷ c ∷ rest) h = ground (arith, parse_template-fuel (c ∷ rest))

-- No response runs the loop out of its fuel.
pub parse_token_response-ends : (apdu : Text) → parse_token_response apdu ≢ err out_of_fuel
unfolding parse_token_response
parse_token_response-ends apdu h = ground (arith, parse_payload-fuel (take (length apdu - 2) apdu))
