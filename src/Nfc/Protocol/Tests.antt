-- ===== src/Nfc/Protocol/Tests.antt =====
-- Runs of internal/nfc/protocol.go on concrete bytes.
use chainfx_payment_core.Common.{◌≡◌, ◌≢◌, refl, [], ◌∷◌, ok, err, ◌>>=◌, arith}
use chainfx_payment_core.Common.Text.{Text}
use chainfx_payment_core.Nfc.Protocol.Fuel.{parse_token_response-ends}
use chainfx_payment_core.Nfc.Protocol.{
  out_of_fuel, build_token_response, parse_token_response, bad_template_length,
}
use chainfx_payment_core.Nfc.Protocol.RoundTrip.{parse_token_response-build_token_response}

abbrev token : Text
token = 0x74 ∷ 0x6b ∷ 0x31 ∷ []

built :
    build_token_response token
    ≡ ok (0x70 ∷ 10 ∷ 0xDF ∷ 2 ∷ 1 ∷ 1 ∷ 0xDF ∷ 1 ∷ 3 ∷ 0x74 ∷ 0x6b ∷ 0x31 ∷ 0x90 ∷ 0 ∷ [])
unfolding build_token_response
built = refl

cut_short : parse_token_response (0x70 ∷ 10 ∷ 0xDF ∷ 2 ∷ 0x90 ∷ 0 ∷ []) ≡ err bad_template_length
unfolding parse_token_response
cut_short = refl

parse_token_response-build_token_response_example :
    (build_token_response token >>= parse_token_response) ≡ ok token
parse_token_response-build_token_response_example =
    parse_token_response-build_token_response token (omega arith) (omega arith)

parse_token_response-ends_example :
    parse_token_response (0x70 ∷ 3 ∷ 0xDF ∷ 1 ∷ 0 ∷ 0x90 ∷ 0 ∷ []) ≢ err out_of_fuel
parse_token_response-ends_example =
    parse_token_response-ends (0x70 ∷ 3 ∷ 0xDF ∷ 1 ∷ 0 ∷ 0x90 ∷ 0 ∷ [])
