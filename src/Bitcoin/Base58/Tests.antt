-- ===== src/Bitcoin/Base58/Tests.antt =====
-- Runs of internal/bitcoin/base58.go.
use chainfx_payment_core.Common.{◌≡◌, refl, ◌∷◌, none, some, arith, replicate, take}
use chainfx_payment_core.Common.Text.{Text, codes, text_eq}
use chainfx_payment_core.Common.Digits.{to_digits, digits_before, of_digits, leading_zeros, Below}
use chainfx_payment_core.Bitcoin.Base58.{
  index_of, base58_alphabet, letter, letters, number, leading_ones, base58_encode, base58_decode,
  checked, base58_check_encode, base58_check_decode,
}
use chainfx_payment_core.Bitcoin.Base58.Check.{
  base58_check_decode-encode, base58_check_encode-decode,
}

abbrev greeting : Text
greeting = codes "hello world"

encoded_lem : base58_encode greeting ≡ codes "StV1DL6CwTryKyV"
unfolding base58_encode letters letter base58_alphabet of_digits leading_zeros
encoded_lem = refl

decoded_lem : base58_decode (codes "1StV1DL6CwTryKyV") ≡ some (0 ∷ greeting)
unfolding base58_decode number index_of base58_alphabet leading_ones to_digits digits_before
decoded_lem = refl

not_a_letter_lem : base58_decode (codes "0") ≡ none
unfolding base58_decode number index_of base58_alphabet
not_a_letter_lem = refl

greeting-Below : Below 256 (0 ∷ greeting)
greeting-Below = ground arith

-- It stands for SHA-256.
abbrev sevens : Text → Text
sevens bytes = replicate 32 7

sevens-Below : Below 256 (take 4 (sevens greeting))
sevens-Below = ground arith

base58_check_decode-encode_example :
    base58_check_decode sevens (base58_check_encode sevens (0 ∷ greeting)) ≡ some (0 ∷ greeting)
base58_check_decode-encode_example =
    base58_check_decode-encode sevens (0 ∷ greeting) greeting-Below sevens-Below refl

abbrev checked_text : Text
checked_text = codes "3vQB7B6MrGQZaxCpcoUKg"

accepted_lem : base58_check_decode sevens checked_text ≡ some greeting
unfolding base58_check_decode base58_decode number index_of base58_alphabet leading_ones to_digits
    digits_before checked text_eq
accepted_lem = refl

base58_check_encode-decode_example : base58_check_encode sevens greeting ≡ checked_text
base58_check_encode-decode_example =
    base58_check_encode-decode sevens checked_text greeting accepted_lem
