-- ===== src/Bitcoin/Base58.antt =====
-- internal/bitcoin/base58.go: base58 with and without the checksum. A byte is a number below 256;
-- SHA-256 is a parameter.
pub mod Alphabet
pub mod RoundTrip
pub mod Check
mod Tests
use chainfx_payment_core.Common.{
  ℕ, zero, suc, ◌+◌, ◌-◌, ◌*◌, ◌/◌, ◌%◌, ◌≡◌, Bool, true, false, ◌&&◌, List, [], ◌∷◌, ◌++◌, Option,
  none, some, ltb, ◌==◌, if◌then◌else◌, length, replicate, take, drop, get_or,
}
use chainfx_payment_core.Common.Text.{Text, codes, text_eq}
use chainfx_payment_core.Common.Digits.{to_digits, of_digits, leading_zeros}

unfoldable pub base58_alphabet : Text
base58_alphabet = codes "123456789ABCDEFGHJKLMNPQRSTUVWXYZabcdefghijkmnopqrstuvwxyz"

-- The first place at which the character stands.
pub index_of : ℕ → Text → Option ℕ
index_of c [] = none
index_of c (a ∷ s) = elim (a == c) [
  | true ↦ some 0
  | false ↦ elim (index_of c s) [ none ↦ none | some i ↦ some (suc i) ]
]

-- The loop over the characters; `none` is a character that is not of the alphabet.
pub number : Text → ℕ → Option ℕ
unfolding index_of base58_alphabet
number [] acc = some acc
number (c ∷ s) acc = elim (index_of c base58_alphabet) [
  | none ↦ none
  | some i ↦ number s (acc * 58 + i)
]

pub leading_ones : Text → ℕ
leading_ones [] = 0
leading_ones (c ∷ s) = if c == b'1' then suc (leading_ones s) else 0

pub base58_decode : Text → Option Text
unfolding number leading_ones to_digits
base58_decode s = elim (number s 0) [
  | none ↦ none
  | some n ↦ some (replicate (leading_ones s) 0 ++ to_digits 256 n)
]

-- base58Alphabet[d]
unfoldable pub letter : ℕ → ℕ
unfolding base58_alphabet
letter d = get_or base58_alphabet d 0

-- The rounds of the loop, each of which puts one more letter in front; a fuel of `n` is enough.
pub letters : ℕ → ℕ → Text → Text
letters zero n out = out
letters (suc fuel) n out =
    let rest = letters fuel (n / 58) (letter (n % 58) ∷ out) in if n == 0 then out else rest

pub base58_encode : Text → Text
unfolding letters of_digits leading_zeros
base58_encode bytes =
    let n = of_digits 256 0 bytes in replicate (leading_zeros bytes) (letter 0) ++ letters n n []

module _ (sha256 : Text → Text) where
  abbrev pub dsha256 : Text → Text
  dsha256 bytes = sha256 (sha256 bytes)

  -- The payload without its checksum; the first four bytes of the hash are compared.
  pub checked : Text → Option Text
  unfolding text_eq
  checked decoded =
      let payload = take (length decoded - 4) decoded in
      if ltb (length decoded) 4
      then none
      else if text_eq (take 4 (dsha256 payload)) (drop (length decoded - 4) decoded)
      then some payload
      else none

  pub base58_check_decode : Text → Option Text
  unfolding base58_decode checked
  base58_check_decode s = elim (base58_decode s) [ none ↦ none | some decoded ↦ checked decoded ]

  pub base58_check_encode : Text → Text
  unfolding base58_encode
  base58_check_encode payload = base58_encode (payload ++ take 4 (dsha256 payload))
