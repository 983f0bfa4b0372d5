-- ===== src/Bitcoin/Base58/RoundTrip.antt =====
-- The round trips of internal/bitcoin/base58.go.
use chainfx_payment_core.Common.{
  ℕ, zero, suc, ◌/◌, ◌%◌, ◌≡◌, ◌≢◌, refl, ◌∙◌, ap, List, [], ◌∷◌, ◌++◌, map, none, some, arith,
  ◌==◌, Bool-cases, Option-cases, inl, inr, replicate,
}
use chainfx_payment_core.Common.Text.{Text}
use chainfx_payment_core.Common.Digits.{to_digits, digits_before, of_digits, leading_zeros, Below}
use chainfx_payment_core.Common.Digits.Zeros.{
  zeros_before, value_before, digits-Below, zeros-to_digits,
}
use chainfx_payment_core.Bitcoin.Base58.{letter, letters, number, base58_encode, base58_decode}
use chainfx_payment_core.Bitcoin.Base58.Alphabet.{number-letters, leading_ones-letters, number-some}

letters-digits :
    (fuel n : ℕ) (out : List ℕ)
    → letters fuel n (map letter out) ≡ map letter (digits_before 58 fuel n out)
unfolding letters digits_before
letters-digits zero n out = refl
letters-digits (suc fuel) n out = elim (Bool-cases (n == 0)) [
  | inl h ↦ rw (h) refl
  | inr h ↦ rw (h) (letters-digits fuel (n / 58) (n % 58 ∷ out))
]

zeros-letters :
    (k : ℕ) (ds : List ℕ)
    → replicate k (letter 0) ++ map letter ds ≡ map letter (replicate k 0 ++ ds)
zeros-letters zero ds = refl
zeros-letters (suc k) ds = ap (λ s. letter 0 ∷ s) (zeros-letters k ds)

-- The zero bytes, then the number, both in base 58.
digits_of : Text → List ℕ
digits_of bytes = replicate (leading_zeros bytes) 0 ++ to_digits 58 (of_digits 256 0 bytes)

base58_encode-letters : (bytes : Text) → base58_encode bytes ≡ map letter (digits_of bytes)
unfolding base58_encode digits_of to_digits
base58_encode-letters bytes =
    ap (λ s. replicate (leading_zeros bytes) (letter 0) ++ s)
      (letters-digits (of_digits 256 0 bytes) (of_digits 256 0 bytes) [])
    ∙ zeros-letters (leading_zeros bytes) (to_digits 58 (of_digits 256 0 bytes))

-- What a text of letters is decoded to.
decode_letters :
    (ds : List ℕ)
    → Below 58 ds
    → base58_decode (map letter ds)
      ≡ some (replicate (leading_zeros ds) 0 ++ to_digits 256 (of_digits 58 0 ds))
unfolding base58_decode
decode_letters ds h = rw (base58_decode, number-letters ds 0 h, leading_ones-letters ds h) refl

-- Bytes that are encoded in base58 are decoded to themselves.
pub base58_decode-encode :
    (bytes : Text) → Below 256 bytes → base58_decode (base58_encode bytes) ≡ some bytes
unfolding digits_of
base58_decode-encode bytes h =
    let n = of_digits 256 0 bytes in
    let k = leading_zeros bytes in
    ap base58_decode (base58_encode-letters bytes)
    ∙ decode_letters (digits_of bytes) (digits-Below 58 (omega arith) k n)
    ∙ rw (zeros_before 58 (omega arith) k n, value_before 58 (omega arith) k n)
        (ap some (zeros-to_digits 256 (omega arith) bytes h))

decoded-encode :
    (ds : List ℕ)
    → Below 58 ds
    → base58_encode (replicate (leading_zeros ds) 0 ++ to_digits 256 (of_digits 58 0 ds))
      ≡ map letter ds
unfolding digits_of
decoded-encode ds h =
    let n = of_digits 58 0 ds in
    let k = leading_zeros ds in
    base58_encode-letters (replicate k 0 ++ to_digits 256 n)
    ∙ rw (zeros_before 256 (omega arith) k n, value_before 256 (omega arith) k n)
        (ap (map letter) (zeros-to_digits 58 (omega arith) ds h))

not_decoded : (s bytes : Text) → number s 0 ≡ none → base58_decode s ≢ some bytes
unfolding base58_decode
not_decoded s bytes k = rw (base58_decode, k) (λ h. ground (arith, h))

same_bytes :
    (s bytes bytes' : Text)
    → base58_decode s ≡ some bytes
    → base58_decode s ≡ some bytes'
    → bytes ≡ bytes'
same_bytes s bytes bytes' h k = ground (arith, h, k)

-- A text that is decoded is what its bytes are encoded to, and these are bytes.
pub base58_encode-decode :
    (s bytes : Text) → base58_decode s ≡ some bytes → (base58_encode bytes ≡ s) × Below 256 bytes
base58_encode-decode s bytes h = elim (Option-cases (number s 0)) [
  | inl k ↦ absurd (not_decoded s bytes k h)
  | inr (n, k) ↦
      let (ds, below, e, f) = number-some s 0 n k in
      let found : bytes ≡ replicate (leading_zeros ds) 0 ++ to_digits 256 (of_digits 58 0 ds) =
        same_bytes s bytes _ h (ap base58_decode e ∙ decode_letters ds below) in
      rw (found, e)
        (
          decoded-encode ds below,
          digits-Below 256 (omega arith) (leading_zeros ds) (of_digits 58 0 ds),
        )
]
