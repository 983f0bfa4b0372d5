-- ===== src/Bitcoin/Base58/Check.antt =====
-- The checksum of internal/bitcoin/base58.go.
use chainfx_payment_core.Common.{
  ℕ, ◌-◌, ◌≤◌, ◌≡◌, ◌≢◌, refl, ◌∙◌, ap, sym, false, ◌++◌, none, some, arith, ltb, Option-cases, inl,
  inr, length, length-append, take, drop, take-append, drop-append, take-append-drop,
}
use chainfx_payment_core.Common.Text.{Text, text_eq_iff, text_eq_refl, All-append}
use chainfx_payment_core.Common.Digits.{Below}
use chainfx_payment_core.Bitcoin.Base58.{
  base58_encode, base58_decode, checked, base58_check_encode, base58_check_decode, dsha256,
}
use chainfx_payment_core.Bitcoin.Base58.RoundTrip.{base58_decode-encode, base58_encode-decode}

enough : (n : ℕ) → 4 ≤ n → ltb n 4 ≡ false
enough n h = ground arith

module _ (sha256 : Text → Text) where
  abbrev check : Text → Text
  check payload = take 4 (dsha256 sha256 payload)

  checked-append :
      (payload : Text)
      → length (check payload) ≡ 4
      → checked sha256 (payload ++ check payload) ≡ some payload
  unfolding checked
  checked-append payload h =
      let full = payload ++ check payload in
      let e : length full - 4 ≡ length payload =
        omega (arith, h, length-append payload (check payload)) in
      let long : ltb (length full) 4 ≡ false =
        enough (length full) (omega (arith, h, length-append payload (check payload))) in
      rw
        (
          checked,
          long,
          e,
          take-append payload (check payload),
          drop-append payload (check payload),
          text_eq_refl (check payload),
        )
        refl

  checked-parts :
      (decoded payload : Text)
      → checked sha256 decoded ≡ some payload
      → (take (length decoded - 4) decoded ≡ payload)
        × (check (take (length decoded - 4) decoded) ≡ drop (length decoded - 4) decoded)
  unfolding checked
  checked-parts decoded payload h =
      let m = length decoded - 4 in
      ground (arith, h, text_eq_iff (check (take m decoded)) (drop m decoded))

  accepts :
      (s decoded : Text)
      → base58_decode s ≡ some decoded
      → base58_check_decode sha256 s ≡ checked sha256 decoded
  unfolding base58_check_decode
  accepts s decoded k = rw (base58_check_decode, k) refl

  not_accepted :
      (s payload : Text) → base58_decode s ≡ none → base58_check_decode sha256 s ≢ some payload
  unfolding base58_check_decode
  not_accepted s payload k = rw (base58_check_decode, k) (λ h. ground (arith, h))

  checked-some :
      (decoded payload : Text)
      → checked sha256 decoded ≡ some payload
      → payload ++ check payload ≡ decoded
  unfolding checked
  checked-some decoded payload h =
      let m = length decoded - 4 in
      let (p, q) = checked-parts decoded payload h in
      ap (λ x. x ++ check x) (sym p) ∙ ap (λ x. take m decoded ++ x) q ∙ take-append-drop m decoded

  -- If SHA-256 gives bytes, four at least, a payload of bytes is read back from its encoding with the
  -- checksum.
  pub base58_check_decode-encode :
      (payload : Text)
      → Below 256 payload
      → Below 256 (check payload)
      → length (check payload) ≡ 4
      → base58_check_decode sha256 (base58_check_encode sha256 payload) ≡ some payload
  unfolding base58_check_decode base58_check_encode
  base58_check_decode-encode payload h k l =
      rw
        (
          base58_check_decode,
          base58_decode-encode (payload ++ check payload) (All-append _ _ _ h k),
        )
        (checked-append payload l)

  -- A text that is accepted is the encoding of the payload with its checksum: no two texts stand for
  -- the same payload, and none with a wrong checksum for any.
  pub base58_check_encode-decode :
      (s payload : Text)
      → base58_check_decode sha256 s ≡ some payload
      → base58_check_encode sha256 payload ≡ s
  unfolding base58_check_decode base58_check_encode
  base58_check_encode-decode s payload h = elim (Option-cases (base58_decode s)) [
    | inl k ↦ absurd (not_accepted s payload k h)
    | inr (decoded, k) ↦
        ap base58_encode (checked-some decoded payload (sym (accepts s decoded k) ∙ h))
        ∙ (base58_encode-decode s decoded k).0
  ]
