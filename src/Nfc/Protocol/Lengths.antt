-- ===== src/Nfc/Protocol/Lengths.antt =====
-- The length bytes of internal/nfc/protocol.go, written and read back.
use chainfx_payment_core.Common.{
  ℕ, ◌+◌, ◌*◌, ◌/◌, ◌%◌, ◌<◌, Bool-cases, inl, inr, ◌≡◌, ◌++◌, ok, ltb, leb, length, arith,
}
use chainfx_payment_core.Common.Text.{Text}
use chainfx_payment_core.Nfc.Protocol.{encode_length, decode_length}

pub two_bytes : (n : ℕ) → n < 65536 → n / 256 % 256 * 256 + n % 256 ≡ n
two_bytes n h = omega arith

-- Every length of two bytes is read back with the number of its bytes.
pub decode_length-encode_length :
    (n : ℕ) (rest : Text)
    → n < 65536
    → decode_length (encode_length n ++ rest) ≡ ok (n, length (encode_length n))
unfolding encode_length decode_length
decode_length-encode_length n rest h = elim (Bool-cases (ltb n 0x80)) [
  | inl e ↦ rw (e, e)
  | inr e ↦ elim (Bool-cases (leb n 0xff)) [ inl f ↦ rw (e, f) | inr f ↦ rw (e, f, two_bytes n h) ]
]
