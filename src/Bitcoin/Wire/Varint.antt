-- ===== src/Bitcoin/Wire/Varint.antt =====
-- The numbers of internal/bitcoin/util.go, read back.
use chainfx_payment_core.Common.{
  ℕ, zero, suc, ◌%◌, ◌/◌, ◌+◌, ◌*◌, ◌<◌, ◌^◌, ◌≡◌, Bool-cases, inl, inr, [], ◌∷◌, ◌++◌, Option,
  none, some, ltb, leb, ◌==◌, if◌then◌else◌, arith,
}
use chainfx_payment_core.Common.Text.{Text}
use chainfx_payment_core.Bitcoin.Wire.{varint}

-- A number of some bytes, the least significant first, and what stands behind it.
pub read_le : ℕ → Text → Option (ℕ × Text)
read_le zero s = some (0, s)
read_le (suc n) [] = none
read_le (suc n) (b ∷ s) = elim (read_le n s) [
  | none ↦ none
  | some (v, rest) ↦ some (b + 256 * v, rest)
]

-- Bitcoin's variable-length numbers, as a reader of the wire format takes them.
pub read_varint : Text → Option (ℕ × Text)
unfolding read_le
read_varint [] = none
read_varint (b ∷ s) =
    if ltb b 0xfd
    then some (b, s)
    else if b == 0xfd
    then read_le 2 s
    else if b == 0xfe
    then read_le 4 s
    else read_le 8 s

two_bytes : (n : ℕ) → n < 65536 → n / 1 % 256 + 256 * (n / 256 % 256 + 256 * 0) ≡ n
two_bytes n h = omega arith

four_bytes :
    (n : ℕ)
    → n < 2 ^ 32
    → n / 1 % 256
        + 256 * (n / 256 % 256 + 256 * (n / 65536 % 256 + 256 * (n / 16777216 % 256 + 256 * 0)))
      ≡ n
four_bytes n h = omega arith

one_byte : (n : ℕ) → n < 256 → n / 1 % 256 ≡ n
one_byte n h = omega arith

eight_bytes :
    (n : ℕ)
    → n < 2 ^ 64
    → n / 1 % 256
        + 256
          * (n / 256 % 256
              + 256
                * (n / 65536 % 256
                    + 256
                      * (n / 16777216 % 256
                          + 256
                            * (n / 4294967296 % 256
                                + 256
                                  * (n / 1099511627776 % 256
                                      + 256
                                        * (n / 281474976710656 % 256
                                            + 256 * (n / 72057594037927936 % 256 + 256 * 0)))))))
      ≡ n
eight_bytes n h = omega arith

-- A reader of the wire format gets back every number below 2^64 that is written, and what follows.
pub read_varint-varint :
    (n : ℕ) (rest : Text) → n < 2 ^ 64 → read_varint (varint n ++ rest) ≡ some (n, rest)
unfolding read_varint varint read_le
read_varint-varint n rest h = elim (Bool-cases (ltb n 0xfd)) [
  | inl e ↦ rw (e, one_byte n (ground arith), e)
  | inr e ↦ elim (Bool-cases (leb n 0xffff)) [
    | inl f ↦ rw (e, f, two_bytes n (ground arith))
    | inr f ↦ elim (Bool-cases (leb n 0xffffffff)) [
      | inl g ↦ rw (e, f, g, four_bytes n (ground arith))
      | inr g ↦ rw (e, f, g, eight_bytes n h)
    ]
  ]
]
