-- ===== src/Bitcoin/Wire.antt =====
-- internal/bitcoin/util.go: the numbers and the transaction ids of Bitcoin's wire format. Bytes are
-- numbers below 256.
pub mod Varint
pub mod Txid
mod Tests
use chainfx_payment_core.Common.{
  ℕ, ◌+◌, ◌-◌, ◌*◌, ◌/◌, ◌%◌, ◌^◌, List, [], ◌∷◌, Option, none, some, Result, ok, err, ◌&&◌, ltb,
  leb, ◌==◌, length, if◌then◌else◌,
}
use chainfx_payment_core.Common.Text.{Text}

-- byte(v >> (8 * i)), for a word of any width.
abbrev pub byte_at : ℕ → ℕ → ℕ
byte_at v i = v / 256 ^ i % 256

unfoldable pub uint32_le : ℕ → Text
uint32_le v = byte_at v 0 ∷ byte_at v 1 ∷ byte_at v 2 ∷ byte_at v 3 ∷ []

unfoldable pub uint64_le : ℕ → Text
uint64_le v =
    byte_at v 0
    ∷ byte_at v 1
    ∷ byte_at v 2
    ∷ byte_at v 3
    ∷ byte_at v 4
    ∷ byte_at v 5
    ∷ byte_at v 6
    ∷ byte_at v 7
    ∷ []

unfoldable pub varint : ℕ → Text
varint n =
    if ltb n 0xfd
    then byte_at n 0 ∷ []
    else if leb n 0xffff
    then 0xfd ∷ byte_at n 0 ∷ byte_at n 1 ∷ []
    else if leb n 0xffffffff
    then 0xfe ∷ byte_at n 0 ∷ byte_at n 1 ∷ byte_at n 2 ∷ byte_at n 3 ∷ []
    else 0xff
      ∷ byte_at n 0
      ∷ byte_at n 1
      ∷ byte_at n 2
      ∷ byte_at n 3
      ∷ byte_at n 4
      ∷ byte_at n 5
      ∷ byte_at n 6
      ∷ byte_at n 7
      ∷ []

-- `none` is -1.
pub hex_nibble : ℕ → Option ℕ
hex_nibble c =
    if leb b'0' c && leb c b'9'
    then some (c - b'0')
    else if leb b'a' c && leb c b'f'
    then some (c - b'a' + 10)
    else if leb b'A' c && leb c b'F'
    then some (c - b'A' + 10)
    else none

pub data TxidError : Type 0 where
  bad_txid_length bad_character : TxidError

-- The loop of reverseTxid: each pair of digits goes before the bytes so far. The length is even.
pub reverse_pairs : Text → Text → Result TxidError Text
unfolding hex_nibble
reverse_pairs [] b = ok b
reverse_pairs (c ∷ []) b = ok b
reverse_pairs (c ∷ c' ∷ s) b = elim (hex_nibble c) [
  | none ↦ err bad_character
  | some hi ↦ elim (hex_nibble c') [
    | none ↦ err bad_character
    | some lo ↦ reverse_pairs s ((hi * 16 + lo) ∷ b)
  ]
]

unfoldable pub reverse_txid : Text → Result TxidError Text
unfolding reverse_pairs
reverse_txid txid_hex =
    if length txid_hex == 64 then reverse_pairs txid_hex [] else err bad_txid_length
