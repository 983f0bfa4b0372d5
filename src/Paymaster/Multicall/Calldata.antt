-- ===== src/Paymaster/Multicall/Calldata.antt =====
-- internal/paymaster/batcher.go: the words of calldata, and the call of an ERC-20 transfer.
use chainfx_payment_core.Common.{
  ℕ, ◌+◌, ◌-◌, ◌*◌, ◌/◌, ◌%◌, ◌^◌, Bool, true, false, ◌&&◌, List, [], ◌∷◌, ◌++◌, Option, none, some,
  if◌then◌else◌, leb, ◌==◌, length, replicate, drop,
}
use chainfx_payment_core.Common.Text.{Text, codes, has_prefix}

-- The value of a hexadecimal digit.
unfoldable pub nibble : ℕ → Option ℕ
nibble c =
    if leb b'0' c && leb c b'9'
    then some (c - b'0')
    else if leb b'a' c && leb c b'f'
    then some (c - b'a' + 10)
    else if leb b'A' c && leb c b'F'
    then some (c - b'A' + 10)
    else none

-- hex.DecodeString, whose error is dropped: the bytes before the first pair that is not hexadecimal.
unfoldable pub decode_hex : Text → List ℕ
unfolding nibble
decode_hex (a ∷ b ∷ s) = elim (nibble a) [
  | none ↦ []
  | some x ↦ elim (nibble b) [ none ↦ [] | some y ↦ (x * 16 + y) ∷ decode_hex s ]
]
decode_hex _ = []

-- Whether hex.DecodeString gives no error.
unfoldable pub is_hex : Text → Bool
unfolding nibble
is_hex [] = true
is_hex (c ∷ []) = false
is_hex (a ∷ b ∷ s) = elim (nibble a) [
  | none ↦ false
  | some x ↦ elim (nibble b) [ none ↦ false | some y ↦ is_hex s ]
]

abbrev pub trim_0x : Text → Text
trim_0x s = if has_prefix s (codes "0x") then drop 2 s else s

-- An address in a word; anything but twenty bytes leaves the word zero.
unfoldable pub address_word : Text → List ℕ
unfolding decode_hex has_prefix
address_word text =
    let bytes = decode_hex (trim_0x text) in
    if length bytes == 20 then replicate 12 0 ++ bytes else replicate 32 0

-- An amount in a word; more than 32 bytes leave it zero.
unfoldable pub amount_word : List ℕ → List ℕ
amount_word bytes =
    if leb (length bytes) 32 then replicate (32 - length bytes) 0 ++ bytes else replicate 32 0

-- binary.BigEndian.PutUint64 in the last bytes of a word.
unfoldable pub uint_word : ℕ → List ℕ
uint_word v =
    replicate 24 0
    ++ v / 256 ^ 7 % 256
      ∷ v / 256 ^ 6 % 256
      ∷ v / 256 ^ 5 % 256
      ∷ v / 256 ^ 4 % 256
      ∷ v / 256 ^ 3 % 256
      ∷ v / 256 ^ 2 % 256
      ∷ v / 256 % 256
      ∷ v % 256
      ∷ []

unfoldable pub bool_word : Bool → List ℕ
bool_word b = replicate 31 0 ++ (if b then 1 else 0) ∷ []

abbrev pub transfer_selector : List ℕ
transfer_selector = 0xa9 ∷ 0x05 ∷ 0x9c ∷ 0xbb ∷ []

unfoldable pub encode_erc20_transfer : Text → List ℕ → List ℕ
encode_erc20_transfer to amount = transfer_selector ++ address_word to ++ amount_word amount
