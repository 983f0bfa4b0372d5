-- ===== src/Paymaster/Multicall/Encode.antt =====
-- internal/paymaster/batcher.go: the calldata of aggregate3 that the code writes. A call's bytes are
-- shorter than 2^63.
use chainfx_payment_core.Common.{
  ℕ, suc, ◌+◌, ◌-◌, ◌*◌, ◌/◌, ◌%◌, Bool, List, [], ◌∷◌, ◌++◌, length, replicate,
}
use chainfx_payment_core.Common.Text.{Text}
use chainfx_payment_core.Paymaster.Multicall.Calldata.{address_word, uint_word, bool_word}

pub record Multicall3Call : Type 0 where
  pub target : Text
  pub allow_failure : Bool
  pub call_data : List ℕ

abbrev pub multicall3_selector : List ℕ
multicall3_selector = 0x82 ∷ 0xad ∷ 0x56 ∷ 0xcb ∷ []

-- The bytes that the data takes: its length, and itself in whole words.
abbrev pub data_size : List ℕ → ℕ
data_size bytes = 32 + (length bytes + 31) / 32 * 32

-- The three words for each call, the `i`-th and after it, whose data starts at `offset`.
unfoldable pub heads : ℕ → ℕ → List Multicall3Call → List ℕ
unfolding address_word uint_word bool_word
heads i offset [] = []
heads i offset (c ∷ calls) =
    address_word c.target
    ++ bool_word c.allow_failure
    ++ uint_word (offset - i * 96)
    ++ heads (suc i) (offset + data_size c.call_data) calls

abbrev pub padded : List ℕ → List ℕ
padded bytes = bytes ++ replicate ((32 - length bytes % 32) % 32) 0

unfoldable pub tails : List Multicall3Call → List ℕ
unfolding uint_word
tails [] = []
tails (c ∷ calls) = uint_word (length c.call_data) ++ padded c.call_data ++ tails calls

unfoldable pub encode_multicall3 : List Multicall3Call → List ℕ
unfolding heads tails uint_word
encode_multicall3 calls =
    multicall3_selector
    ++ uint_word 32
    ++ uint_word (length calls)
    ++ heads 0 (length calls * 96) calls
    ++ tails calls
