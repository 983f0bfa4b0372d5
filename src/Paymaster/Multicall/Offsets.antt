-- ===== src/Paymaster/Multicall/Offsets.antt =====
-- Where the calldata of internal/paymaster/batcher.go has the words and the data of each call.
use chainfx_payment_core.Common.{ℕ, ◌+◌, ◌*◌, ◌≡◌, List, [], ◌∷◌, ◌++◌, length, drop}
use chainfx_payment_core.Paymaster.Multicall.Calldata.{address_word, uint_word, bool_word}
use chainfx_payment_core.Paymaster.Multicall.Encode.{Multicall3Call, data_size, padded}

-- What the data of all calls takes.
unfoldable sizes : List Multicall3Call → ℕ
sizes [] = 0
sizes (c ∷ calls) = data_size c.call_data + sizes calls

-- The words of the `i`-th call stand behind those of the calls before it, and their offset, counted
-- from these words, leads to its data.
pub IsLaidOut : ℕ → Multicall3Call → List ℕ → Type 0
IsLaidOut i c bytes =
    (offset : ℕ) × (more : List ℕ) × (rest : List ℕ) × (drop (68 + 96 * i) bytes
      ≡ address_word c.target ++ (bool_word c.allow_failure ++ (uint_word offset ++ more)))
    × (drop (68 + 96 * i + offset) bytes
        ≡ uint_word (length c.call_data) ++ (padded c.call_data ++ rest))
