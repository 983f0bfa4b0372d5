-- ===== src/Paymaster/Multicall/Layout.antt =====
-- The calldata that internal/paymaster/batcher.go writes, beside that of the contract ABI.
use chainfx_payment_core.Common.{
  ℕ, suc, ◌+◌, ◌*◌, ◌≡◌, refl, Bool, List, [], ◌∷◌, ◌++◌, length, length-append, arith,
}
use chainfx_payment_core.Paymaster.Multicall.Calldata.{address_word, uint_word, bool_word}
use chainfx_payment_core.Paymaster.Multicall.Amount.{length-address_word}
use chainfx_payment_core.Paymaster.Multicall.Encode.{
  Multicall3Call, multicall3_selector, data_size, heads, tails, padded, encode_multicall3,
}

-- One element of the type (address, bool, bytes): its data stands at the third word behind it.
abbrev abi_call : Multicall3Call → List ℕ
abi_call c =
    address_word c.target
    ++ bool_word c.allow_failure
    ++ uint_word 96
    ++ uint_word (length c.call_data)
    ++ padded c.call_data

-- Where each element starts, behind the table itself: the element type is dynamic.
abi_offsets : ℕ → List Multicall3Call → List ℕ
abi_offsets offset [] = []
abi_offsets offset (c ∷ calls) =
    uint_word offset ++ abi_offsets (offset + length (abi_call c)) calls

abi_elements : List Multicall3Call → List ℕ
abi_elements [] = []
abi_elements (c ∷ calls) = abi_call c ++ abi_elements calls

-- The contract ABI's encoding of a call of aggregate3: the argument is an array of a dynamic type, so
-- a table of offsets stands between its length and its elements.
pub abi_aggregate3 : List Multicall3Call → List ℕ
unfolding abi_offsets abi_elements
abi_aggregate3 calls =
    multicall3_selector
    ++ uint_word 32
    ++ uint_word (length calls)
    ++ abi_offsets (length calls * 32) calls
    ++ abi_elements calls

pub length-uint_word : (v : ℕ) → length (uint_word v) ≡ 32
unfolding uint_word
length-uint_word v = refl

pub length-bool_word : (b : Bool) → length (bool_word b) ≡ 32
unfolding bool_word
length-bool_word b = refl

-- The lengths of what is written one after the other.
ruleset lengths = (length-append, length-uint_word, length-bool_word)

-- A head and a tail of the code's, and an element of the ABI's, have the same length.
heads-tails :
    (i offset : ℕ) (calls : List Multicall3Call)
    → length (heads i offset calls) + length (tails calls) ≡ length (abi_elements calls)
unfolding heads tails abi_elements
heads-tails i offset [] = refl
heads-tails i offset (c ∷ calls) = simp lengths (
    omega (
      arith,
      heads-tails (suc i) (offset + data_size c.call_data) calls,
      length-address_word c.target,
    ))

length-abi_offsets :
    (offset : ℕ) (calls : List Multicall3Call)
    → length (abi_offsets offset calls) ≡ 32 * length calls
unfolding abi_offsets
length-abi_offsets offset [] = refl
length-abi_offsets offset (c ∷ calls) =
    let next = offset + length (abi_call c) in
    omega (
      arith,
      length-append (uint_word offset) (abi_offsets next calls),
      length-uint_word offset,
      length-abi_offsets next calls,
    )

-- The calldata that the code writes is 32 bytes for each call shorter than the ABI's encoding of the
-- same calls: it has no table of offsets.
pub length-encode_multicall3 :
    (calls : List Multicall3Call)
    → length (encode_multicall3 calls) + 32 * length calls ≡ length (abi_aggregate3 calls)
unfolding encode_multicall3 abi_aggregate3
length-encode_multicall3 calls = simp lengths (
    omega (
      arith,
      heads-tails 0 (length calls * 96) calls,
      length-abi_offsets (length calls * 32) calls,
    ))
