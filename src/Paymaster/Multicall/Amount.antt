-- ===== src/Paymaster/Multicall/Amount.antt =====
-- The amount in the calldata of a transfer that internal/paymaster/batcher.go writes.
use chainfx_payment_core.Common.{
  ℕ, ◌-◌, ◌^◌, ◌≤◌, ◌<◌, ◌≡◌, refl, ◌∙◌, ap, sym, true, List, ◌++◌, arith, leb, ◌==◌, length,
  length-append, replicate, drop, drop-append, Bool-cases, inl, inr,
}
use chainfx_payment_core.Common.Text.{Text}
use chainfx_payment_core.Common.Digits.{to_digits, of_digits, length-to_digits}
use chainfx_payment_core.Common.Digits.Zeros.{value_before}
use chainfx_payment_core.Paymaster.Multicall.Calldata.{
  decode_hex, trim_0x, address_word, amount_word, transfer_selector, encode_erc20_transfer,
}

-- What the token's contract reads: the word behind the selector and the address.
unfoldable pub amount_of : List ℕ → ℕ
unfolding of_digits
amount_of call_data = of_digits 256 0 (drop 36 call_data)

twenty : (n : ℕ) → (n == 20) ≡ true → n ≡ 20
twenty n h = ground arith

pub length-address_word : (to : Text) → length (address_word to) ≡ 32
unfolding address_word
length-address_word to = elim (Bool-cases (length (decode_hex (trim_0x to)) == 20)) [
  | inl e ↦ rw (e) (
      omega (
        arith,
        length-append (replicate 12 0) (decode_hex (trim_0x to)),
        twenty (length (decode_hex (trim_0x to))) e,
      ))
  | inr e ↦ rw (e) refl
]

short : (n : ℕ) → n ≤ 32 → leb n 32 ≡ true
short n h = ground arith

amount_word-value :
    (units : ℕ) → units < 256 ^ 32 → of_digits 256 0 (amount_word (to_digits 256 units)) ≡ units
unfolding amount_word
amount_word-value units h =
    let bytes = to_digits 256 units in
    rw (short (length bytes) (length-to_digits 256 (omega arith) units 32 h))
      (value_before 256 (omega arith) (32 - length bytes) units)

-- An amount that a word can hold is what the transfer says.
pub amount_of-encode :
    (to : Text) (units : ℕ)
    → units < 256 ^ 32
    → amount_of (encode_erc20_transfer to (to_digits 256 units)) ≡ units
unfolding amount_of encode_erc20_transfer
amount_of-encode to units h =
    let front = transfer_selector ++ address_word to in
    let behind = amount_word (to_digits 256 units) in
    let front-length : length front ≡ 36 =
      omega (arith, length-append transfer_selector (address_word to), length-address_word to) in
    ap (of_digits 256 0)
      (ap (λ (n : ℕ). drop n (front ++ behind)) (sym front-length) ∙ drop-append front behind)
    ∙ amount_word-value units h
