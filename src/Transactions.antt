-- ===== src/Transactions.antt =====
-- internal/transactions: what settlement_policy.go and contracts.go share. Strings are lists of
-- bytes; an address and a hash are the numbers that their bytes spell, so the zero value is 0.
pub mod Policy
use chainfx_payment_core.Common.{
  ℕ, ◌≡◌, ◌≢◌, refl, Bool, true, false, List, [], ◌∷◌, ◌||◌, arith, inl, inr, Bool-cases,
  if◌then◌else◌,
}
use chainfx_payment_core.Common.Text.{
  Text, codes, text_eq, text_eq_iff, is_empty, trim_space, to_upper,
}

unfoldable pub one_of : Text → List Text → Bool
one_of s [] = false
one_of s (t ∷ ts) = text_eq s t || one_of s ts

abbrev pub bsc : Text
bsc = codes "BSC"

-- The aliases of a network; the empty name is BSC.
unfoldable pub normalize_network : Text → Text
normalize_network network =
    let s = to_upper (trim_space network) in
    if one_of s (codes "BNB" ∷ codes "BEP20" ∷ codes "BINANCE" ∷ codes "BINANCE_SMART_CHAIN" ∷ [])
    then bsc
    else if text_eq s (codes "MATIC")
    then codes "POLYGON"
    else if is_empty s
    then bsc
    else s

unfoldable pub normalize_asset : Text → Text
normalize_asset asset =
    let s = to_upper (trim_space asset) in if is_empty s then codes "USDT" else s

pub normalize_network-ne-nil : (s : Text) → is_empty (normalize_network s) ≡ false
unfolding normalize_network
normalize_network-ne-nil s = ground arith
