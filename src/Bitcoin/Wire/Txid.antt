-- ===== src/Bitcoin/Wire/Txid.antt =====
-- The transaction ids of internal/bitcoin/util.go.
use chainfx_payment_core.Common.{
  ℕ, ◌*◌, ◌==◌, Bool-cases, ◌+◌, ◌-◌, ◌/◌, ◌%◌, ◌<◌, ◌≡◌, ◌∙◌, ap, sym, append_assoc, append-nil,
  Option-cases, inl, inr, ok, length, [], ◌∷◌, ◌++◌, some, ltb, if◌then◌else◌, arith,
}
use chainfx_payment_core.Common.Text.{Text, lower, to_lower}
use chainfx_payment_core.Bitcoin.Wire.{hex_nibble, reverse_pairs, reverse_txid}

unfoldable pub hex_digit : ℕ → ℕ
hex_digit h = if ltb h 10 then b'0' + h else b'a' + (h - 10)

-- The bytes from the last to the first, each as two digits: how an id is shown.
unfoldable pub shown : Text → Text
unfolding hex_digit
shown [] = []
shown (b ∷ bs) = shown bs ++ (hex_digit (b / 16) ∷ hex_digit (b % 16) ∷ [])

nibble : (c h : ℕ) → hex_nibble c ≡ some h → (hex_digit h ≡ lower c) × (h < 16)
unfolding hex_nibble hex_digit
nibble c h e = ground arith

digits_of : (hi lo : ℕ) → lo < 16 → ((hi * 16 + lo) / 16 ≡ hi) × ((hi * 16 + lo) % 16 ≡ lo)
digits_of hi lo h = omega arith

-- The bytes that are read, shown again, are the digits in lower case.
shown-reverse_pairs :
    (s b r : Text) → length s % 2 ≡ 0 → reverse_pairs s b ≡ ok r → shown r ≡ shown b ++ to_lower s
unfolding reverse_pairs to_lower shown
shown-reverse_pairs [] b r h e =
    let q : b ≡ r = ground arith in ap shown (sym q) ∙ sym (append-nil (shown b))
shown-reverse_pairs (c ∷ []) b r h e = absurd (omega arith)
shown-reverse_pairs (c ∷ c' ∷ s) b r h e = elim (Option-cases (hex_nibble c)) [
  | inl p ↦ let q = rw (p, reverse_pairs) at e in absurd (ground arith)
  | inr (hi, p) ↦ elim (Option-cases (hex_nibble c')) [
    | inl p' ↦ let q = rw (p, p', reverse_pairs) at e in absurd (ground arith)
    | inr (lo, p') ↦
        let n = nibble c hi p in
        let n' = nibble c' lo p' in
        let d = digits_of hi lo n'.1 in
        shown-reverse_pairs s ((hi * 16 + lo) ∷ b) r (omega arith) (rw (p, p', reverse_pairs) at e)
        ∙ rw (d.0, d.1, n.0, n'.0, append_assoc (shown b) (lower c ∷ lower c' ∷ []) (to_lower s))
  ]
]

-- A transaction id that is read has 64 characters, and its bytes shown from the last to the first
-- are those characters in lower case.
pub reverse_txid-shown :
    (s b : Text) → reverse_txid s ≡ ok b → (length s ≡ 64) × (shown b ≡ to_lower s)
unfolding reverse_txid shown
reverse_txid-shown s b e = elim (Bool-cases (length s == 64)) [
  | inr p ↦ let q = rw p at e in absurd (ground arith)
  | inl p ↦
      let l : length s ≡ 64 = ground arith in (l, shown-reverse_pairs s [] b (rw l) (rw p at e))
]
