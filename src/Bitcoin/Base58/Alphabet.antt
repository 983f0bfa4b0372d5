-- ===== src/Bitcoin/Base58/Alphabet.antt =====
-- The letters of internal/bitcoin/base58.go and their places.
use chainfx_payment_core.Common.{
  ℕ, zero, suc, ◌+◌, ◌*◌, ◌<◌, ◌≡◌, ◌≢◌, sym, refl, ◌∙◌, Bool, true, false, ◌&&◌, List, [], ◌∷◌,
  map, Option, none, some, ◌==◌, Bool-cases, Option-cases, inl, inr, length, get_or, arith,
}
use mathlib.Core.Path.{subst}
use chainfx_payment_core.Common.Text.{Text}
use chainfx_payment_core.Common.Digits.{of_digits, Below, leading_zeros}
use chainfx_payment_core.Bitcoin.Base58.{base58_alphabet, index_of, number, leading_ones, letter}

place : ℕ → Option ℕ
place c = index_of c base58_alphabet

is_one : ℕ → Bool
is_one d = letter d == b'1'

same_bit : Bool → Bool → Bool
same_bit true b = b
same_bit false true = false
same_bit false false = true

-- The letters below a bound are found at their places, and only the first of them is '1'.
is_place : Option ℕ → ℕ → Bool
is_place none d = false
is_place (some i) d = i == d

in_place : ℕ → Bool
in_place zero = true
in_place (suc d) = is_place (place (letter d)) d && same_bit (is_one d) (d == 0) && in_place d

all_in_place : in_place 58 ≡ true
unfolding in_place place is_place same_bit is_one letter index_of base58_alphabet
all_in_place = refl

is_place-some : (o : Option ℕ) (d : ℕ) → is_place o d ≡ true → o ≡ some d
unfolding is_place
is_place-some none d h = absurd (ground (arith, h))
is_place-some (some i) d h = ground (arith, h)

same_bit-eq : (a b : Bool) → same_bit a b ≡ true → a ≡ b
unfolding same_bit
same_bit-eq true b h = ground (arith, h)
same_bit-eq false true h = absurd (ground (arith, h))
same_bit-eq false false h = refl

conj : (a b c : Bool) → a && b && c ≡ true → (a ≡ true) × (b ≡ true) × (c ≡ true)
conj a b c h = ground arith

InPlace : ℕ → Type 0
InPlace d = (place (letter d) ≡ some d) × (is_one d ≡ (d == 0))

below_in_place : (n d : ℕ) → in_place n ≡ true → d < n → InPlace d
unfolding in_place InPlace
below_in_place zero d h l = absurd (omega arith)
below_in_place (suc n) d h l =
    let (p, q, r) =
      conj (is_place (place (letter n)) n) (same_bit (is_one n) (n == 0)) (in_place n) h in
    elim (Bool-cases (d == n)) [
      | inl e ↦
          subst (λ (m : ℕ). InPlace m) (ground (arith, e))
            (is_place-some (place (letter n)) n p, same_bit-eq (is_one n) (n == 0) q)
      | inr e ↦ below_in_place n d r (ground (arith, e, l))
    ]

index_of-some : (s : Text) (c i : ℕ) → index_of c s ≡ some i → (get_or s i 0 ≡ c) × (i < length s)
unfolding index_of
index_of-some [] c i h = absurd (ground (arith, h))
index_of-some (a ∷ s) c zero h = elim (Bool-cases (a == c)) [
  | inl e ↦ (ground (arith, e), omega arith)
  | inr e ↦ elim (Option-cases (index_of c s)) [
    | inl k ↦ absurd (ground (arith, h, e, k))
    | inr (j, k) ↦ absurd (ground (arith, h, e, k))
  ]
]
index_of-some (a ∷ s) c (suc i) h = elim (Bool-cases (a == c)) [
  | inl e ↦ absurd (ground (arith, h, e))
  | inr e ↦ elim (Option-cases (index_of c s)) [
    | inl k ↦ absurd (ground (arith, h, e, k))
    | inr (j, k) ↦
        let (p, q) = index_of-some s c i (ground (arith, h, e, k)) in (p, omega (arith, q))
  ]
]

pub number-letters :
    (ds : List ℕ) (acc : ℕ) → Below 58 ds → number (map letter ds) acc ≡ some (of_digits 58 acc ds)
unfolding number of_digits place InPlace
number-letters [] acc k = refl
number-letters (d ∷ ds) acc k =
    rw (number, (below_in_place 58 d all_in_place k.0).0) (number-letters ds (acc * 58 + d) k.1)

pub leading_ones-letters :
    (ds : List ℕ) → Below 58 ds → leading_ones (map letter ds) ≡ leading_zeros ds
unfolding leading_ones leading_zeros is_one InPlace
leading_ones-letters [] k = refl
leading_ones-letters (d ∷ ds) k =
    ground (arith, (below_in_place 58 d all_in_place k.0).1, leading_ones-letters ds k.1)

index_of-letter : (c i : ℕ) → index_of c base58_alphabet ≡ some i → (letter i ≡ c) × (i < 58)
unfolding letter base58_alphabet
index_of-letter c i h = index_of-some base58_alphabet c i h

number_step :
    (c : ℕ) (s : Text) (acc i : ℕ)
    → index_of c base58_alphabet ≡ some i
    → number (c ∷ s) acc ≡ number s (acc * 58 + i)
unfolding number
number_step c s acc i k = rw (number, k) refl

not_a_letter :
    (c : ℕ) (s : Text) (acc n : ℕ) → index_of c base58_alphabet ≡ none → number (c ∷ s) acc ≢ some n
unfolding number
not_a_letter c s acc n k = rw (number, k) (λ h. ground (arith, h))

-- A text that is a number is made of letters of the alphabet.
pub number-some :
    (s : Text) (acc n : ℕ)
    → number s acc ≡ some n
    → (ds : List ℕ) × Below 58 ds × (s ≡ map letter ds) × (of_digits 58 acc ds ≡ n)
unfolding number of_digits
number-some [] acc n h = ([], tt, refl, ground (arith, h))
number-some (c ∷ s) acc n h = elim (Option-cases (index_of c base58_alphabet)) [
  | inl k ↦ absurd (not_a_letter c s acc n k h)
  | inr (i, k) ↦
      let (p, q) = index_of-letter c i k in
      let (ds, below, e, f) = number-some s (acc * 58 + i) n (sym (number_step c s acc i k) ∙ h) in
      (i ∷ ds, (q, below), rw (p, e) refl, f)
]
