-- ===== src/Common/Digits.antt =====
-- Numbers in a base as lists of digits, the first the highest: what big.Int.Bytes, big.Int.SetBytes
-- and the loops over a base compute.
pub mod Zeros
use native.Mathlib.Nat.{
  pow-suc, pow-zero, suc-mul, mul-add-mod_self_right, mod-lt, div-add-mod', div-lt_self,
  div-lt_iff_lt-mul, mul-add-div_right, mod-eq_of_lt, div-eq_of_lt, add-mod_right,
}
use chainfx_payment_core.Common.{
  ℕ, zero, suc, ◌+◌, ◌-◌, ◌*◌, ◌/◌, ◌%◌, ◌^◌, ◌≤◌, ◌<◌, ◌≡◌, refl, ◌≢◌, ◌∙◌, Bool, true, false,
  drop, map, append_assoc, append-nil, length-append, Bool-cases, inl, inr, ==_iff, ap, sym, List,
  [], ◌∷◌, ◌++◌, Option, none, some, arith, ltb, ◌==◌, if◌then◌else◌, length, replicate,
}
use chainfx_payment_core.Common.Text.{All, All-append}

-- The digits of `n` before `out`; a fuel of `n` is enough, since each round divides by two or more.
unfoldable pub digits_before : ℕ → ℕ → ℕ → List ℕ → List ℕ
digits_before base zero n out = out
digits_before base (suc fuel) n out =
    let rest = digits_before base fuel (n / base) (n % base ∷ out) in if n == 0 then out else rest

-- The digits of a number, none of zero.
unfoldable pub to_digits : ℕ → ℕ → List ℕ
unfolding digits_before
to_digits base n = digits_before base n n []

unfoldable pub of_digits : ℕ → ℕ → List ℕ → ℕ
of_digits base acc [] = acc
of_digits base acc (d ∷ ds) = of_digits base (acc * base + d) ds

abbrev pub Below : ℕ → List ℕ → Type 0
Below base = All (λ d. d < base)

-- How many zeros the list starts with.
unfoldable pub leading_zeros : List ℕ → ℕ
leading_zeros [] = 0
leading_zeros (d ∷ ds) = if d == 0 then suc (leading_zeros ds) else 0

zero_test : (n : ℕ) → n ≤ 0 → (n == 0) ≡ true
zero_test n h = ground arith

pub suc_test : (n : ℕ) → (suc n == 0) ≡ false
suc_test n = ground arith

-- Bases of two or more.
module _ (base : ℕ) (two : 2 ≤ base) where
  smaller : (n : ℕ) → 1 ≤ n → n / base < n
  smaller n h = div-lt_self h two

  of_digits-digits_before :
      (fuel n : ℕ) (out : List ℕ)
      → n ≤ fuel
      → of_digits base 0 (digits_before base fuel n out) ≡ of_digits base n out
  unfolding digits_before of_digits
  of_digits-digits_before zero n out k = ap (λ (m : ℕ). of_digits base m out) (omega arith)
  of_digits-digits_before (suc fuel) n out k = elim (Bool-cases (n == 0)) [
    | inl h ↦ rw (digits_before, h) (ap (λ (m : ℕ). of_digits base m out) (ground arith))
    | inr h ↦
        rw (digits_before, h)
          (of_digits-digits_before fuel (n / base) (n % base ∷ out)
              (omega (arith, smaller n (ground arith)))
            ∙ ap (λ (m : ℕ). of_digits base m out) (div-add-mod' n base))
  ]

  pub of_digits-to_digits : (n : ℕ) → of_digits base 0 (to_digits base n) ≡ n
  unfolding to_digits of_digits
  of_digits-to_digits n = of_digits-digits_before n n [] (omega arith)

  digits_before-Below :
      (fuel n : ℕ) (out : List ℕ) → Below base out → Below base (digits_before base fuel n out)
  unfolding digits_before
  digits_before-Below zero n out k = k
  digits_before-Below (suc fuel) n out k = elim (Bool-cases (n == 0)) [
    | inl h ↦ rw (digits_before, h) k
    | inr h ↦
        rw (digits_before, h)
          (digits_before-Below fuel (n / base) (n % base ∷ out) (mod-lt n (omega arith), k))
  ]

  pub to_digits-Below : (n : ℕ) → Below base (to_digits base n)
  unfolding to_digits
  to_digits-Below n = digits_before-Below n n [] tt

  -- More fuel than enough changes nothing, and what is there already stays behind.
  digits_before-append :
      (fuel n : ℕ) (out : List ℕ)
      → digits_before base fuel n out ≡ digits_before base fuel n [] ++ out
  unfolding digits_before
  digits_before-append zero n out = refl
  digits_before-append (suc fuel) n out = elim (Bool-cases (n == 0)) [
    | inl h ↦ rw (digits_before, h) refl
    | inr h ↦
        rw (digits_before, h)
          (digits_before-append fuel (n / base) (n % base ∷ out)
            ∙ sym (
                ap (λ ds. ds ++ out) (digits_before-append fuel (n / base) (n % base ∷ []))
                ∙ append_assoc (digits_before base fuel (n / base) []) (n % base ∷ []) out))
  ]

  digits_before_fuel :
      (fuel fuel' n : ℕ) (out : List ℕ)
      → n ≤ fuel
      → n ≤ fuel'
      → digits_before base fuel n out ≡ digits_before base fuel' n out
  unfolding digits_before
  digits_before_fuel zero zero n out k l = refl
  digits_before_fuel zero (suc fuel') n out k l = rw (zero_test n k) refl
  digits_before_fuel (suc fuel) zero n out k l = rw (zero_test n l) refl
  digits_before_fuel (suc fuel) (suc fuel') n out k l = elim (Bool-cases (n == 0)) [
    | inl h ↦ rw (digits_before, h) refl
    | inr h ↦
        rw (digits_before, h)
          (digits_before_fuel fuel fuel' (n / base) (n % base ∷ out)
            (omega (arith, smaller n (ground arith))) (omega (arith, smaller n (ground arith))))
  ]

  pub to_digits-last :
      (n : ℕ) → 1 ≤ n → to_digits base n ≡ to_digits base (n / base) ++ n % base ∷ []
  unfolding to_digits digits_before
  to_digits-last zero h = absurd (omega arith)
  to_digits-last (suc n) h =
      rw (digits_before, suc_test n)
        (digits_before_fuel n (suc n / base) (suc n / base) (suc n % base ∷ [])
            (omega (arith, smaller (suc n) h)) (omega arith)
          ∙ digits_before-append (suc n / base) (suc n / base) (suc n % base ∷ []))

  positive : (acc d : ℕ) → 1 ≤ acc → 1 ≤ acc * base + d
  positive zero d h = absurd (omega arith)
  positive (suc acc) d h = omega (arith, suc-mul acc base)

  next-div : (acc d : ℕ) → d < base → (acc * base + d) / base ≡ acc
  next-div acc d h = mul-add-div_right (omega arith) acc d ∙ omega (arith, div-eq_of_lt h)

  next-mod : (acc d : ℕ) → d < base → (acc * base + d) % base ≡ d
  next-mod acc d h = mul-add-mod_self_right acc base d ∙ mod-eq_of_lt h

  pub to_digits-of_digits_pos :
      (acc : ℕ) (ds : List ℕ)
      → 1 ≤ acc
      → Below base ds
      → to_digits base (of_digits base acc ds) ≡ to_digits base acc ++ ds
  unfolding of_digits
  to_digits-of_digits_pos acc [] h k = sym (append-nil (to_digits base acc))
  to_digits-of_digits_pos acc (d ∷ ds) h k =
      to_digits-of_digits_pos (acc * base + d) ds (positive acc d h) k.1
      ∙ ap (λ es. es ++ ds) (to_digits-last (acc * base + d) (positive acc d h))
      ∙ rw (next-div acc d k.0, next-mod acc d k.0) (append_assoc (to_digits base acc) (d ∷ []) ds)

  -- Read and written again, a list has lost the zeros that it starts with.
  pub to_digits-of_digits :
      (ds : List ℕ)
      → Below base ds
      → to_digits base (of_digits base 0 ds) ≡ drop (leading_zeros ds) ds
  unfolding of_digits leading_zeros to_digits
  to_digits-of_digits [] k = refl
  to_digits-of_digits (zero ∷ ds) k =
      ap (λ (m : ℕ). to_digits base (of_digits base m ds)) (omega arith)
      ∙ to_digits-of_digits ds k.1
  to_digits-of_digits (suc d ∷ ds) k =
      ap (λ (m : ℕ). to_digits base (of_digits base m ds)) (omega arith)
      ∙ to_digits-of_digits_pos (suc d) ds (omega arith) k.1
      ∙ ap (λ es. es ++ ds) (to_digits-last (suc d) (omega arith))
      ∙ rw (div-eq_of_lt k.0, mod-eq_of_lt k.0, suc_test d) refl

  length-digits_before :
      (fuel n k : ℕ) (out : List ℕ)
      → n < base ^ k
      → length (digits_before base fuel n out) ≤ k + length out
  unfolding digits_before
  length-digits_before zero n k out h = omega arith
  length-digits_before (suc fuel) n zero out h =
      rw (zero_test n (omega (arith, h, pow-zero base))) (omega arith)
  length-digits_before (suc fuel) n (suc k) out h = elim (Bool-cases (n == 0)) [
    | inl e ↦ rw (e) (omega arith)
    | inr e ↦ rw (e) (
        omega (
          arith,
          length-digits_before fuel (n / base) k (n % base ∷ out)
              ((div-lt_iff_lt-mul (omega arith)).1 (omega (arith, h, pow-suc base k))),
        ))
  ]

  -- A number below base^k has at most k digits.
  pub length-to_digits : (n k : ℕ) → n < base ^ k → length (to_digits base n) ≤ k
  unfolding to_digits
  length-to_digits n k h = omega (arith, length-digits_before n n k [] h)

pub of_digits-append :
    (base acc : ℕ) (ds es : List ℕ)
    → of_digits base acc (ds ++ es) ≡ of_digits base (of_digits base acc ds) es
unfolding of_digits
of_digits-append base acc [] es = refl
of_digits-append base acc (d ∷ ds) es = of_digits-append base (acc * base + d) ds es

pub of_digits-zeros :
    (base k : ℕ) (ds : List ℕ) → of_digits base 0 (replicate k 0 ++ ds) ≡ of_digits base 0 ds
unfolding of_digits
of_digits-zeros base zero ds = refl
of_digits-zeros base (suc k) ds =
    ap (λ (m : ℕ). of_digits base m (replicate k 0 ++ ds)) (omega arith) ∙ of_digits-zeros base k ds
