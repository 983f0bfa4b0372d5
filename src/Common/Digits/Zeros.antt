-- ===== src/Common/Digits/Zeros.antt =====
-- The zeros that a list of digits starts with.
use chainfx_payment_core.Common.{
  ℕ, zero, suc, ◌+◌, ◌≤◌, ◌<◌, ◌≡◌, refl, ◌∙◌, ap, sym, List, [], ◌∷◌, ◌++◌, arith, length,
  length-drop, replicate, drop,
}
use chainfx_payment_core.Common.Text.{All-append}
use chainfx_payment_core.Common.Digits.{
  suc_test, to_digits, of_digits, leading_zeros, Below, to_digits-of_digits, of_digits-to_digits,
  to_digits-Below, of_digits-zeros,
}

leading_zeros-length : (ds : List ℕ) → leading_zeros ds ≤ length ds
unfolding leading_zeros
leading_zeros-length [] = omega arith
leading_zeros-length (d ∷ ds) = ground (arith, leading_zeros-length ds)

zeros-drop : (ds : List ℕ) → replicate (leading_zeros ds) 0 ++ drop (leading_zeros ds) ds ≡ ds
unfolding leading_zeros
zeros-drop [] = refl
zeros-drop (zero ∷ ds) = ap (λ es. 0 ∷ es) (zeros-drop ds)
zeros-drop (suc d ∷ ds) = rw (suc_test d) refl

leading_zeros-append :
    (k : ℕ) (ds : List ℕ) → leading_zeros (replicate k 0 ++ ds) ≡ k + leading_zeros ds
unfolding leading_zeros
leading_zeros-append zero ds = omega arith
leading_zeros-append (suc k) ds = omega (arith, leading_zeros-append k ds)

replicate-Below : (base k : ℕ) → 2 ≤ base → Below base (replicate k 0)
replicate-Below base zero h = tt
replicate-Below base (suc k) h = (omega arith, replicate-Below base k h)

module _ (base : ℕ) (two : 2 ≤ base) where
  leading_zeros-to_digits : (n : ℕ) → leading_zeros (to_digits base n) ≡ 0
  leading_zeros-to_digits n =
      let ds = to_digits base n in
      omega (
        arith,
        leading_zeros-length ds,
        length-drop (leading_zeros ds) ds,
        ap length (
            sym (to_digits-of_digits base two ds (to_digits-Below base two n))
            ∙ ap (to_digits base) (of_digits-to_digits base two n)),
      )

  pub zeros_before : (k n : ℕ) → leading_zeros (replicate k 0 ++ to_digits base n) ≡ k
  zeros_before k n =
      omega (arith, leading_zeros-append k (to_digits base n), leading_zeros-to_digits n)

  pub value_before : (k n : ℕ) → of_digits base 0 (replicate k 0 ++ to_digits base n) ≡ n
  value_before k n = of_digits-zeros base k (to_digits base n) ∙ of_digits-to_digits base two n

  pub digits-Below : (k n : ℕ) → Below base (replicate k 0 ++ to_digits base n)
  digits-Below k n =
      All-append (λ d. d < base) _ _ (replicate-Below base k two) (to_digits-Below base two n)

  -- A list of digits is its zeros and the digits of its value.
  pub zeros-to_digits :
      (ds : List ℕ)
      → Below base ds
      → replicate (leading_zeros ds) 0 ++ to_digits base (of_digits base 0 ds) ≡ ds
  zeros-to_digits ds h =
      ap (λ es. replicate (leading_zeros ds) 0 ++ es) (to_digits-of_digits base two ds h)
      ∙ zeros-drop ds
