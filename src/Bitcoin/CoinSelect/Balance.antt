-- ===== src/Bitcoin/CoinSelect/Balance.antt =====
-- What SelectUTXOs in internal/bitcoin/coin_select.go returns, for amounts that fit in int64.
use chainfx_payment_core.Common.{
  ℕ, ◌+◌, ◌*◌, ◌^◌, ◌≤◌, ◌<◌, ◌≡◌, refl, ap, sym, ◌∙◌, List, [], ◌∷◌, ◌++◌, none, ok, arith, length,
  length-append, Option-cases, inl, inr, ◌⊎◌,
}
use mathlib.Core.Path.{subst}
use chainfx_payment_core.Common.Int.{ℤ, pos, pos_part, neg_part}
use chainfx_payment_core.Common.Int64.{add64, add64-pos}
use chainfx_payment_core.Bitcoin.CoinSelect.{Utxo, Selection, round, fee_of, choose, end_or}
use chainfx_payment_core.Bitcoin.CoinSelect.Rounds.{
  Balanced, round-Balanced, round-enough, vsize, fee_of-pos, fee_mono,
}

unfoldable pub total : List Utxo → ℕ
total [] = 0
total (u ∷ us) = pos_part u.value_sats + total us

total-append : (us vs : List Utxo) → total (us ++ vs) ≡ total us + total vs
unfolding total
total-append [] vs = omega arith
total-append (u ∷ us) vs = omega (arith, total-append us vs)

unfoldable pub NonNegative : List Utxo → Type 0
NonNegative [] = Unit
NonNegative (u ∷ us) = (neg_part u.value_sats ≡ 0) × NonNegative us

add_value :
    (s : ℕ) (v : ℤ)
    → neg_part v ≡ 0
    → s + pos_part v < 2 ^ 63
    → add64 (pos s) v ≡ pos (s + pos_part v)
add_value s v h l = ground (arith, add64-pos s (pos_part v) l)

grown :
    (chosen : List Utxo) (u : Utxo)
    → (length (chosen ++ u ∷ []) ≡ length chosen + 1)
      × (total (chosen ++ u ∷ []) ≡ total chosen + pos_part u.value_sats)
unfolding total
grown chosen u = omega (arith, length-append chosen (u ∷ []), total-append chosen (u ∷ []))

-- The coins that are selected pay for the amount, the change and the fee, to the unit; the change is
-- zero or no dust, and the fee is at least that of a transaction without change.
pub IsFair : ℕ → ℕ → ℕ → Selection → Type 0
IsFair a rate d sel =
    Balanced a d (total sel.selected) (vsize (length sel.selected) 1 * rate)
      (sel.change_sats, sel.fee_sats)

-- The loop goes on from coins whose sum is what is accumulated.
module _ (a rate d all : ℕ) (few : all < 2 ^ 32) (fits : a + vsize all 2 * rate < 2 ^ 63) where
  fees :
      (n : ℕ)
      → n ≤ all
      → (fee_of (pos rate) n 2 ≡ pos (vsize n 2 * rate))
        × (fee_of (pos rate) n 1 ≡ pos (vsize n 1 * rate))
        × (vsize n 1 * rate ≤ vsize n 2 * rate)
        × (vsize n 2 * rate ≤ vsize all 2 * rate)
  fees n h =
      let up : vsize n 2 * rate ≤ vsize all 2 * rate = fee_mono rate n 2 all 2 h (omega arith) in
      let one : vsize n 1 * rate ≤ vsize n 2 * rate =
        fee_mono rate n 1 n 2 (omega arith) (omega arith) in
      (
        fee_of-pos rate n 2 (omega arith) (omega arith) (omega arith),
        fee_of-pos rate n 1 (omega arith) (omega arith) (omega arith),
        one,
        up,
      )

  -- The round on coins of which one is new.
  next_round :
      (chosen : List Utxo) (u : Utxo)
      → neg_part u.value_sats ≡ 0
      → length chosen + 1 ≤ all
      → total chosen + pos_part u.value_sats < 2 ^ 63
      → let chosen' = chosen ++ u ∷ [] in
        let n = length chosen' in
        (add64 (pos (total chosen)) u.value_sats ≡ pos (total chosen'))
        × (round
              (pos a)
              (pos d)
              (add64 (pos (total chosen)) u.value_sats)
              (fee_of (pos rate) n 2)
              (fee_of (pos rate) n 1)
            ≡ round
                (pos a)
                (pos d)
                (pos (total chosen'))
                (pos (vsize n 2 * rate))
                (pos (vsize n 1 * rate)))
  next_round chosen u p l b =
      let (m, t) = grown chosen u in
      let n = length (chosen ++ u ∷ []) in
      let f = fees n (omega arith) in
      let s : add64 (pos (total chosen)) u.value_sats ≡ pos (total (chosen ++ u ∷ [])) =
        add_value (total chosen) u.value_sats p b ∙ ap pos (sym t) in
      (s, rw (s, f.0, f.1))

  pub choose-IsFair :
      (us chosen : List Utxo) (sel : Selection)
      → NonNegative us
      → length chosen + length us ≤ all
      → total chosen + total us < 2 ^ 63
      → choose (pos a) (pos rate) (pos d) all us chosen (pos (total chosen)) ≡ ok sel
      → IsFair a rate d sel
  unfolding choose end_or IsFair NonNegative total
  choose-IsFair [] chosen sel p l b e = ground arith
  choose-IsFair (u ∷ us) chosen sel p l b e =
      let chosen' = chosen ++ u ∷ [] in
      let n = length chosen' in
      let g = grown chosen u in
      let f = fees n (omega (arith, g)) in
      let r = next_round chosen u p.0 (omega arith) (omega arith) in
      elim (Option-cases (
        round (pos a) (pos d) (pos (total chosen')) (pos (vsize n 2 * rate))
          (pos (vsize n 1 * rate)))) [
            | inl q ↦
                choose-IsFair us chosen' sel p.1 (omega (arith, g)) (omega (arith, g))
                  (rw (r.1, q, r.0) at e)
            | inr ((c, k), q) ↦
                let e' = rw (r.1, q) at e in
                let y =
                  round-Balanced a d (total chosen') (vsize n 2 * rate) (vsize n 1 * rate) (c, k)
                    (omega (arith, f)) (omega (arith, f)) (omega (arith, g)) q in
                let h : record { selected = chosen'; change_sats = c; fee_sats = k } ≡ sel =
                  ground arith in
                subst (λ x. IsFair a rate d x) h y
          ]

  -- The first coin ends the loop, or is not enough and the loop goes on.
  one_round :
      (u : Utxo) (us chosen : List Utxo)
      → neg_part u.value_sats ≡ 0
      → length chosen + 1 ≤ all
      → total chosen + pos_part u.value_sats < 2 ^ 63
      → let chosen' = chosen ++ u ∷ [] in
        let n = length chosen' in
        let result = choose (pos a) (pos rate) (pos d) all (u ∷ us) chosen (pos (total chosen)) in
        ((sel : Selection) × (result ≡ ok sel))
        ⊎ ((round
                (pos a)
                (pos d)
                (pos (total chosen'))
                (pos (vsize n 2 * rate))
                (pos (vsize n 1 * rate))
              ≡ none)
            × (result ≡ choose (pos a) (pos rate) (pos d) all us chosen' (pos (total chosen'))))
  unfolding choose end_or
  one_round u us chosen p l b =
      let chosen' = chosen ++ u ∷ [] in
      let n = length chosen' in
      let r = next_round chosen u p l b in
      elim (Option-cases (
        round (pos a) (pos d) (pos (total chosen')) (pos (vsize n 2 * rate))
          (pos (vsize n 1 * rate)))) [
            | inr ((c, k), q) ↦
                inl (record { selected = chosen'; change_sats = c; fee_sats = k }, rw (r.1, q) refl)
            | inl q ↦ inr (q, rw (r.1, q, r.0))
          ]

  -- Coins that cover the amount and the fee of spending them all with change are enough.
  pub choose_enough :
      (u : Utxo) (us chosen : List Utxo)
      → NonNegative (u ∷ us)
      → length chosen + length (u ∷ us) ≡ all
      → total chosen + total (u ∷ us) < 2 ^ 63
      → a + vsize all 2 * rate ≤ total chosen + total (u ∷ us)
      → (sel : Selection) × (choose
            (pos a)
            (pos rate)
            (pos d)
            all
            (u ∷ us)
            chosen
            (pos (total chosen))
          ≡ ok sel)
  unfolding NonNegative total
  choose_enough u [] chosen p l b e =
      let chosen' = chosen ++ u ∷ [] in
      let g = grown chosen u in
      let f = fees all (omega arith) in
      let m : length chosen' ≡ all = omega (arith, g, l) in
      elim (one_round u [] chosen p.0 (omega arith) (omega arith)) [
        | inl done ↦ done
        | inr (q, next) ↦ absurd (
            round-enough a d (total chosen') (vsize all 2 * rate) (vsize all 1 * rate)
              (omega (arith, f)) (omega (arith, f)) (omega (arith, g)) (omega (arith, g))
              (rw m at q))
      ]
  choose_enough u (v ∷ vs) chosen p l b e =
      let g = grown chosen u in
      elim (one_round u (v ∷ vs) chosen p.0 (omega arith) (omega arith)) [
        | inl done ↦ done
        | inr (q, next) ↦
            let (sel, r) =
              choose_enough v vs (chosen ++ u ∷ []) p.1 (omega (arith, g)) (omega (arith, g))
                (omega (arith, g)) in
            (sel, next ∙ r)
      ]
