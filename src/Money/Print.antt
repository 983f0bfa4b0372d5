-- ===== src/Money/Print.antt =====
-- The text of an amount, and what is read back from it.
use chainfx_payment_core.Common.{
  ℕ, suc, ◌-◌, ◌^◌, ◌<◌, ◌≡◌, refl, sym, ap, true, false, [], ◌∷◌, ◌++◌, append-nil, some, inl, inr,
  arith, length, take, ◌==◌, Bool-cases, if◌then◌else◌,
}
use chainfx_payment_core.Common.Int.{ℤ, pos}
use chainfx_payment_core.Common.Text.{
  Text, All, All-append, NoSpace, trim_space-NoSpace, cut-append, is_empty,
}
use chainfx_payment_core.Common.Decimal.{scan, Digits, parse_nat, parse_int, format_nat, pad_zeros}
use chainfx_payment_core.Common.Decimal.RoundTrip.{
  pad_zeros-Digits, parse_nat-pad_zeros, parse_int-Digits, length-pad_zeros,
}
use chainfx_payment_core.Money.{all_zeros, fit_fraction, join_parts, parse_fixed}

take-length : (s : Text) → take (length s) s ≡ s
take-length [] = refl
take-length (c ∷ s) = ap (λ (t : Text). c ∷ t) (take-length s)

fit_fraction-exact : (k : ℕ) (s : Text) → length s ≡ k → fit_fraction k (some s) ≡ s
unfolding fit_fraction
fit_fraction-exact k s e =
    rw (← e, take-length s)
      (let none_left : length s - length s ≡ 0 = omega arith in rw none_left (append-nil s))

all_zeros-scan : (s : Text) → all_zeros s ≡ true → scan s 0 ≡ some 0
unfolding all_zeros scan
all_zeros-scan [] h = refl
all_zeros-scan (c ∷ s) h = ground (arith, all_zeros-scan s)

all_zeros-parse_nat : (s : Text) {v : ℕ} → all_zeros s ≡ true → parse_nat s ≡ some v → v ≡ 0
unfolding parse_nat
all_zeros-parse_nat [] h e = cc
all_zeros-parse_nat (c ∷ s) h e = ground (arith, all_zeros-scan (c ∷ s))

read_fraction :
    (k v : ℕ)
    → v < 2 ^ 63
    → let s = pad_zeros k (format_nat v) in
      (if all_zeros s then some (pos 0) else parse_int s) ≡ some (pos v)
read_fraction k v lt =
    let s = pad_zeros k (format_nat v) in
    let read = parse_int-Digits s v (pad_zeros-Digits k v) (parse_nat-pad_zeros k v) lt in
    elim (Bool-cases (all_zeros s)) [
      | inl zeros ↦ rw zeros (
          ap (λ (n : ℕ). some (pos n))
            (sym (all_zeros-parse_nat s zeros (parse_nat-pad_zeros k v))))
      | inr other ↦ rw other read
    ]

pub Digits-NoSpace : (s : Text) → Digits s → NoSpace s
Digits-NoSpace [] h = tt
Digits-NoSpace (c ∷ s) h = (ground arith, Digits-NoSpace s h.1)

abbrev pub NoDot : Text → Type 0
NoDot = All (λ c. (c == b'.') ≡ false)

pub Digits-NoDot : (s : Text) → Digits s → NoDot s
Digits-NoDot [] h = tt
Digits-NoDot (c ∷ s) h = (ground arith, Digits-NoDot s h.1)

pub is_empty-append : (s : Text) (c : ℕ) (t : Text) → is_empty (s ++ c ∷ t) ≡ false
is_empty-append [] c t = refl
is_empty-append (a ∷ s) c t = refl

-- A whole part and a fraction of full length are read back as they were printed.
pub parse_fixed-parts :
    (before : Text) (whole scale : ℤ) (k v : ℕ)
    → NoSpace before
    → NoDot before
    → parse_int before ≡ some whole
    → v < 10 ^ suc k
    → v < 2 ^ 63
    → parse_fixed (before ++ b'.' ∷ pad_zeros (suc k) (format_nat v)) (suc k) scale
      ≡ some (join_parts whole (pos v) scale)
unfolding parse_fixed
parse_fixed-parts before whole scale k v spaces dots e fits lt =
    let frac = pad_zeros (suc k) (format_nat v) in
    let clean : NoSpace (before ++ b'.' ∷ frac) =
      All-append _ before (b'.' ∷ frac) spaces
        (refl, Digits-NoSpace frac (pad_zeros-Digits (suc k) v)) in
    ground (
      arith,
      trim_space-NoSpace (before ++ b'.' ∷ frac) clean,
      cut-append b'.' before frac dots,
      is_empty-append before b'.' frac,
      fit_fraction-exact (suc k) frac (length-pad_zeros v k fits),
      read_fraction (suc k) v lt,
      e,
    )
