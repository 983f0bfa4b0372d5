-- ===== src/Common/Assoc.antt =====
-- Go maps as association lists: each lookup law is an equation with a test, at every key.
use mathlib.Core.Path.{◌≡◌, refl}
use native.Mathlib.Omega.{arith}
use chainfx_payment_core.Common.{
  ℕ, ◌+◌, ◌-◌, ◌↔◌, Bool, true, ◌&&◌, List, [], ◌∷◌, ◌++◌, Option, none, some, if◌then◌else◌,
  ◌==◌ as nat_beq, ==_iff,
}
use chainfx_payment_core.Common.Text.{Text, text_eq, text_eq_iff}

-- What Go's maps need of a key.
pub record Eq {ℓ} (A : Type ℓ) : Type ℓ where
  pub beq : A → A → Bool
  pub beq_iff : (a b : A) → (beq a b ≡ true) ↔ (a ≡ b)

unfoldable pub text_pair_eq : Text × Text → Text × Text → Bool
text_pair_eq (a, b) (c, d) = text_eq a c && text_eq b d

pub text_pair_eq_iff : (p q : Text × Text) → (text_pair_eq p q ≡ true) ↔ (p ≡ q)
unfolding text_pair_eq
text_pair_eq_iff (a, b) (c, d) = ground (arith, text_eq_iff a c, text_eq_iff b d)

instance abbrev pub text_key : Eq Text
text_key = record { beq = text_eq; beq_iff = text_eq_iff }

instance abbrev pub nat_key : Eq ℕ
nat_key = record { beq = nat_beq; beq_iff = ==_iff }

instance abbrev pub text_pair_key : Eq (Text × Text)
text_pair_key = record { beq = text_pair_eq; beq_iff = text_pair_eq_iff }

abbrev pub only_if {ℓ} : {A : Type ℓ} → (A → Bool) → Option A → Option A
only_if p none = none
only_if p (some v) = if p v then some v else none

module _ {ℓ κ} {K : Type ℓ} {V : Type κ} ⦃e : Eq K⦄ where
  unfoldable pub lookup : K → List (K × V) → Option V
  lookup j [] = none
  lookup j ((k, v) ∷ m) = if e.beq k j then some v else lookup j m

  unfoldable pub insert : K → V → List (K × V) → List (K × V)
  insert k v [] = (k, v) ∷ []
  insert k v ((k', v') ∷ m) = if e.beq k k' then (k, v) ∷ m else (k', v') ∷ insert k v m

  unfoldable pub remove : K → List (K × V) → List (K × V)
  remove k [] = []
  remove k ((k', v') ∷ m) = let rest = remove k m in if e.beq k k' then rest else (k', v') ∷ rest

  -- The loop that deletes the entries that fail a test; a key goes with its entry.
  unfoldable pub keep : (V → Bool) → List (K × V) → List (K × V)
  unfolding remove
  keep p [] = []
  keep p ((k, v) ∷ m) = let rest = keep p m in if p v then (k, v) ∷ rest else remove k rest

  pub lookup-insert :
      (k : K) (v : V) (m : List (K × V)) (j : K)
      → lookup j (insert k v m) ≡ (if e.beq k j then some v else lookup j m)
  unfolding lookup insert
  lookup-insert k v [] j = refl
  lookup-insert k v ((k', v') ∷ m) j =
      ground (arith, lookup-insert k v m j, e.beq_iff k j, e.beq_iff k k', e.beq_iff k' j)

  pub lookup-remove :
      (k : K) (m : List (K × V)) (j : K)
      → lookup j (remove k m) ≡ (if e.beq k j then none else lookup j m)
  unfolding lookup remove
  lookup-remove k [] j = ground arith
  lookup-remove k ((k', v') ∷ m) j =
      ground (arith, lookup-remove k m j, e.beq_iff k j, e.beq_iff k k', e.beq_iff k' j)

  pub lookup-keep :
      (p : V → Bool) (m : List (K × V)) (j : K) → lookup j (keep p m) ≡ only_if p (lookup j m)
  unfolding lookup keep
  lookup-keep p [] j = refl
  lookup-keep p ((k, v) ∷ m) j =
      ground (arith, lookup-keep p m j, lookup-remove k (keep p m) j, e.beq_iff k j)

-- A multiset of keys, as a list.
module _ {ℓ} {K : Type ℓ} ⦃e : Eq K⦄ where
  unfoldable pub count : K → List K → ℕ
  count k [] = 0
  count k (k' ∷ ks) = (if e.beq k k' then 1 else 0) + count k ks

  unfoldable pub remove_first : K → List K → List K
  remove_first k [] = []
  remove_first k (k' ∷ ks) = let rest = remove_first k ks in if e.beq k k' then ks else k' ∷ rest

  pub count-remove_first :
      (k : K) (ks : List K) (j : K)
      → count j (remove_first k ks) ≡ (if e.beq k j then count j ks - 1 else count j ks)
  unfolding count remove_first
  count-remove_first k [] j = ground arith
  count-remove_first k (k' ∷ ks) j =
      ground (arith, count-remove_first k ks j, e.beq_iff k j, e.beq_iff k k', e.beq_iff j k')

  pub count-append : (k : K) (ks js : List K) → count k (ks ++ js) ≡ count k ks + count k js
  unfolding count
  count-append k [] js = omega arith
  count-append k (k' ∷ ks) js = omega (arith, count-append k ks js)
