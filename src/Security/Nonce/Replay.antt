-- ===== src/Security/Nonce/Replay.antt =====
-- Interleavings on the store in memory of internal/security/nonce.go, with the goroutines that
-- Exists starts, and when a nonce can be used again.
use chainfx_payment_core.Common.{
  ℕ, ◌+◌, ◌≤◌, ◌≡◌, refl, ap, Bool, true, false, not, List, [], ◌∷◌, none, some, arith,
  if◌then◌else◌, Option-cases, inl, inr, ltb,
}
use mathlib.Core.Path.{subst}
use chainfx_payment_core.Common.Assoc.{
  insert, lookup, lookup-insert, lookup-remove, lookup-keep, text_key,
}
use chainfx_payment_core.Common.Text.{Text, All, text_eq, text_eq_iff, text_eq_refl}
use chainfx_payment_core.Security.Nonce.{
  InMemoryNonceStore, memory_store, memory_exists, memory_delete, memory_cleanup, already_exists,
}

-- One step of one goroutine: a method under the lock, or a goroutine that Exists has started.
pub data Event : Type 0 where
  storing : ℕ → Text → ℕ → Event
  checking : ℕ → Text → Event
  deleting : Text → Event
  cleaning : ℕ → Event

pub drop_first : Text → List Text → List Text
drop_first n [] = []
drop_first n (m ∷ ms) = let rest = drop_first n ms in if text_eq n m then ms else m ∷ rest

unfoldable pub waits : Text → List Text → Bool
waits n [] = false
waits n (m ∷ ms) = let rest = waits n ms in if text_eq n m then true else rest

-- A goroutine that has not been started does nothing.
pub apply : Event → InMemoryNonceStore → InMemoryNonceStore
unfolding memory_store memory_exists memory_delete memory_cleanup drop_first waits
apply (storing now nonce ttl) s = (memory_store now nonce ttl s).1
apply (checking now nonce) s = (memory_exists now nonce s).1
apply (deleting nonce) s =
    let s' = memory_delete nonce s in
    if waits nonce s.deleting then record s' { deleting = drop_first nonce s.deleting } else s
apply (cleaning now) s = memory_cleanup now s

unfoldable pub run : List Event → InMemoryNonceStore → InMemoryNonceStore
unfolding apply
run [] s = s
run (e ∷ es) s = run es (apply e s)

-- The clock of a step.
abbrev pub Until : ℕ → Event → Type 0
Until x (storing now nonce ttl) = now ≤ x
Until x (checking now nonce) = now ≤ x
Until x (deleting nonce) = Unit
Until x (cleaning now) = now ≤ x

-- The nonce is there until `x`, and nothing that has been started will delete it.
record Held (n : Text) (x : ℕ) (s : InMemoryNonceStore) : Type 0 where
  there : lookup n s.entries ≡ some x
  kept : waits n s.deleting ≡ false

waits-drop_first :
    (n m : Text) (ms : List Text) → waits n ms ≡ false → waits n (drop_first m ms) ≡ false
unfolding waits drop_first
waits-drop_first n m [] h = refl
waits-drop_first n m (k ∷ ms) h =
    ground (arith, waits-drop_first n m ms, text_eq_iff n k, text_eq_iff m k)

module _ (n : Text) (x : ℕ) (s : InMemoryNonceStore) (h : Held n x s) where
  memory_store-Held : (now : ℕ) (m : Text) (ttl : ℕ) → Held n x (memory_store now m ttl s).1
  unfolding memory_store
  memory_store-Held now m ttl =
      ground (arith, h.there, h.kept, lookup-insert m (now + ttl) s.entries n, text_eq_iff m n)

  memory_exists-Held : (now : ℕ) (m : Text) → now ≤ x → Held n x (memory_exists now m s).1
  unfolding memory_exists waits
  memory_exists-Held now m u = ground (arith, h.there, h.kept, text_eq_iff n m)

  deleting-Held : (m : Text) → Held n x (apply (deleting m) s)
  unfolding apply memory_delete
  deleting-Held m = ground (
    arith,
    h.there,
    h.kept,
    lookup-remove m s.entries n,
    text_eq_iff m n,
    waits-drop_first n m s.deleting h.kept,
  )

  memory_cleanup-Held : (now : ℕ) → now ≤ x → Held n x (memory_cleanup now s)
  unfolding memory_cleanup
  memory_cleanup-Held now u =
      ground (arith, h.there, h.kept, lookup-keep (λ (e : ℕ). not (ltb e now)) s.entries n)

apply-Held :
    (n : Text) (x : ℕ) (e : Event) (s : InMemoryNonceStore)
    → Until x e
    → Held n x s
    → Held n x (apply e s)
unfolding apply
apply-Held n x (storing now m ttl) s u h = memory_store-Held n x s h now m ttl
apply-Held n x (checking now m) s u h = memory_exists-Held n x s h now m u
apply-Held n x (deleting m) s u h = deleting-Held n x s h m
apply-Held n x (cleaning now) s u h = memory_cleanup-Held n x s h now u

run-Held :
    (n : Text) (x : ℕ) (es : List Event) (s : InMemoryNonceStore)
    → All (Until x) es
    → Held n x s
    → Held n x (run es s)
unfolding run
run-Held n x [] s u h = h
run-Held n x (e ∷ es) s u h = run-Held n x es (apply e s) u.1 (apply-Held n x e s u.0 h)

stored-Held :
    (n : Text) (now ttl : ℕ) (s s' : InMemoryNonceStore)
    → memory_store now n ttl s ≡ (none, s')
    → waits n s.deleting ≡ false
    → Held n (now + ttl) s'
unfolding memory_store
stored-Held n now ttl s s' done calm = elim (Option-cases (lookup n s.entries)) [
  | inl e ↦
      let d = rw (e, memory_store) at done in
      let p : record s { entries = insert n (now + ttl) s.entries } ≡ s' = ap (λ t. t.1) d in
      subst (λ t. Held n (now + ttl) t) p
        (record {
          there = ground (arith, lookup-insert n (now + ttl) s.entries n, text_eq_iff n n);
          kept = calm;
        })
  | inr (x, e) ↦ let d = rw (e, memory_store) at done in absurd (ground (arith, ap (λ t. t.0) d))
]

module _ (n : Text) (x : ℕ) (s : InMemoryNonceStore) (h : Held n x s) where
  memory_exists-found : (now : ℕ) → now ≤ x → (memory_exists now n s).0 ≡ true
  unfolding memory_exists
  memory_exists-found now u = ground (arith, h.there)

  memory_store-refused : (now ttl : ℕ) → (memory_store now n ttl s).0 ≡ some already_exists
  unfolding memory_store
  memory_store-refused now ttl = rw (h.there, memory_store)

-- Once a nonce is stored, and no goroutine waits to delete it, neither the check nor the store of a
-- second validation accepts it before its life is over, whatever the other goroutines do meanwhile.
pub no_replay :
    (n : Text) (now ttl checked stored ttl' : ℕ) (s s' : InMemoryNonceStore) (es es' : List Event)
    → memory_store now n ttl s ≡ (none, s')
    → waits n s.deleting ≡ false
    → All (Until (now + ttl)) es
    → checked ≤ now + ttl
    → All (Until (now + ttl)) es'
    → let before = run es s' in
      let seen = memory_exists checked n before in
      (seen.0 ≡ true) × ((memory_store stored n ttl' (run es' seen.1)).0 ≡ some already_exists)
no_replay n now ttl checked stored ttl' s s' es es' done calm u c u' =
    let x = now + ttl in
    let before = run es s' in
    let h = run-Held n x es s' u (stored-Held n now ttl s s' done calm) in
    let h' = memory_exists-Held n x before h checked n c in
    (
      memory_exists-found n x before h checked c,
      memory_store-refused n x (run es' (memory_exists checked n before).1)
          (run-Held n x es' (memory_exists checked n before).1 u' h') stored ttl',
    )

-- With a goroutine that waits to delete a nonce that is not in the map, a replay passes: the nonce
-- is stored, that goroutine runs, and both calls of a second validation accept it at once.
pub stale_delete :
    (n : Text) (now ttl : ℕ) (s : InMemoryNonceStore)
    → lookup n s.entries ≡ none
    → waits n s.deleting ≡ true
    → let after = run (storing now n ttl ∷ deleting n ∷ []) s in
      ((memory_store now n ttl s).0 ≡ none)
      × ((memory_exists now n after).0 ≡ false)
      × ((memory_store now n ttl after).0 ≡ none)
unfolding run apply memory_store memory_exists memory_delete
stale_delete n now ttl s h w =
    ground (arith, h, w, lookup-remove n (insert n (now + ttl) s.entries) n, text_eq_refl n)
