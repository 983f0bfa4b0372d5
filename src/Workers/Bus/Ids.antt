-- ===== src/Workers/Bus/Ids.antt =====
-- How often a channel stands among the subscribers of internal/workers/bus.go.
use chainfx_payment_core.Common.{ℕ, ◌+◌, ◌≤◌, ◌≡◌, List, [], ◌∷◌, arith}
use chainfx_payment_core.Common.Assoc.{
  lookup, insert, remove, count, count-append, text_key, nat_key,
}
use chainfx_payment_core.Common.Text.{Text, text_eq_iff}
use chainfx_payment_core.Workers.Bus.{Subscribers, or_nil, ids}

pub ids-insert :
    (i : ℕ) (t : Text) (v : List ℕ) (m : Subscribers)
    → count i (ids (insert t v m)) + count i (or_nil (lookup t m)) ≡ count i (ids m) + count i v
unfolding ids insert lookup count
ids-insert i t v [] = omega (arith, count-append i v [])
ids-insert i t v ((u, w) ∷ m) = ground (
  arith,
  count-append i v (ids m),
  count-append i w (ids m),
  count-append i w (ids (insert t v m)),
  ids-insert i t v m,
  text_eq_iff t u,
  text_eq_iff u t,
)

pub ids-remove : (i : ℕ) (t : Text) (m : Subscribers) → count i (ids (remove t m)) ≤ count i (ids m)
unfolding ids remove
ids-remove i t [] = omega arith
ids-remove i t ((u, w) ∷ m) =
    ground (arith, count-append i w (ids m), count-append i w (ids (remove t m)), ids-remove i t m)

pub subscribers-ids :
    (i : ℕ) (t : Text) (m : Subscribers) → count i (or_nil (lookup t m)) ≤ count i (ids m)
unfolding ids lookup count
subscribers-ids i t [] = omega arith
subscribers-ids i t ((u, w) ∷ m) = ground (arith, count-append i w (ids m), subscribers-ids i t m)
