-- ===== src/Security/Nonce.antt =====
-- internal/security/nonce.go. An instant is a number of nanoseconds, the life of a nonce is not
-- negative. Each method of a store runs under its lock, so it is one step; ValidateNonce is two.
pub mod Replay
mod Tests
use chainfx_payment_core.Common.{
  ℕ, ◌+◌, Bool, true, false, not, List, [], ◌∷◌, ◌++◌, Option, none, some, Result, ok, err, ltb,
  if◌then◌else◌,
}
use chainfx_payment_core.Common.Assoc.{lookup, insert, remove, keep, text_key}
use chainfx_payment_core.Common.Text.{Text, codes, is_empty, text_eq}

-- The interface that the manager needs of a store, over the state `S` of the store and the errors
-- `E` of its methods.
pub record NonceStore (E S : Type 0) : Type 0 where
  pub store : ℕ → Text → ℕ → S → Option E × S
  pub exists : ℕ → Text → S → Result E Bool × S

pub data NonceError (E : Type 0) : Type 0 where
  missing already_used : NonceError E
  check_failed store_failed : E → NonceError E

module _ {E S : Type 0} where
  -- What follows the check in ValidateNonce.
  store_checked : NonceStore E S → ℕ → Text → ℕ → S → Option (NonceError E) × S
  store_checked st now nonce ttl s =
      let (failed, s') = st.store now nonce ttl s in
      elim failed [ none ↦ (none, s') | some e ↦ (some (store_failed e), s') ]

  -- `none` is a nil error; both calls read the clock, which may move on between them.
  pub validate_nonce : NonceStore E S → ℕ → ℕ → Text → ℕ → S → Option (NonceError E) × S
  unfolding store_checked
  validate_nonce st checked stored nonce ttl s =
      let (exists, s') = st.exists checked nonce s in
      if is_empty nonce then (some missing, s) else elim exists [
        | err e ↦ (some (check_failed e), s')
        | ok used ↦ if used then (some already_used, s') else store_checked st stored nonce ttl s'
      ]

-- The map, and the goroutines that Exists has started and that have not run yet: each deletes one
-- nonce.
pub record InMemoryNonceStore : Type 0 where
  pub entries : List (Text × ℕ)
  pub deleting : List Text

pub new_in_memory_nonce_store : InMemoryNonceStore
new_in_memory_nonce_store = record { entries = []; deleting = [] }

pub data StoreError : Type 0 where
  already_exists not_initialised : StoreError
  from_redis : Text → StoreError

pub memory_store : ℕ → Text → ℕ → InMemoryNonceStore → Option StoreError × InMemoryNonceStore
memory_store now nonce ttl s = elim (lookup nonce s.entries) [
  | some expiration ↦ (some already_exists, s)
  | none ↦ (none, record s { entries = insert nonce (now + ttl) s.entries })
]

-- `go s.Delete(ctx, nonce)` starts a goroutine: it joins those that have not run.
pub memory_exists : ℕ → Text → InMemoryNonceStore → Bool × InMemoryNonceStore
memory_exists now nonce s = elim (lookup nonce s.entries) [
  | none ↦ (false, s)
  | some expiration ↦
      if ltb expiration now then (false, record s { deleting = nonce ∷ s.deleting }) else (true, s)
]

pub memory_delete : Text → InMemoryNonceStore → InMemoryNonceStore
memory_delete nonce s = record s { entries = remove nonce s.entries }

pub memory_cleanup : ℕ → InMemoryNonceStore → InMemoryNonceStore
memory_cleanup now s = record s {
  entries = keep (λ expiration. not (ltb expiration now)) s.entries;
}

-- The store behind the interface; its Exists has no error.
pub in_memory : NonceStore StoreError InMemoryNonceStore
unfolding memory_store memory_exists
in_memory = record {
  store = memory_store;
  exists = λ now nonce s. let (found, s') = memory_exists now nonce s in (ok found, s');
}

-- What the Redis store calls of its client, over the state of the server.
pub record Redis (S : Type 0) : Type 0 where
  pub set_nx : ℕ → Text → ℕ → S → Result Text Bool × S
  pub exists : ℕ → Text → S → Result Text ℕ × S

-- A client, unless it is nil, and the prefix of the keys.
pub record RedisNonceStore (S : Type 0) : Type 0 where
  pub client : Option (Redis S)
  pub key_prefix : Text

module _ {S : Type 0} where
  redis_key : RedisNonceStore S → Text → Text
  redis_key s nonce = s.key_prefix ++ nonce

  redis_store : RedisNonceStore S → ℕ → Text → ℕ → S → Option StoreError × S
  unfolding redis_key
  redis_store s now nonce ttl server = elim s.client [
    | none ↦ (some not_initialised, server)
    | some client ↦
        let (result, server') = client.set_nx now (redis_key s nonce) ttl server in
        elim result [
          | err e ↦ (some (from_redis e), server')
          | ok done ↦ if done then (none, server') else (some already_exists, server')
        ]
  ]

  redis_exists : RedisNonceStore S → ℕ → Text → S → Result StoreError Bool × S
  unfolding redis_key
  redis_exists s now nonce server = elim s.client [
    | none ↦ (err not_initialised, server)
    | some client ↦
        let (result, server') = client.exists now (redis_key s nonce) server in
        elim result [ err e ↦ (err (from_redis e), server') | ok n ↦ (ok (ltb 0 n), server') ]
  ]

  pub redis_nonce_store : RedisNonceStore S → NonceStore StoreError S
  unfolding redis_store redis_exists
  redis_nonce_store s = record { store = redis_store s; exists = redis_exists s }
