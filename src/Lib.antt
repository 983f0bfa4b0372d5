-- ===== src/Lib.antt =====
-- The ChainFX payment core: the parts of the Go backend that decide about money, modelled and
-- proved.
--
-- Parts and how they interact. A trade becomes a settlement instruction if the policy of its
-- network admits it (Transactions.Policy, internal/transactions/settlement_policy.go and
-- contracts.go). The vault contract pays the instruction out, and the receipt is compared with it
-- (Settlement.Reconciliation, internal/settlement/reconciliation.go). The status that a PIX
-- provider reports decides whether an order counts as paid (Settlement.PixStatus,
-- internal/settlement/settlement.go). Amounts are scaled int64 numbers (Money,
-- internal/money/money.go). Calls of nodes and providers go through a circuit breaker and retry
-- loops (Resilience.Breaker, Resilience.Retry; internal/resilience/circuit_breaker.go, retry.go,
-- internal/paymaster/retry.go). The coins that pay for a Bitcoin withdrawal are selected greedily
-- (Bitcoin.CoinSelect, internal/bitcoin/coin_select.go), and numbers and transaction ids are
-- written in its wire format (Bitcoin.Wire, internal/bitcoin/util.go) and the transaction is
-- signed and serialised (Bitcoin.Tx, internal/bitcoin/tx.go, with decompressPublicKey of
-- bip32.go). The canonical status of a trade follows from what is stored (Settlement.TradeStatus,
-- internal/transactions/contracts.go). A payment token travels as a field of an NFC template
-- (Nfc.Protocol, internal/nfc/protocol.go).
--
-- What keeps a request from being served twice, or too often. The mobile routes that move money
-- run behind a middleware that remembers the outcome for each key and user (Mobile.Idempotency,
-- internal/mobile/idempotency.go). A relay of a signature takes a lock before it is queued
-- (Paymaster.Relay over an interface of Paymaster.SigLock; internal/paymaster/paymaster.go,
-- idempotency.go). Signed requests carry a nonce (Security.Nonce, internal/security/nonce.go). The
-- server limits the requests of a client and bans it when it goes on (Server.Ratelimit,
-- Server.PenaltyBox; internal/server/ratelimit.go, penaltybox.go). Calls of the chain go to a node
-- of a pool, each node behind a breaker, in a retry loop (Rpc.Pool, internal/rpc/pool.go, which
-- uses Resilience.Breaker and Resilience.Retry). The signer has a guard that watches the
-- transactions of the chain and locks it (Signer.Custody, signer/custody_guard.go and store.go).
--
-- How relays leave, and how the workers hear of it. A relay is split into a net leg and a fee
-- (Paymaster.Amounts, internal/paymaster/token_relayer.go) and its legs go to the signer one after
-- the other (Paymaster.Batcher, internal/paymaster/batcher.go, on Resilience.Retry), or those of a
-- batch in one contract call, whose calldata is built here (Paymaster.Multicall, batcher.go:
-- Calldata and Encode have the bytes, Dispatch the choice between the two ways). Addresses and
-- keys of Bitcoin are read and written in base58 (Bitcoin.Base58, internal/bitcoin/base58.go).
-- Events go to the workers over a bus of channels (Workers.Bus, internal/workers/bus.go; Steps has
-- the operations in any order and Log what a receiver has been sent), and events that are given up
-- wait in a bounded queue (Workers.Dlq, internal/workers/dlq.go).
--
-- Correspondence. A Go struct is a record with the fields' names in snake case, an enumeration or
-- a set of error messages is a data type, and a function keeps its name in snake case
-- (BuildInstruction is build_instruction, ReconcileSettlement is reconcile_settlement). A function
-- that returns an error returns a Result or, where it has no value, an Option with none for nil.
-- The breaker's mutex is modelled by steps: what runs under the lock is one operation, and
-- `allow`, which unlocks between its halves, is two. SubmitRelay is two steps, around its lock,
-- and Unlock of the guard three, around its calls of the store. The stores of nonces, locks,
-- outcomes and bans are modelled alike: a method under a lock or a transaction is one step, and
-- other steps come in any order. A goroutine that a method starts waits in the state until its
-- step.
--
-- Shared modules. Common has the lists, tests and results; Common.Int and Common.Int64 the
-- integers and Go's wrapping int64; Common.Text text as the list of its codes; Common.Outages
-- which calls of a database fail; Common.Assoc Go's maps as association lists, with the laws of
-- their operations, and multisets; Common.Decimal the decimal digits that strconv writes and
-- reads; Common.Digits numbers in any base.
--
-- Bounds and fuel. int64 arithmetic wraps as in Go, and a theorem that needs an exact product says
-- which product fits. A number n is printed with n as fuel for its digits, in any base. The loop
-- of parseTLV has the number of bytes as fuel, since each round takes at least three. The retry
-- loops are recursive on the attempts left, and the loop over a pool's nodes on the turns left.
--
-- Abstractions. Text is ASCII: strings.ToLower, ToUpper and TrimSpace act on ASCII letters and
-- spaces, and a length counts bytes. Addresses and hashes are numbers, instants are numbers of
-- nanoseconds with zero for the zero time, and big.Int is an integer without bound. Maps are
-- association lists. Third-party code is a parameter: hashing, address texts and ABI packing
-- (Evm), event topics and ABI unpacking (Abi), SHA-256, hex decoding, the curve and signing
-- (Crypto), what a retry loop calls (World), the clients of a pool (Calls), SHA-256 and hex
-- decoding of a signature (Hashing), what the custody guard asks of the chain (Chain), the Redis
-- client of the nonces (Redis), the signer of the batcher, the receivers of the bus, and
-- sort.Slice. hex.DecodeString and big.Int.SetString are written out. A run-time panic of the bus
-- is none. A database is the table that the statements use; which of its calls fail is part of a
-- run.
--
-- Not modelled. Conversions from and to float64 and the backoff computed on them; log lines and
-- metrics; the text of SQL statements, the Redis rate limiter, HTTP and RPC; the workers, the
-- handlers of the mobile and agent backends, the rest of the signer service and the Solidity
-- contracts, which are made of those.

pub mod Common
pub mod Resilience
pub mod Money
pub mod Transactions
pub mod Settlement
pub mod Nfc
pub mod Mobile
pub mod Rpc
pub mod Server
pub mod Workers
pub mod Signer
pub mod Paymaster
pub mod Security
pub mod Bitcoin
