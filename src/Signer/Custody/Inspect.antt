-- ===== src/Signer/Custody/Inspect.antt =====
-- signer/custody_guard.go: the inspection of a transaction that sets the code of wallets (EIP-7702).
-- The recovery of a signer, the code that a node reports and the hashing are a parameter.
pub mod Harmless
pub mod Alarm
use chainfx_payment_core.Common.{
  ℕ, Bool, true, false, not, ◌&&◌, ◌||◌, ◌==◌, List, [], ◌∷◌, ◌++◌, Option, none, some,
  if◌then◌else◌, length, take,
}
use chainfx_payment_core.Common.Assoc.{lookup, nat_key}
use chainfx_payment_core.Common.Text.{Text, codes, text_eq}
use chainfx_payment_core.Signer.Custody.{CustodyGuard, record_event, lock}
use chainfx_payment_core.Transactions.{one_of}

pub record Authorization : Type 0 where
  pub delegate : ℕ
  pub signature : Text

pub record SetCodeTransaction : Type 0 where
  pub is_set_code : Bool
  pub hash : Text
  pub calldata : Text
  pub authorizations : List Authorization

-- `authority` recovers who signed, if the signature is good; `code_at` asks one node.
pub record Chain : Type 0 where
  pub authority : Authorization → Option ℕ
  pub code_at : Text → ℕ → Option Text
  pub keccak256 : Text → ℕ
  pub address_text : ℕ → Text

abbrev pub has_address : ℕ → List ℕ → Bool
has_address a [] = false
has_address a (b ∷ bs) = let rest = has_address a bs in if a == b then true else rest

-- The first four bytes, filled up with zeros.
pub calldata_selector : Text → Text
calldata_selector bytes = take 4 (bytes ++ 0 ∷ 0 ∷ 0 ∷ 0 ∷ [])

-- `none` is a nil error. The first node that answers decides.
pub verify_delegate_hash : Chain → List Text → ℕ → ℕ → Option Text
verify_delegate_hash chain [] delegate expected =
    some (codes "sem RPC para verificar delegate " ++ chain.address_text delegate)
verify_delegate_hash chain (url ∷ urls) delegate expected =
    let rest = verify_delegate_hash chain urls delegate expected in
    elim (chain.code_at url delegate) [
      | none ↦ rest
      | some code ↦
          if chain.keccak256 code == expected then none else some (chain.address_text delegate)
    ]

pub data Verdict : Type 0 where
  pass : Verdict
  unknown_selector unknown_delegate : ℕ → Verdict
  changed : Text → Verdict

-- The checks on the delegate of a protected wallet.
pub judge_delegate : Chain → CustodyGuard → ℕ → ℕ → Verdict
unfolding verify_delegate_hash
judge_delegate chain g wallet delegate = elim (lookup delegate g.trusted) [
  | none ↦ unknown_delegate wallet
  | some expected ↦
      if expected == 0
      then pass
      else elim (verify_delegate_hash chain g.rpc_urls delegate expected) [
        | none ↦ pass
        | some e ↦ changed e
      ]
]

pub judge : Chain → CustodyGuard → Text → Authorization → Verdict
unfolding judge_delegate
judge chain g selector auth = elim (chain.authority auth) [
  | none ↦ pass
  | some wallet ↦
      if not (has_address wallet g.protected)
      then pass
      else if not (length g.allowed_selector == 0) && not (one_of selector g.allowed_selector)
      then unknown_selector wallet
      else judge_delegate chain g wallet auth.delegate
]

-- What the guard does on a verdict; `next` is the rest of the loop.
pub alarm :
    ℕ
    → Chain
    → Text
    → SetCodeTransaction
    → Authorization
    → Verdict
    → CustodyGuard
    → CustodyGuard
    → CustodyGuard
alarm now chain source tx auth pass g next = next
alarm now chain source tx auth (unknown_selector wallet) g next =
    lock now (codes "EIP-7702 selector nao permitido source=" ++ source ++ codes " tx=" ++ tx.hash)
      (record_event (codes "unknown_selector") (codes "EIP-7702 selector nao permitido") tx.hash
        (chain.address_text wallet) g)
alarm now chain source tx auth (unknown_delegate wallet) g next =
    lock now
      (codes "EIP-7702 delegate desconhecido source="
        ++ source
        ++ codes " wallet="
        ++ chain.address_text wallet
        ++ codes " delegate="
        ++ chain.address_text auth.delegate
        ++ codes " tx="
        ++ tx.hash)
      (record_event (codes "unknown_delegate") (codes "EIP-7702 delegate desconhecido") tx.hash
        (chain.address_text wallet) g)
alarm now chain source tx auth (changed e) g next =
    lock now (codes "EIP-7702 delegate hash alterado: " ++ e) g

-- The loop over the authorizations, which ends at the first alarm.
pub inspect_authorizations :
    ℕ → Chain → Text → SetCodeTransaction → List Authorization → CustodyGuard → CustodyGuard
unfolding judge alarm calldata_selector
inspect_authorizations now chain source tx [] g = g
inspect_authorizations now chain source tx (auth ∷ rest) g =
    alarm now chain source tx auth (judge chain g (calldata_selector tx.calldata) auth) g
      (inspect_authorizations now chain source tx rest g)

unfoldable pub inspect_transaction :
    ℕ → Chain → Text → SetCodeTransaction → CustodyGuard → CustodyGuard
unfolding inspect_authorizations
inspect_transaction now chain source tx g =
    if tx.is_set_code then inspect_authorizations now chain source tx tx.authorizations g else g
