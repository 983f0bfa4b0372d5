-- ===== src/Paymaster/Relay.antt =====
-- internal/paymaster/paymaster.go: the submission of a relay, over any store of locks. SubmitRelay has
-- two parts, up to the lock and after it, and other submissions can run in between. What the node and
-- the database answer to one submission is part of it; a full queue is logged only.
pub mod Once
mod Tests
use chainfx_payment_core.Common.{
  ℕ, Bool, true, false, not, ◌&&◌, List, [], ◌∷◌, Option, none, some, Result, ok, err, length, drop,
  ◌==◌, ◌*◌, if◌then◌else◌,
}
use chainfx_payment_core.Common.Text.{
  Text, codes, is_empty, has_prefix, to_lower, trim_space, text_eq,
}
use chainfx_payment_core.Transactions.{one_of}
use chainfx_payment_core.Paymaster.SigLock.{SigLockStore, Hashing, permit_sig_hash}

pub record RelayRequest : Type 0 where
  pub user_address : Text
  pub tx_to : Text
  pub tx_data : Text
  pub sig_r : Text
  pub sig_s : Text
  pub sig_v : Text
  pub amount : Text
  pub token_addr : Text
  pub network : Text

pub data RelayError : Type 0 where
  station_disabled bad_signature bad_components duplicate_sig estimation_failed persist_failed :
      RelayError

-- The job that is handed to the batcher.
pub record RelayJob : Type 0 where
  pub relay_id : Text
  pub to : Text
  pub amount : Text
  pub token : Text
  pub network : Text

-- The fee is left out of the response: it is a float.
pub record RelayResponse : Type 0 where
  pub relay_id : Text
  pub status : Text
  pub job : RelayJob

-- One submission: whether the fee could be estimated, and the id of the row, if it was written.
pub record Submission : Type 0 where
  pub now : ℕ
  pub request : RelayRequest
  pub estimated : Bool
  pub created : Option Text

abbrev pub trim_prefix : Text → Text → Text
trim_prefix s p = if has_prefix s p then drop (length p) s else s

-- hexDecodeOptional returns a nil error for every text, so only the length is tested.
pub is_relay_sig_hex : Text → ℕ → Bool
unfolding has_prefix trim_space
is_relay_sig_hex value want_bytes =
    length (trim_prefix (trim_prefix (trim_space value) (codes "0x")) (codes "0X"))
    == want_bytes * 2

pub validate_relay_signature : Text → Text → Text → Bool
unfolding is_relay_sig_hex one_of to_lower trim_space text_eq
validate_relay_signature r s v =
    is_relay_sig_hex r 32
    && is_relay_sig_hex s 32
    && one_of (to_lower (trim_space v)) (
        codes "0"
        ∷ codes "1"
        ∷ codes "27"
        ∷ codes "28"
        ∷ codes "0x0"
        ∷ codes "0x1"
        ∷ codes "0x1b"
        ∷ codes "0x1c"
        ∷ [])

pub job_of : RelayRequest → Text → RelayJob
job_of req relay_id = record {
  relay_id = relay_id;
  to = req.tx_to;
  amount = req.amount;
  token = req.token_addr;
  network = if is_empty req.network then codes "BSC" else req.network;
}

module _ {S : Type 0} (locks : SigLockStore S) where
  -- SubmitRelay up to the lock, with the hash that it holds; every error of AcquireLock is reported as
  -- a duplicate.
  pub start_relay : Bool → Hashing → Submission → S → Result RelayError Text × S
  unfolding validate_relay_signature
  start_relay enabled hashing c s =
      let req = c.request in
      if not enabled
      then (err station_disabled, s)
      else if not (validate_relay_signature req.sig_r req.sig_s req.sig_v)
      then (err bad_signature, s)
      else elim (permit_sig_hash hashing req.sig_r req.sig_s) [
        | none ↦ (err bad_components, s)
        | some hash ↦
            let (failed, s') = locks.acquire c.now hash s in
            (elim failed [ some e ↦ err duplicate_sig | none ↦ ok hash ], s')
      ]

  -- The rest of SubmitRelay, which others can run before. It releases the lock of the hash whoever
  -- holds it by then.
  pub finish_relay : Submission → Text → S → Result RelayError RelayResponse × S
  unfolding job_of
  finish_relay c hash s =
      if not c.estimated then (err estimation_failed, locks.release hash s) else elim c.created [
        | none ↦ (err persist_failed, locks.release hash s)
        | some id ↦
            (ok (record { relay_id = id; status = codes "pending"; job = job_of c.request id }), s)
      ]
