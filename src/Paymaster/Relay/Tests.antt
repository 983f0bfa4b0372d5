-- ===== src/Paymaster/Relay/Tests.antt =====
-- Submissions of internal/paymaster/paymaster.go over the database's locks.
use chainfx_payment_core.Common.{
  ℕ, ◌≡◌, ◌≢◌, refl, true, false, [], ◌∷◌, some, ok, err, List, ◌++◌, replicate, arith,
}
use chainfx_payment_core.Common.Assoc.{lookup, insert, remove, keep}
use chainfx_payment_core.Common.Text.{Text, codes, text_eq}
use chainfx_payment_core.Paymaster.SigLock.{
  Hashing, DbLocks, permit_sig_hash, db_acquire_lock, db_release_lock,
}
use chainfx_payment_core.Paymaster.SigLock.Db.{db_store}
use chainfx_payment_core.Paymaster.Relay.{
  RelayRequest, RelayResponse, Submission, start_relay, finish_relay, bad_signature,
}
use chainfx_payment_core.Paymaster.Relay.Once.{
  Event, starting, finishing, ticking, fails, run, relayed_once,
}

-- Hex and hash that leave the text alone.
abbrev plain : Hashing
plain = record { decode_hex = λ s. some s; encode_hex = λ s. s; sha256 = λ s. s }

abbrev request : Text → RelayRequest
request r = record {
  user_address = codes "0x1";
  tx_to = codes "0x2";
  tx_data = [];
  sig_r = r;
  sig_s = replicate 64 b'a';
  sig_v = codes "27";
  amount = codes "10";
  token_addr = codes "0x3";
  network = [];
}

abbrev submission : ℕ → Text → Submission
submission now r = record {
  now = now;
  request = request r;
  estimated = true;
  created = some (codes "r1");
}

abbrev no_locks : DbLocks
no_locks = record { rows = []; outages = [] }

abbrev response : RelayResponse
response = record {
  relay_id = codes "r1";
  status = codes "pending";
  job = record {
    relay_id = codes "r1";
    to = codes "0x2";
    amount = codes "10";
    token = codes "0x3";
    network = codes "BSC";
  };
}

-- The hash of a signature is its text.
abbrev hash : Text → Text
hash r = r ++ replicate 64 b'a'

abbrev first : Submission
first = submission 5 (replicate 64 b'b')

first_lem : (start_relay db_store true plain first no_locks).0 ≡ ok (hash (replicate 64 b'b'))
unfolding start_relay db_store permit_sig_hash db_acquire_lock lookup insert remove keep text_eq
first_lem = refl

finished_lem : (finish_relay db_store first (hash (replicate 64 b'b')) no_locks).0 ≡ ok response
unfolding finish_relay
finished_lem = refl

too_short :
    (start_relay db_store true plain (submission 5 (codes "ab")) no_locks).0 ≡ err bad_signature
unfolding start_relay
too_short = refl

-- Another signature comes, the first submission ends, and the collector runs.
abbrev between : List Event
between =
    starting (submission 7 (replicate 64 b'c'))
    ∷ finishing first (hash (replicate 64 b'b'))
    ∷ ticking 8
    ∷ []

not_failed : fails first ≡ true → hash (replicate 64 b'b') ≢ hash (replicate 64 b'b')
unfolding fails
not_failed e = absurd (ground arith)

relayed_once_example :
    (start_relay db_store true plain
      (submission 9 (replicate 64 b'b'))
      (run db_store true plain between (start_relay db_store true plain first no_locks).1)).0
    ≢ ok (hash (replicate 64 b'b'))
relayed_once_example =
    relayed_once db_store true plain first (submission 9 (replicate 64 b'b'))
      (hash (replicate 64 b'b')) (hash (replicate 64 b'b')) between no_locks first_lem refl
      (omega arith) (omega arith, (not_failed, (omega arith, tt)))

-- A submission whose lock has run out fails late and takes the lock of the next one with it.
abbrev late_failure : List Event
late_failure =
    starting first
    ∷ starting (submission 130_000_000_000 (replicate 64 b'b'))
    ∷ finishing (record first { estimated = false }) (hash (replicate 64 b'b'))
    ∷ []

lock_lost :
    (start_relay db_store true plain
      (submission 131_000_000_000 (replicate 64 b'b'))
      (run db_store true plain late_failure no_locks)).0
    ≡ ok (hash (replicate 64 b'b'))
unfolding run start_relay finish_relay db_store permit_sig_hash db_acquire_lock db_release_lock
    lookup insert remove keep text_eq
lock_lost = refl
