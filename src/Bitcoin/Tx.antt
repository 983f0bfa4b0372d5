-- ===== src/Bitcoin/Tx.antt =====
-- internal/bitcoin/tx.go: a transaction that spends P2WPKH outputs, signed and serialised. Bytes are
-- numbers below 256.
pub mod Shape
pub mod Layout
mod Tests
use chainfx_payment_core.Common.{
  ℕ, zero, suc, ◌+◌, ◌-◌, ◌*◌, ◌/◌, ◌%◌, ◌^◌, Bool, List, [], ◌∷◌, ◌++◌, Option, none, some, Result,
  ok, err, not, ◌||◌, ◌&&◌, ltb, ◌==◌, length, drop, if◌then◌else◌, ◌>>=◌,
}
use chainfx_payment_core.Common.Int.{ℤ, pos, negsuc}
use chainfx_payment_core.Common.Text.{Text, is_empty, text_eq}
use chainfx_payment_core.Bitcoin.Wire.{varint, uint32_le, uint64_le, reverse_txid}
use chainfx_payment_core.Bitcoin.Wire.Txid.{shown, hex_digit}

pub record TxInput : Type 0 where
  pub txid : Text
  pub vout : ℕ
  pub value_sats : ℤ
  pub script_pub_key : Text
  pub priv_key_bytes : Text
  pub pub_key_bytes : Text

pub record TxOutput : Type 0 where
  pub value_sats : ℤ
  pub script_pub_key : Text

pub data TxError : Type 0 where
  no_input no_output bad_txid bad_script_hex not_p2wpkh bad_pub_key sign_failed empty_number :
      TxError

-- The libraries that the file calls: SHA-256, hex.DecodeString, the curve's prime, big.Int's Exp, the
-- order of the curve, and ecdsa.Sign, of which the random source is the number of the call.
pub record Crypto : Type 0 where
  pub sha256 : Text → Text
  pub decode_hex : Text → Option Text
  pub field_prime : ℕ
  pub exp_mod : ℕ → ℕ → ℕ → ℕ
  pub curve_order : ℕ
  pub sign : ℕ → ℕ × ℕ → ℕ → Text → Option (ℕ × ℕ)

-- uint64(v) of an int64
abbrev pub word : ℤ → ℕ
word (pos n) = n % 2 ^ 64
word (negsuc n) = 2 ^ 64 - 1 - n % 2 ^ 64

-- big.Int's SetBytes and Bytes: the most significant byte first, no leading zero.
pub set_bytes : ℕ → Text → ℕ
set_bytes n [] = n
set_bytes n (b ∷ bs) = set_bytes (n * 256 + b) bs

pub bytes_of : ℕ → ℕ → Text → Text
bytes_of zero n bs = bs
bytes_of (suc fuel) n bs =
    let more = bytes_of fuel (n / 256) ((n % 256) ∷ bs) in if n == 0 then bs else more

pub hex_encode : Text → Text
unfolding hex_digit
hex_encode [] = []
hex_encode (b ∷ bs) = hex_digit (b / 16) ∷ hex_digit (b % 16) ∷ hex_encode bs

-- The bytes of r or of s; an empty slice has no first byte, and Go panics.
pub der_integer : Text → Result TxError Text
der_integer [] = err empty_number
der_integer (b ∷ bs) = ok (if ltb 0x7f b then 0 ∷ b ∷ bs else b ∷ bs)

pub der_encode_signature : ℕ → ℕ → Result TxError Text
unfolding bytes_of der_integer
der_encode_signature r s = der_integer (bytes_of r r []) >>= λ rb.
    der_integer (bytes_of s s []) >>= λ sb.
    let inner = (0x02 ∷ (length rb % 256) ∷ rb) ++ (0x02 ∷ (length sb % 256) ∷ sb) in
    ok (0x30 ∷ (length inner % 256) ∷ inner)

-- The bytes of an id; where the code drops the error it uses the nil slice.
pub txid_bytes : Text → Text
unfolding reverse_txid
txid_bytes txid = elim (reverse_txid txid) [ ok b ↦ b | err e ↦ [] ]

abbrev pub n_version : ℕ
n_version = 2

abbrev pub n_sequence : ℕ
n_sequence = 0xffffffff

abbrev pub n_lock_time : ℕ
n_lock_time = 0

abbrev pub sig_hash_all : ℕ
sig_hash_all = 1

-- The loops that write all outpoints, sequence numbers, outputs, inputs and witnesses.
pub write_prevouts : List TxInput → Result TxError Text
unfolding reverse_txid uint32_le
write_prevouts [] = ok []
write_prevouts (i ∷ is) = elim (reverse_txid i.txid) [
  | err e ↦ err bad_txid
  | ok b ↦ write_prevouts is >>= λ rest. ok (b ++ (uint32_le i.vout ++ rest))
]

pub write_sequences : List TxInput → Text
unfolding uint32_le
write_sequences [] = []
write_sequences (i ∷ is) = uint32_le n_sequence ++ write_sequences is

pub write_outputs : List TxOutput → Text
unfolding uint64_le varint
write_outputs [] = []
write_outputs (o ∷ os) =
    uint64_le (word o.value_sats)
    ++ (varint (length o.script_pub_key) ++ (o.script_pub_key ++ write_outputs os))

pub write_inputs : List TxInput → Text
unfolding txid_bytes uint32_le
write_inputs [] = []
write_inputs (i ∷ is) =
    txid_bytes i.txid ++ (uint32_le i.vout ++ (0x00 ∷ (uint32_le n_sequence ++ write_inputs is)))

pub write_items : List Text → Text
unfolding varint
write_items [] = []
write_items (w ∷ ws) = varint (length w) ++ (w ++ write_items ws)

pub write_witnesses : List (List Text) → Text
unfolding write_items varint
write_witnesses [] = []
write_witnesses (w ∷ ws) = varint (length w) ++ (write_items w ++ write_witnesses ws)

-- 0x19 and the script of 25 bytes that stands for a P2WPKH output.
pub script_code : Text → Text
script_code hash160 = 0x19 ∷ 0x76 ∷ 0xa9 ∷ 0x14 ∷ (hash160 ++ 0x88 ∷ 0xac ∷ [])

module _ (crypto : Crypto) where
  pub dsha256 : Text → Text
  dsha256 bytes = crypto.sha256 (crypto.sha256 bytes)

  -- decompressPublicKey of internal/bitcoin/bip32.go.
  pub decompress_public_key : Text → Result TxError (ℕ × ℕ)
  unfolding set_bytes
  decompress_public_key [] = err bad_pub_key
  decompress_public_key (b ∷ bs) =
      let p = crypto.field_prime in
      let x = set_bytes 0 bs in
      let y = crypto.exp_mod ((x * x * x + 7) % p) ((p + 1) / 4) p in
      if not (length (b ∷ bs) == 33) || (not (b == 0x02) && not (b == 0x03))
      then err bad_pub_key
      else ok (x, if y % 2 == (if b == 0x03 then 1 else 0) then y else p - y)

  pub p2wpkh_hash : TxInput → Result TxError Text
  unfolding text_eq
  p2wpkh_hash i = elim (crypto.decode_hex i.script_pub_key) [
    | none ↦ err bad_script_hex
    | some [] ↦ err not_p2wpkh
    | some (c ∷ []) ↦ err not_p2wpkh
    | some (c ∷ d ∷ hash160) ↦
        if not (length hash160 == 20) || not (c == 0x00) || not (d == 0x14)
        then err not_p2wpkh
        else ok hash160
  ]

  -- The message of BIP143 that the signature of an input is over.
  pub sighash_message : Text → Text → Text → Text → TxInput → Text
  unfolding uint32_le uint64_le txid_bytes script_code
  sighash_message hash_prevouts hash_sequence hash_outputs hash160 i =
      uint32_le n_version
      ++ (hash_prevouts
          ++ (hash_sequence
              ++ (txid_bytes i.txid
                  ++ (uint32_le i.vout
                      ++ (script_code hash160
                          ++ (uint64_le (word i.value_sats)
                              ++ (uint32_le n_sequence
                                  ++ (hash_outputs
                                      ++ (uint32_le n_lock_time ++ uint32_le sig_hash_all)))))))))

  -- s or, above half of the order, its opposite.
  pub low_s : ℕ → ℕ
  low_s s = if ltb (crypto.curve_order / 2) s then crypto.curve_order - s else s

  -- The witness of one input: the signature with the type of its hash, and the public key.
  pub sign_input : Text → Text → Text → ℕ → TxInput → Result TxError (List Text)
  unfolding decompress_public_key p2wpkh_hash sighash_message dsha256 set_bytes low_s
      der_encode_signature
  sign_input hash_prevouts hash_sequence hash_outputs n i = p2wpkh_hash i >>= λ hash160.
      decompress_public_key i.pub_key_bytes >>= λ key.
      elim (crypto.sign n key (set_bytes 0 i.priv_key_bytes)
        (dsha256 (sighash_message hash_prevouts hash_sequence hash_outputs hash160 i))) [
          | none ↦ err sign_failed
          | some (r, s) ↦ der_encode_signature r (low_s s) >>= λ der.
              ok ((der ++ sig_hash_all ∷ []) ∷ i.pub_key_bytes ∷ [])
        ]

  pub sign_inputs : Text → Text → Text → ℕ → List TxInput → Result TxError (List (List Text))
  unfolding sign_input
  sign_inputs hash_prevouts hash_sequence hash_outputs n [] = ok []
  sign_inputs hash_prevouts hash_sequence hash_outputs n (i ∷ is) =
      sign_input hash_prevouts hash_sequence hash_outputs n i >>= λ w.
      sign_inputs hash_prevouts hash_sequence hash_outputs (n + 1) is >>= λ ws. ok (w ∷ ws)

  pub compute_txid : List TxInput → List TxOutput → Text
  unfolding dsha256 uint32_le varint write_inputs write_outputs shown
  compute_txid inputs outputs = shown (
      dsha256 (
        uint32_le n_version
        ++ (varint (length inputs)
            ++ (write_inputs inputs
                ++ (varint (length outputs) ++ (write_outputs outputs ++ uint32_le n_lock_time))))))

  -- BuildAndSignTx: the hex text of the transaction, and its id.
  pub build_and_sign_tx : List TxInput → List TxOutput → Result TxError (Text × Text)
  unfolding write_prevouts write_sequences write_outputs write_inputs write_witnesses sign_inputs
      compute_txid dsha256 hex_encode uint32_le varint
  build_and_sign_tx [] outputs = err no_input
  build_and_sign_tx (i ∷ is) [] = err no_output
  build_and_sign_tx (i ∷ is) (o ∷ os) =
      let inputs = i ∷ is in
      let outputs = o ∷ os in
      write_prevouts inputs >>= λ prevouts.
      sign_inputs (dsha256 prevouts) (dsha256 (write_sequences inputs))
        (dsha256 (write_outputs outputs)) 0 inputs
      >>= λ witnesses. ok (
        hex_encode (
            uint32_le n_version
            ++ (0x00
                ∷ 0x01
                ∷ (varint (length inputs)
                    ++ (write_inputs inputs
                        ++ (varint (length outputs)
                            ++ (write_outputs outputs
                                ++ (write_witnesses witnesses ++ uint32_le n_lock_time))))))),
        compute_txid inputs outputs,
      )
