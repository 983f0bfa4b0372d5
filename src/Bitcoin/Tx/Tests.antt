-- ===== src/Bitcoin/Tx/Tests.antt =====
-- A transaction of internal/bitcoin/tx.go with one input and one output, over toy libraries.
use chainfx_payment_core.Common.{◌≡◌, refl, List, [], ◌∷◌, Result, ok, err, some, replicate}
use chainfx_payment_core.Common.Int.{pos}
use chainfx_payment_core.Common.Text.{Text, codes}
use chainfx_payment_core.Bitcoin.Tx.{
  Crypto, TxInput, TxOutput, TxError, no_output, build_and_sign_tx,
}

abbrev toy : Crypto
toy = record {
  sha256 = λ s. s;
  decode_hex = λ s. some (0x00 ∷ 0x14 ∷ replicate 20 7);
  field_prime = 11;
  exp_mod = λ b e p. 3;
  curve_order = 13;
  sign = λ n key d message. some (5, 9);
}

abbrev inputs : List TxInput
inputs =
    record {
      txid = codes "00112233445566778899AABBCCDDEEFF00112233445566778899aabbccddeeff";
      vout = 1;
      value_sats = pos 70000;
      script_pub_key = codes "0014";
      priv_key_bytes = 1 ∷ [];
      pub_key_bytes = 0x02 ∷ replicate 32 1;
    }
    ∷ []

abbrev outputs : List TxOutput
outputs = record { value_sats = pos 20000; script_pub_key = 0x00 ∷ 0x14 ∷ [] } ∷ []

or_empty : Result TxError (Text × Text) → Text × Text
or_empty (ok p) = p
or_empty (err e) = ([], [])

abbrev result : Text × Text
result = or_empty (build_and_sign_tx toy inputs outputs)

nowhere : build_and_sign_tx toy inputs [] ≡ err no_output
unfolding build_and_sign_tx
nowhere = refl
