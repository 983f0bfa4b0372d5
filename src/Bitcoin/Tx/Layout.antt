-- ===== src/Bitcoin/Tx/Layout.antt =====
-- The two serialisations of a transaction in internal/bitcoin/tx.go.
use chainfx_payment_core.Common.{◌≡◌, List, [], ◌∷◌, ◌++◌, length}
use chainfx_payment_core.Common.Text.{Text, All}
use chainfx_payment_core.Bitcoin.Wire.{uint32_le, varint}
use chainfx_payment_core.Bitcoin.Wire.Txid.{shown}
use chainfx_payment_core.Bitcoin.Tx.Shape.{of_each, stack_bytes, shape, HasTxid, Signed}
use chainfx_payment_core.Bitcoin.Tx.{
  Crypto, TxInput, TxOutput, n_version, n_lock_time, write_inputs, write_outputs, write_witnesses,
  dsha256, hex_encode, compute_txid,
}

module _ (crypto : Crypto) where
  -- The result of the last step.
  built : TxInput → List TxInput → TxOutput → List TxOutput → List (List Text) → Text × Text
  built i is o os ws = (
    hex_encode (
        uint32_le n_version
        ++ (0x00
            ∷ 0x01
            ∷ (varint (length (i ∷ is))
                ++ (write_inputs (i ∷ is)
                    ++ (varint (length (o ∷ os))
                        ++ (write_outputs (o ∷ os)
                            ++ (write_witnesses ws ++ uint32_le n_lock_time))))))),
    compute_txid crypto (i ∷ is) (o ∷ os),
  )

  -- What a transaction is made of.
  abbrev pub Parts : List TxInput → List TxOutput → Text → Text → List (List Text) → Type 0
  Parts inputs outputs raw txid witnesses =
      Signed inputs witnesses
      × All HasTxid inputs
      × (raw
          ≡ hex_encode (
              (uint32_le n_version ++ 0x00 ∷ 0x01 ∷ [])
              ++ (shape inputs outputs
                  ++ (of_each stack_bytes witnesses ++ uint32_le n_lock_time))))
      × (txid
          ≡ shown (
              dsha256 crypto
                (uint32_le n_version ++ (shape inputs outputs ++ uint32_le n_lock_time))))
