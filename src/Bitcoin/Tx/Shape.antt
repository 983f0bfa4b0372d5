-- ===== src/Bitcoin/Tx/Shape.antt =====
-- What internal/bitcoin/tx.go writes, element by element.
use chainfx_payment_core.Common.{
  ◌≡◌, refl, List, [], ◌∷◌, ◌++◌, Result, ok, err, length, arith, append_assoc, ap, sym, ◌∙◌, inl,
  inr, ◌⊎◌,
}
use chainfx_payment_core.Common.Text.{Text, All}
use chainfx_payment_core.Bitcoin.Wire.{uint32_le, uint64_le, varint, reverse_txid}
use chainfx_payment_core.Bitcoin.Tx.{
  TxInput, TxOutput, word, txid_bytes, write_inputs, write_outputs, write_items, write_prevouts,
  write_witnesses,
}

pub Result-cases :
    {E A : Type 0} (r : Result E A) → ((e : E) × (r ≡ err e)) ⊎ ((a : A) × (r ≡ ok a))
Result-cases (ok a) = inr (a, refl)
Result-cases (err e) = inl (e, refl)

-- The bytes of all elements, one after the other.
pub of_each : {A : Type 0} → (A → Text) → List A → Text
of_each f [] = []
of_each f (x ∷ xs) = f x ++ of_each f xs

-- An input without its signature: the outpoint, an empty script, and the last sequence number.
pub input_bytes : TxInput → Text
input_bytes i =
    elim (reverse_txid i.txid) [ ok b ↦ b | err e ↦ [] ]
    ++ (uint32_le i.vout ++ 0x00 ∷ 0xff ∷ 0xff ∷ 0xff ∷ 0xff ∷ [])

pub output_bytes : TxOutput → Text
output_bytes o =
    uint64_le (word o.value_sats) ++ (varint (length o.script_pub_key) ++ o.script_pub_key)

pub item_bytes : Text → Text
item_bytes t = varint (length t) ++ t

pub stack_bytes : List Text → Text
unfolding of_each
stack_bytes w = varint (length w) ++ of_each item_bytes w

-- What stands between the version and the witness.
pub shape : List TxInput → List TxOutput → Text
unfolding of_each
shape inputs outputs =
    varint (length inputs)
    ++ (of_each input_bytes inputs ++ (varint (length outputs) ++ of_each output_bytes outputs))

-- The id of each input is a text that can be read.
pub HasTxid : TxInput → Type 0
HasTxid i = (b : Text) × (reverse_txid i.txid ≡ ok b)

-- Each input has a witness of a signature and its public key.
unfoldable pub Signed : List TxInput → List (List Text) → Type 0
Signed [] [] = Unit
Signed [] (w ∷ ws) = ⊥
Signed (i ∷ is) [] = ⊥
Signed (i ∷ is) (w ∷ ws) =
    ((signature : Text) × (w ≡ signature ∷ i.pub_key_bytes ∷ [])) × Signed is ws

-- What the code writes there.
unfoldable pub body : List TxInput → List TxOutput → Text
body inputs outputs =
    varint (length inputs)
    ++ (write_inputs inputs ++ (varint (length outputs) ++ write_outputs outputs))

pub three : (a b c rest : Text) → a ++ (b ++ (c ++ rest)) ≡ (a ++ (b ++ c)) ++ rest
three a b c rest = sym (append_assoc a (b ++ c) rest ∙ ap (λ t. a ++ t) (append_assoc b c rest))

write_inputs-each : (is : List TxInput) → write_inputs is ≡ of_each input_bytes is
unfolding write_inputs of_each input_bytes txid_bytes uint32_le
write_inputs-each [] = refl
write_inputs-each (i ∷ is) =
    ap
      (λ rest. txid_bytes i.txid ++ (uint32_le i.vout ++ (0x00 ∷ 0xff ∷ 0xff ∷ 0xff ∷ 0xff ∷ rest)))
      (write_inputs-each is)
    ∙ three (txid_bytes i.txid) (uint32_le i.vout) (0x00 ∷ 0xff ∷ 0xff ∷ 0xff ∷ 0xff ∷ [])
        (of_each input_bytes is)

write_outputs-each : (os : List TxOutput) → write_outputs os ≡ of_each output_bytes os
unfolding write_outputs of_each output_bytes
write_outputs-each [] = refl
write_outputs-each (o ∷ os) =
    ap
      (λ rest.
        uint64_le (word o.value_sats)
        ++ (varint (length o.script_pub_key) ++ (o.script_pub_key ++ rest)))
      (write_outputs-each os)
    ∙ three (uint64_le (word o.value_sats)) (varint (length o.script_pub_key)) o.script_pub_key
        (of_each output_bytes os)

write_items-each : (w : List Text) → write_items w ≡ of_each item_bytes w
unfolding write_items of_each item_bytes
write_items-each [] = refl
write_items-each (t ∷ w) =
    ap (λ rest. varint (length t) ++ (t ++ rest)) (write_items-each w)
    ∙ sym (append_assoc (varint (length t)) t (of_each item_bytes w))

pub write_witnesses-each : (ws : List (List Text)) → write_witnesses ws ≡ of_each stack_bytes ws
unfolding write_witnesses of_each stack_bytes
write_witnesses-each [] = refl
write_witnesses-each (w ∷ ws) =
    ap (λ rest. varint (length w) ++ (write_items w ++ rest)) (write_witnesses-each ws)
    ∙ ap (λ t. varint (length w) ++ (t ++ of_each stack_bytes ws)) (write_items-each w)
    ∙ sym (append_assoc (varint (length w)) (of_each item_bytes w) (of_each stack_bytes ws))

pub body-shape : (is : List TxInput) (os : List TxOutput) → body is os ≡ shape is os
unfolding body shape
body-shape is os =
    ap (λ t. varint (length is) ++ (t ++ (varint (length os) ++ write_outputs os)))
      (write_inputs-each is)
    ∙ ap (λ t. varint (length is) ++ (of_each input_bytes is ++ (varint (length os) ++ t)))
        (write_outputs-each os)

pub write_prevouts-HasTxid :
    (is : List TxInput) (t : Text) → write_prevouts is ≡ ok t → All HasTxid is
unfolding write_prevouts HasTxid
write_prevouts-HasTxid [] t e = tt
write_prevouts-HasTxid (i ∷ is) t e = elim (Result-cases (reverse_txid i.txid)) [
  | inl (x, h) ↦ let k = rw (h, write_prevouts) at e in absurd (ground arith)
  | inr (b, h) ↦ elim (Result-cases (write_prevouts is)) [
    | inl (x, r) ↦ let k = rw (h, write_prevouts, r) at e in absurd (ground arith)
    | inr (rest, r) ↦ ((b, h), write_prevouts-HasTxid is rest r)
  ]
]

pub four : (a b c d rest : Text) → a ++ (b ++ (c ++ (d ++ rest))) ≡ (a ++ (b ++ (c ++ d))) ++ rest
four a b c d rest = sym (
    append_assoc a (b ++ (c ++ d)) rest
    ∙ ap (λ t. a ++ t) (append_assoc b (c ++ d) rest ∙ ap (λ t. b ++ t) (append_assoc c d rest)))
