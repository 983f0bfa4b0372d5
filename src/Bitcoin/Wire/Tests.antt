-- ===== src/Bitcoin/Wire/Tests.antt =====
-- Runs of internal/bitcoin/util.go on concrete bytes.
use chainfx_payment_core.Common.{◌≡◌, refl, [], ◌∷◌, ◌++◌, ok, err, length}
use chainfx_payment_core.Common.Text.{Text, codes, to_lower}
use chainfx_payment_core.Bitcoin.Wire.{varint, reverse_txid, bad_txid_length}
use chainfx_payment_core.Bitcoin.Wire.Txid.{shown, reverse_txid-shown}

abbrev txid : Text
txid = codes "00112233445566778899AABBCCDDEEFF00112233445566778899aabbccddeeff"

abbrev half : Text
half =
    0xff ∷ 0xee ∷ 0xdd ∷ 0xcc ∷ 0xbb ∷ 0xaa ∷ 0x99 ∷ 0x88 ∷ 0x77 ∷ 0x66 ∷ 0x55 ∷ 0x44 ∷ 0x33 ∷ 0x22
    ∷ 0x11 ∷ 0x00 ∷ []

reversed : reverse_txid txid ≡ ok (half ++ half)
unfolding reverse_txid
reversed = refl

short_txid : reverse_txid (codes "00ff") ≡ err bad_txid_length
unfolding reverse_txid
short_txid = refl

three_bytes : varint 515 ≡ 0xfd ∷ 3 ∷ 2 ∷ []
unfolding varint
three_bytes = refl

reverse_txid-shown_example : (length txid ≡ 64) × (shown (half ++ half) ≡ to_lower txid)
reverse_txid-shown_example = reverse_txid-shown txid (half ++ half) reversed
