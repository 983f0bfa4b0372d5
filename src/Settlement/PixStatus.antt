-- ===== src/Settlement/PixStatus.antt =====
-- internal/settlement/settlement.go: the status that a PIX provider reports.
mod Tests
use chainfx_payment_core.Common.{◌≡◌, ◌↔◌, refl, Bool, true, false, arith, ◌||◌, if◌then◌else◌}
use chainfx_payment_core.Common.Text.{
  Text, codes, contains, text_eq, text_eq_refl, trim_space, to_lower,
}

abbrev pub status_error : Text
status_error = codes "erro"

abbrev pub status_paid_fiat : Text
status_paid_fiat = codes "pago_fiat"

unfoldable pub pix_webhook_status : Text → Text
pix_webhook_status provider_status =
    let status = to_lower (trim_space provider_status) in
    if contains status (codes "conclu") || contains status (codes "aprov")
    then status_paid_fiat
    else if text_eq status (codes "rejeitado")
        || text_eq status (codes "cancelado")
        || text_eq status (codes "expirado")
    then status_error
    else status_error

pub should_publish_buy_paid : Text → Bool
should_publish_buy_paid status = text_eq status status_paid_fiat

pub is_error : Text → Bool
is_error status = text_eq status status_error

unfoldable pub is_paid : Text → Bool
is_paid status = text_eq status status_paid_fiat

paid_ne_error : text_eq status_error status_paid_fiat ≡ false
unfolding text_eq
paid_ne_error = refl

error_ne_paid : text_eq status_paid_fiat status_error ≡ false
unfolding text_eq
error_ne_paid = refl

-- Whatever a provider reports, the order is either paid or in error, never both; it is paid, and the
-- event of a paid order is published, exactly if the trimmed report in lower case contains "conclu"
-- or "aprov".
pub pix_webhook_status-is_paid :
    (s : Text)
    → let status = pix_webhook_status s in
      let report = to_lower (trim_space s) in
      (is_paid status ≡ (contains report (codes "conclu") || contains report (codes "aprov")))
      × (should_publish_buy_paid status ≡ is_paid status)
      × ((is_paid status ≡ true) ↔ (is_error status ≡ false))
unfolding pix_webhook_status is_paid is_error should_publish_buy_paid
pix_webhook_status-is_paid s =
    ground (
      arith,
      text_eq_refl status_paid_fiat,
      text_eq_refl status_error,
      paid_ne_error,
      error_ne_paid,
    )
