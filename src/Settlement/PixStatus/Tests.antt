-- ===== src/Settlement/PixStatus/Tests.antt =====
-- Reports of a PIX provider.
use chainfx_payment_core.Common.{◌≡◌, refl, true}
use chainfx_payment_core.Common.Text.{codes, contains, text_eq, trim_space, to_lower}
use chainfx_payment_core.Settlement.PixStatus.{pix_webhook_status, is_paid}

-- A report that says the opposite may contain the word.
disapproved : is_paid (pix_webhook_status (codes "DESAPROVADO")) ≡ true
unfolding pix_webhook_status is_paid contains text_eq trim_space to_lower
disapproved = refl
