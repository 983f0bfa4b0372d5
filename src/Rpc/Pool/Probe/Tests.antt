-- ===== src/Rpc/Pool/Probe/Tests.antt =====
-- Reports of internal/rpc/pool.go.
use chainfx_payment_core.Common.{◌≡◌, refl, true, [], ◌∷◌}
use chainfx_payment_core.Common.Assoc.{insert}
use chainfx_payment_core.Common.Text.{codes, text_eq}
use chainfx_payment_core.Rpc.Pool.{new_node}
use chainfx_payment_core.Rpc.Pool.Probe.{truncate, health}

truncate_lem : truncate (codes "abc") 2 ≡ 97 ∷ 98 ∷ 226 ∷ 128 ∷ 166 ∷ []
unfolding truncate
truncate_lem = refl

-- Two nodes with the same URL are one entry.
health_lem :
    health (record { nodes = new_node (codes "a") ∷ new_node (codes "a") ∷ []; idx = 0 })
    ≡ (codes "a", true) ∷ []
unfolding health insert text_eq new_node
health_lem = refl
