-- ===== src/Pool/Config/Tests.antt =====
-- Configurations.
use demiplane.Prelude.{◌≤◌, ◌≡◌, ◌↔◌, refl, none, some}
use demiplane.Query.Ast.{plus}
use demiplane.Pool.Config.{PoolConfig, capacity_no_power, validate}
use demiplane.Prelude.Powers.{IsPower}
use demiplane.Pool.Config.Powers.{IsPositive, validate_accepts}

-- The defaults.
abbrev standard : PoolConfig
standard = record { capacity = 16; min_connections = 2; connect_timeout = plus 10 }

refuses_twelve : validate (record standard { capacity = 12 }) ≡ some capacity_no_power
unfolding validate
refuses_twelve = refl

validate_accepts_example :
    (validate standard ≡ none) ↔ (IsPower 16 × (2 ≤ 16) × IsPositive (plus 10))
validate_accepts_example = validate_accepts standard
