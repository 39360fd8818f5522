-- ===== src/Pool/Config.antt =====
-- `PoolConfig::validate` (components/database/providers/postgresql/session/shared/pool_config.hpp).
pub mod Powers
pub mod Tests
use Prim.Native.Nat.{bit_and}
use demiplane.Prelude.{ℕ, ◌-◌, not, Option, none, some, ltb, ◌==◌, if◌then◌else◌}
use demiplane.Query.Ast.{Signed, plus, minus}

-- The members that `validate` reads; the timeout is a signed number of seconds.
pub record PoolConfig : Type 0 where
  pub capacity : ℕ
  pub min_connections : ℕ
  pub connect_timeout : Signed

-- What is thrown, by its text.
pub data InvalidArgument : Type 0 where
  capacity_zero capacity_no_power min_above_capacity timeout_not_positive : InvalidArgument

abbrev pub not_positive : Signed → Option InvalidArgument
not_positive (plus n) = if n == 0 then some timeout_not_positive else none
not_positive (minus n) = some timeout_not_positive

unfoldable pub validate : PoolConfig → Option InvalidArgument
validate c =
    if c.capacity == 0
    then some capacity_zero
    else if not (bit_and c.capacity (c.capacity - 1) == 0)
    then some capacity_no_power
    else if ltb c.capacity c.min_connections
    then some min_above_capacity
    else not_positive c.connect_timeout
