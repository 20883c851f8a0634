-- ===== src/Money.antt =====
-- pkg/money: amounts in minor units (money.go) and FX conversion (fx.go). The child modules
-- `Arith` and `Rounding` hold the theorems, `Tests` the runs and the instances.
mod Defs
mod Fx
pub mod Arith
pub mod Rounding
mod Tests
unfoldable pub use Defs.*
unfoldable pub use Fx.*
