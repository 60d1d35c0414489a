-- ===== src/Base/Division.antt =====
-- Quotient and remainder of a number that is given as a multiple and a rest.
use Prim.Native.Nat.{ℕ, ◌+◌, ◌*◌, ◌/◌, ◌%◌, ◌<◌}
use mathlib.Core.Path.{◌≡◌, ◌∙◌}
use native.Mathlib.Nat.{mul-add-mod_self_right, mod-eq_of_lt, mul-add-div_right, div-eq_of_lt}
use native.Mathlib.Omega.{arith}

pub mod_of_split : (n q r : ℕ) → r < n → (q * n + r) % n ≡ r
mod_of_split n q r small = mul-add-mod_self_right q n r ∙ mod-eq_of_lt small

pub div_of_split : (n q r : ℕ) → r < n → (q * n + r) / n ≡ q
div_of_split n q r small =
    omega (arith, mul-add-div_right {m = n} (omega arith) q r, div-eq_of_lt small)
