-- ===== src/Prelude/Tables.antt =====
-- A Boolean test at every number below a bound, for statements that are checked by a table.
use Prim.Native.Nat.{ℕ, zero, suc, ◌<◌}
use mathlib.Core.Path.{◌≡◌}
use mathlib.Core.Bool.{Bool, true, ◌&&◌}
use native.Mathlib.Omega.{arith}

unfoldable pub table : ℕ → (ℕ → Bool) → Bool
table zero test = true
table (suc bound) test = table bound test && test bound

pub table_entry :
    (test : ℕ → Bool) (bound entry : ℕ)
    → table bound test ≡ true
    → entry < bound
    → test entry ≡ true
unfolding table
table_entry test zero entry checked below = absurd (omega arith)
table_entry test (suc bound) entry checked below = ground (arith, table_entry test bound entry)
