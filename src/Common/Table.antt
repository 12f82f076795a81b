-- ===== src/Common/Table.antt =====
-- Statements on the numbers under a limit, by computing a test on each of them.
use Prim.Native.Nat.{ℕ, zero, suc, ◌<◌}
use mathlib.Core.Path.{◌≡◌}
use mathlib.Core.Bool.{Bool, true, false}
use native.Mathlib.Omega.{arith}
use newmacemu.Common.Tests.{if◌then◌else◌}

-- Does the test pass on every number under the limit?
abbrev pub passes : (ℕ → Bool) → ℕ → Bool
passes test zero = true
passes test (suc top) = if test top then passes test top else false

pub passes-each : (test : ℕ → Bool) (top b : ℕ) → b < top → passes test top ≡ true → test b ≡ true
passes-each test zero b small all = absurd (omega arith)
passes-each test (suc top) b small all = ground (arith, passes-each test top b)
