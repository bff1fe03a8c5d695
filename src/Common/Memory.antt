-- ===== src/Common/Memory.antt =====
-- Flat memory: a total function from addresses (or indices) to values. The kernel checks no bound.
use Prim.Native.Nat.{ℕ}
use oscar_kernel.Common.Tests.{◌==◌, if◌then◌else◌}

abbrev pub Store : Type 0
Store = ℕ → ℕ

abbrev pub update : Store → ℕ → ℕ → Store
update m a v x = if x == a then v else m x
