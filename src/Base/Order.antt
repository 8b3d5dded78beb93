-- ===== src/Base/Order.antt =====
-- `<` on the native numbers is well founded.
use Prim.Native.Nat.{ℕ, zero, suc, ◌<◌}
use mathlib.Core.WellFounded.{Acc, WellFounded}
use native.Mathlib.Omega.{arith}

Acc_of_bound : (bound n : ℕ) → n < bound → Acc ◌<◌ n
Acc_of_bound zero n h = elim h [ ]
Acc_of_bound (suc bound) n h = Acc.intro n (λ m below. Acc_of_bound bound m (omega arith))

unfoldable pub lt_wf : WellFounded ◌<◌
unfolding Acc_of_bound
lt_wf = record { apply = λ n. Acc_of_bound (suc n) n (omega arith) }
