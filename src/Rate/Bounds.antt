-- ===== src/Rate/Bounds.antt =====
-- The rate indices stay ordered and in the hardware's two groups of rates.
use v_mac_kernel.Prelude.{◌≤◌, ◌<◌, ◌≡◌, ◌⊎◌, Bool, true, false, arith}
use v_mac_kernel.Rate.{
  RateDecision, Control, rate_init, rate_c, lower0, lower1, lower2, raise0, raise1, raise2,
}

-- Index 2 is at most 11, or 35; the others stay below it.
pub record IsOrdered (g : RateDecision) : Type 0 where
  pub first : g.rate_idx0 < g.rate_idx1
  pub second : g.rate_idx1 ≤ g.rate_idx2
  pub first_max : g.rate_idx0 ≤ 10
  pub second_max : g.rate_idx1 ≤ 11
  pub group : (g.rate_idx2 ≤ 11) ⊎ (g.rate_idx2 ≡ 35)

pub rate_init-IsOrdered : IsOrdered rate_init
unfolding rate_init
rate_init-IsOrdered = ground arith

lower0-IsOrdered : (c : Control) → IsOrdered c.0 → IsOrdered (lower0 c).0
unfolding lower0
lower0-IsOrdered (g, k) v = ground arith

lower1-IsOrdered : (c : Control) → IsOrdered c.0 → IsOrdered (lower1 c).0
unfolding lower1
lower1-IsOrdered (g, k) v = ground arith

lower2-IsOrdered : (c : Control) → IsOrdered c.0 → IsOrdered (lower2 c).0
unfolding lower2
lower2-IsOrdered (g, k) v = ground arith

raise2-IsOrdered : (c : Control) → IsOrdered c.0 → IsOrdered (raise2 c).0
unfolding raise2
raise2-IsOrdered (g, k) v = ground arith

raise1-IsOrdered : (c : Control) → IsOrdered c.0 → IsOrdered (raise1 c).0
unfolding raise1
raise1-IsOrdered (g, k) v = ground arith

raise0-IsOrdered : (c : Control) → IsOrdered c.0 → IsOrdered (raise0 c).0
unfolding raise0
raise0-IsOrdered (g, k) v = ground arith

-- The first half of `rate_c` lowers, the second raises.
abbrev pub lowered : Control → Control
lowered c = lower2 (lower1 (lower0 c))

abbrev pub raised : Control → Control
raised c = raise0 (raise1 (raise2 c))

pub lowered-IsOrdered : (c : Control) → IsOrdered c.0 → IsOrdered (lowered c).0
lowered-IsOrdered c v = lower2-IsOrdered _ (lower1-IsOrdered _ (lower0-IsOrdered c v))

raised-IsOrdered : (c : Control) → IsOrdered c.0 → IsOrdered (raised c).0
raised-IsOrdered c v = raise0-IsOrdered _ (raise1-IsOrdered _ (raise2-IsOrdered c v))

-- Whatever a DACK reports, `rate_c` keeps index 0 below index 1, index 1 at most index 2, index 0 at
-- most 10, index 1 at most 11, and index 2 at most 11 or equal to 35.
pub rate_c-IsOrdered : (free : Bool) (c : Control) → IsOrdered c.0 → IsOrdered (rate_c free c).0
unfolding rate_c
rate_c-IsOrdered false c v = v
rate_c-IsOrdered true c v = raised-IsOrdered _ (lowered-IsOrdered c v)
