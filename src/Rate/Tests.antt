-- ===== src/Rate/Tests.antt =====
-- Runs of the rate control, and the theorems at concrete reports.
use v_mac_kernel.Prelude.{◌+◌, ◌≡◌, ◌≤◌, refl, true, arith}
use v_mac_kernel.Rate.{
  RateDecision, MissingIdx, rate_init, copyrate, rate_c, lower0, lower1, lower2, raise0, raise1,
  raise2,
}
use v_mac_kernel.Rate.Bounds.{IsOrdered, rate_init-IsOrdered, rate_c-IsOrdered}
use v_mac_kernel.Rate.Pacing.{notch, IsJustified, rate_c-by_one, rate_c-IsJustified}

-- Round 10 of an encoding whose last moves were in round 3.
abbrev report : MissingIdx
report = record {
  rate0 = 0;
  rate1 = 6;
  rate2 = 9;
  round = 10;
  round_inc0 = 3;
  round_inc1 = 3;
  round_inc2 = 3;
  round_dec0 = 3;
  round_dec1 = 3;
  round_dec2 = 3;
}

abbrev top : RateDecision
top = record { rate_idx0 = 2; rate_idx1 = 11; rate_idx2 = 35; rate = 0 }

-- Index 2 falls, and makes no room for index 1, which rises with index 0.
rate_c_runs :
    (rate_c true (rate_init, report)).0
    ≡ record { rate_idx0 = 3; rate_idx1 = 4; rate_idx2 = 10; rate = 0 }
unfolding rate_c rate_init lower0 lower1 lower2 raise0 raise1 raise2
rate_c_runs = refl

-- From 35 the third index falls to 11, where the second may stand already.
rate_c_meets :
    (rate_c true (record top { rate_idx0 = 10 }, report)).0
    ≡ record { rate_idx0 = 10; rate_idx1 = 11; rate_idx2 = 11; rate = 0 }
unfolding rate_c lower0 lower1 lower2 raise0 raise1 raise2
rate_c_meets = refl

copyrate_runs : copyrate true rate_init (0, 0, 0) ≡ (2, 3, 11)
unfolding copyrate rate_init
copyrate_runs = refl

top-IsOrdered : IsOrdered top
top-IsOrdered = ground arith

rate_c-IsOrdered_example : IsOrdered (rate_c true (rate_init, report)).0
rate_c-IsOrdered_example = rate_c-IsOrdered true (rate_init, report) rate_init-IsOrdered

rate_c-by_one_example :
    let (g, k) = rate_c true (top, report) in
    (notch g.rate_idx0 ≤ 3)
    × (2 ≤ notch g.rate_idx0 + 1)
    × (notch g.rate_idx1 ≤ 12)
    × (11 ≤ notch g.rate_idx1 + 1)
    × (notch g.rate_idx2 ≤ 13)
    × (12 ≤ notch g.rate_idx2 + 1)
rate_c-by_one_example = rate_c-by_one true top report top-IsOrdered

rate_c-IsJustified_example :
    let g = (rate_c true (top, report)).0 in
    IsJustified 2 g.rate_idx0 0 10 3 3 report
    × IsJustified 11 g.rate_idx1 6 10 3 3 report
    × IsJustified 35 g.rate_idx2 9 10 3 3 report
rate_c-IsJustified_example = rate_c-IsJustified true top report top-IsOrdered
