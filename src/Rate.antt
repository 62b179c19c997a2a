-- ===== src/Rate.antt =====
-- vmac/rate.c and vmac/rate.h: the frame rate adaptation that a DACK's losses drive.
-- `rate_idx[i]`, `rate[i]`, `round_inc[i]` and `round_dec[i]` are fields with the index as a suffix.
-- `round_inc` and `round_dec` are pointers to arrays of three bytes that nothing else writes in a
-- call, so the arrays are fields. Every value is a `u8`; the sums of tests are C `int`s.
pub mod Bounds
pub mod Pacing
mod Tests
use v_mac_kernel.Prelude.{
  ℕ, ◌+◌, ◌-◌, ◌*◌, ◌/◌, ◌%◌, Bool, true, false, ◌&&◌, not, ltb, ◌==◌, if◌then◌else◌,
}

-- `struct rate_decision`
pub record RateDecision : Type 0 where
  pub rate_idx0 : ℕ
  pub rate_idx1 : ℕ
  pub rate_idx2 : ℕ
  pub rate : ℕ

-- `struct missing_idx`
pub record MissingIdx : Type 0 where
  pub rate0 : ℕ
  pub rate1 : ℕ
  pub rate2 : ℕ
  pub round : ℕ
  pub round_inc0 : ℕ
  pub round_inc1 : ℕ
  pub round_inc2 : ℕ
  pub round_dec0 : ℕ
  pub round_dec1 : ℕ
  pub round_dec2 : ℕ

-- `++` and `--` of a `u8`
abbrev pub incr8 : ℕ → ℕ
incr8 x = (x + 1) % 256

abbrev pub decr8 : ℕ → ℕ
decr8 x = (x + 255) % 256

-- `rate_init`; the other file-scope variables, `ratebusy` and `mainrate`, are never read.
pub rate_init : RateDecision
rate_init = record { rate_idx0 = 2; rate_idx1 = 3; rate_idx2 = 11; rate = 0 }

-- `copyrate`: the caller's three bytes, overwritten if the lock is free.
pub copyrate : Bool → RateDecision → ℕ × ℕ × ℕ → ℕ × ℕ × ℕ
copyrate free global rates =
    if free then (global.rate_idx0, global.rate_idx1, global.rate_idx2) else rates

-- The last values that `high` and `low` are given.
pub high : MissingIdx → ℕ
high k = k.round * 7 / 10

pub low : MissingIdx → ℕ
low k = k.round / 2

-- The two structs that the body of `rate_c` reads and writes.
abbrev pub Control : Type 0
Control = RateDecision × MissingIdx

-- `a - 1 > b` of C is `b + 1 < a`.
pub lower0 : Control → Control
unfolding low
lower0 (g, k) =
    if ltb (low k) k.rate0 && ltb 0 g.rate_idx0 && ltb k.round_dec0 k.round
    then (record g { rate_idx0 = decr8 g.rate_idx0 }, record k { round_dec0 = k.round })
    else (g, k)

pub lower1 : Control → Control
unfolding low
lower1 (g, k) =
    if ltb (low k) k.rate1 && ltb (g.rate_idx0 + 1) g.rate_idx1 && ltb k.round_dec1 k.round
    then (record g { rate_idx1 = decr8 g.rate_idx1 }, record k { round_dec1 = k.round })
    else (g, k)

-- Below 35, the first rate of the second group, comes 11.
abbrev pub skip_down : ℕ → ℕ
skip_down x = if x == 34 then 11 else x

pub lower2 : Control → Control
unfolding low
lower2 (g, k) =
    if ltb (low k) k.rate2 && ltb (g.rate_idx1 + 1) g.rate_idx2 && ltb k.round_dec2 k.round
    then (record g { rate_idx2 = skip_down (decr8 g.rate_idx2) }, record k { round_dec2 = k.round })
    else (g, k)

abbrev pub skip_up : ℕ → ℕ
skip_up x = if x == 12 then 35 else x

pub raise2 : Control → Control
unfolding high
raise2 (g, k) =
    if ltb k.rate2 (high k)
      && ltb g.rate_idx2 35
      && ltb (k.round_inc2 + 2) k.round
      && not (k.round == k.round_dec2)
    then (record g { rate_idx2 = skip_up (incr8 g.rate_idx2) }, record k { round_inc2 = k.round })
    else (g, k)

-- `a < b - 1` of C is `a + 1 < b`.
pub raise1 : Control → Control
unfolding high
raise1 (g, k) =
    if ltb k.rate1 (high k)
      && ltb (g.rate_idx1 + 1) g.rate_idx2
      && ltb g.rate_idx1 11
      && ltb (k.round_inc1 + 2) k.round
      && not (k.round == k.round_dec1)
    then (record g { rate_idx1 = incr8 g.rate_idx1 }, record k { round_inc1 = k.round })
    else (g, k)

pub raise0 : Control → Control
unfolding high
raise0 (g, k) =
    if ltb k.rate0 (high k)
      && ltb (g.rate_idx0 + 1) g.rate_idx1
      && ltb g.rate_idx0 10
      && ltb (k.round_inc0 + 2) k.round
      && not (k.round == k.round_dec0)
    then (record g { rate_idx0 = incr8 g.rate_idx0 }, record k { round_inc0 = k.round })
    else (g, k)

-- `rate_c`; the first argument says whether `spin_trylock(&ratelok)` succeeds.
pub rate_c : Bool → Control → Control
rate_c free c = if free then raise0 (raise1 (raise2 (lower2 (lower1 (lower0 c))))) else c
