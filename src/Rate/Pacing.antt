-- ===== src/Rate/Pacing.antt =====
-- How fast `rate_c` moves an index, and which reports move it.
use v_mac_kernel.Prelude.{
  ℕ, ◌+◌, ◌≤◌, ◌<◌, ◌≡◌, ◌≢◌, ◌⊎◌, Bool, true, false, arith, ◌==◌, if◌then◌else◌,
}
use v_mac_kernel.Rate.{
  RateDecision, MissingIdx, high, low, rate_c, lower0, lower1, lower2, raise0, raise1, raise2,
}
use v_mac_kernel.Rate.Bounds.{IsOrdered, lowered, raised, lowered-IsOrdered}

-- The position of an index in the order of the rates: 35 follows 11.
abbrev pub notch : ℕ → ℕ
notch x = if x == 35 then 12 else x

-- What the lowering half does to an index: down by at most one notch, and only at a report whose
-- losses pass the limit and whose round comes after the one recorded, which then is this round.
record Lowers (x x' rate limit round before after : ℕ) : Type 0 where
  down : notch x' ≤ notch x
  by_one : notch x ≤ notch x' + 1
  reason : (x' ≡ x) ⊎ ((limit < rate) × (before < round) × (after ≡ round))
  kept : (after ≡ before) ⊎ (after ≡ round)

record Raises (x x' rate limit round dec before : ℕ) : Type 0 where
  up : notch x ≤ notch x'
  by_one : notch x' ≤ notch x + 1
  reason : (x' ≡ x) ⊎ ((rate < limit) × (before + 2 < round) × (round ≢ dec))

module _ (g : RateDecision) (k : MissingIdx) (v : IsOrdered g) where
  lowered0-Lowers :
      let (g', k') = lowered (g, k) in
      Lowers g.rate_idx0 g'.rate_idx0 k.rate0 (low k) k.round k.round_dec0 k'.round_dec0
  unfolding lower0 lower1 lower2
  lowered0-Lowers = ground arith

  lowered1-Lowers :
      let (g', k') = lowered (g, k) in
      Lowers g.rate_idx1 g'.rate_idx1 k.rate1 (low k) k.round k.round_dec1 k'.round_dec1
  unfolding lower0 lower1 lower2
  lowered1-Lowers = ground arith

  lowered2-Lowers :
      let (g', k') = lowered (g, k) in
      Lowers g.rate_idx2 g'.rate_idx2 k.rate2 (low k) k.round k.round_dec2 k'.round_dec2
  unfolding lower0 lower1 lower2
  lowered2-Lowers = ground arith

  -- What `raise0` reads is as it was before `raise2` and `raise1`.
  raise1-raise2-frame :
      let (g', k') = raise1 (raise2 (g, k)) in
      (g'.rate_idx0 ≡ g.rate_idx0)
      × (k'.rate0 ≡ k.rate0)
      × (k'.round ≡ k.round)
      × (k'.round_dec0 ≡ k.round_dec0)
      × (k'.round_inc0 ≡ k.round_inc0)
  unfolding raise1 raise2
  raise1-raise2-frame = ground arith

  raised0-Raises :
      let (g', k') = raised (g, k) in
      Raises g.rate_idx0 g'.rate_idx0 k.rate0 (high k) k.round k.round_dec0 k.round_inc0
  unfolding raise0 high
  raised0-Raises = ground (arith, raise1-raise2-frame)

  raised1-Raises :
      let (g', k') = raised (g, k) in
      Raises g.rate_idx1 g'.rate_idx1 k.rate1 (high k) k.round k.round_dec1 k.round_inc1
  unfolding raise0 raise1 raise2
  raised1-Raises = ground arith

  raised2-Raises :
      let (g', k') = raised (g, k) in
      Raises g.rate_idx2 g'.rate_idx2 k.rate2 (high k) k.round k.round_dec2 k.round_inc2
  unfolding raise0 raise1 raise2
  raised2-Raises = ground arith

  lowered-frame :
      let (g', k') = lowered (g, k) in
      (k'.rate0 ≡ k.rate0)
      × (k'.rate1 ≡ k.rate1)
      × (k'.rate2 ≡ k.rate2)
      × (k'.round ≡ k.round)
      × (k'.round_inc0 ≡ k.round_inc0)
      × (k'.round_inc1 ≡ k.round_inc1)
      × (k'.round_inc2 ≡ k.round_inc2)
  unfolding lower0 lower1 lower2
  lowered-frame = ground arith

-- If the rates are in order (`IsOrdered`: the first below the second, which is not above the third; at most 10, 11,
-- and 11 or else 35), as `rate_init` would set them but three zeros are not, a report moves every rate by at most one
-- notch, up or down, where the notches are the indices up to 11 and 35 after them.
pub rate_c-by_one :
    (free : Bool) (g : RateDecision) (k : MissingIdx)
    → IsOrdered g
    → let (g', k') = rate_c free (g, k) in
      (notch g'.rate_idx0 ≤ notch g.rate_idx0 + 1)
      × (notch g.rate_idx0 ≤ notch g'.rate_idx0 + 1)
      × (notch g'.rate_idx1 ≤ notch g.rate_idx1 + 1)
      × (notch g.rate_idx1 ≤ notch g'.rate_idx1 + 1)
      × (notch g'.rate_idx2 ≤ notch g.rate_idx2 + 1)
      × (notch g.rate_idx2 ≤ notch g'.rate_idx2 + 1)
unfolding rate_c
rate_c-by_one false g k v = omega arith
rate_c-by_one true g k v =
    let m = lowered (g, k) in
    let o = lowered-IsOrdered (g, k) v in
    let l0 = lowered0-Lowers g k v in
    let l1 = lowered1-Lowers g k v in
    let l2 = lowered2-Lowers g k v in
    let r0 = raised0-Raises m.0 m.1 o in
    let r1 = raised1-Raises m.0 m.1 o in
    let r2 = raised2-Raises m.0 m.1 o in
    omega (
      arith, l0.down, l0.by_one, l1.down, l1.by_one, l2.down, l2.by_one, r0.up, r0.by_one, r1.up,
      r1.by_one, r2.up, r2.by_one,
    )

-- Why a rate moves, in contraposition.
pub record IsJustified (x x' rate round dec inc : ℕ) (k : MissingIdx) : Type 0 where
  pub no_loss : rate ≤ low k → notch x ≤ notch x'
  pub fell_before : round ≤ dec → notch x ≤ notch x'
  pub much_loss : high k ≤ rate → notch x' ≤ notch x
  pub rose_before : round ≤ inc + 2 → notch x' ≤ notch x

module _ (g : RateDecision) (k : MissingIdx) (v : IsOrdered g) where
  justified0 :
      let g' = (rate_c true (g, k)).0 in
      IsJustified g.rate_idx0 g'.rate_idx0 k.rate0 k.round k.round_dec0 k.round_inc0 k
  unfolding rate_c high
  justified0 =
      let m = lowered (g, k) in
      ground (
        arith,
        lowered0-Lowers g k v,
        raised0-Raises m.0 m.1 (lowered-IsOrdered (g, k) v),
        lowered-frame g k v,
      )

  justified1 :
      let g' = (rate_c true (g, k)).0 in
      IsJustified g.rate_idx1 g'.rate_idx1 k.rate1 k.round k.round_dec1 k.round_inc1 k
  unfolding rate_c high
  justified1 =
      let m = lowered (g, k) in
      ground (
        arith,
        lowered1-Lowers g k v,
        raised1-Raises m.0 m.1 (lowered-IsOrdered (g, k) v),
        lowered-frame g k v,
      )

  justified2 :
      let g' = (rate_c true (g, k)).0 in
      IsJustified g.rate_idx2 g'.rate_idx2 k.rate2 k.round k.round_dec2 k.round_inc2 k
  unfolding rate_c high
  justified2 =
      let m = lowered (g, k) in
      ground (
        arith,
        lowered2-Lowers g k v,
        raised2-Raises m.0 m.1 (lowered-IsOrdered (g, k) v),
        lowered-frame g k v,
      )

-- If the rates are in order (`IsOrdered`: the first below the second, which is not above the third; at most 10, 11,
-- and 11 or else 35), as `rate_init` would set them but three zeros are not, each of the three rates falls only at a report whose losses in it pass half the round number and
-- whose round comes after that of its last fall, and rises only at a report whose losses in it stay
-- below seven tenths of the round number and whose round comes more than two after that of its last
-- rise.
pub rate_c-IsJustified :
    (free : Bool) (g : RateDecision) (k : MissingIdx)
    → IsOrdered g
    → let g' = (rate_c free (g, k)).0 in
      IsJustified g.rate_idx0 g'.rate_idx0 k.rate0 k.round k.round_dec0 k.round_inc0 k
      × IsJustified g.rate_idx1 g'.rate_idx1 k.rate1 k.round k.round_dec1 k.round_inc1 k
      × IsJustified g.rate_idx2 g'.rate_idx2 k.rate2 k.round k.round_dec2 k.round_inc2 k
unfolding rate_c
rate_c-IsJustified false g k v = omega arith
rate_c-IsJustified true g k v = (justified0 g k v, justified1 g k v, justified2 g k v)
