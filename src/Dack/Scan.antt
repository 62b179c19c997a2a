-- ===== src/Dack/Scan.antt =====
-- The loops of `prepDACK` in vmac/dack.c that look for the holes in the receive window. `before` is
-- what stands in memory before `window[0]`, which the code reads as `window[tmp % WINDOW - 1]`
-- whenever `tmp` is a multiple of WINDOW. `loss` is a `u8`.
use v_mac_kernel.Prelude.{
  ℕ, zero, suc, ◌+◌, ◌-◌, ◌%◌, List, [], ◌∷◌, ◌++◌, ◌&&◌, ltb, ◌==◌, if◌then◌else◌, length, get_or,
}
use v_mac_kernel.Words.{u8}
use v_mac_kernel.Structs.{window_size, holes_max}
use v_mac_kernel.Wire.{VmacHole}

-- `window[i % WINDOW]`
abbrev pub slot : List ℕ → ℕ → ℕ
slot w i = get_or w (i % window_size) 0

-- `window[tmp % WINDOW - 1]`
abbrev pub slot_behind : ℕ → List ℕ → ℕ → ℕ
slot_behind before w tmp =
    if tmp % window_size == 0 then before else get_or w (tmp % window_size - 1) 0

-- Where the scan starts: `lattmp < WINDOW ? 0 : lattmp - WINDOW`.
abbrev pub scan_start : ℕ → ℕ
scan_start lattmp = if ltb lattmp window_size then 0 else lattmp - window_size

-- The loop that goes back from a lost frame, to its left edge.
unfoldable pub back : ℕ → List ℕ → ℕ → ℕ → ℕ → ℕ × ℕ
back before w start zero loss = (zero, loss)
back before w start (suc t) loss =
    let rest = back before w start t (u8 (loss + 1)) in
    if slot_behind before w (suc t) == 0 && ltb start t then rest else (suc t, loss)

-- The loop that goes on to the right edge, with `n` frames left before the last.
unfoldable pub forward : List ℕ → ℕ → ℕ → ℕ → ℕ × ℕ
forward w zero i loss = (i, loss)
forward w (suc n) i loss =
    let rest = forward w n (i + 1) (u8 (loss + 1)) in if slot w i == 0 then rest else (i, loss)

-- The loop over the window, on fuel. It gives the holes found and the losses counted.
unfoldable pub scan : ℕ → ℕ → List ℕ → ℕ → ℕ → List VmacHole → ℕ → List VmacHole × ℕ
unfolding back forward
scan zero before w lattmp i holes loss = (holes, loss)
scan (suc fuel) before w lattmp i holes loss =
    let skip = scan fuel before w lattmp (i + 1) holes loss in
    let hit =
      let (le, loss1) = back before w (scan_start lattmp) i loss in
      let (re, loss2) = forward w (lattmp - 1 - i) i loss1 in
      scan fuel before w lattmp (re + 1) (holes ++ record { le = le; re = re } ∷ []) loss2 in
    if ltb i lattmp && ltb (length holes) holes_max
    then (if slot w i == 0 then hit else skip)
    else (holes, loss)

-- The holes before frame `lattmp` and the losses in them.
unfoldable pub find_holes : ℕ → List ℕ → ℕ → List VmacHole × ℕ
unfolding scan
find_holes before w lattmp = scan lattmp before w lattmp (scan_start lattmp) [] 0
