-- ===== src/Dack/Complete.antt =====
-- The scan of `prepDACK` as a whole: what it reports, and that its fuel suffices.
use v_mac_kernel.Prelude.{
  ℕ, zero, suc, ◌+◌, ◌-◌, ◌%◌, ◌≤◌, ◌<◌, ◌≡◌, ◌≢◌, refl, ◌⊎◌, inl, inr, List, [], ◌∷◌, ◌++◌, ◌==◌,
  ltb, ◌&&◌, arith, length, length-append, Bool-cases,
}
use native.Mathlib.Decide.{dec_lt}
use v_mac_kernel.Structs.{holes_max}
use v_mac_kernel.Wire.{VmacHole}
use v_mac_kernel.Dack.Scan.{slot, slot_behind, scan_start, back, forward, scan, find_holes}
use v_mac_kernel.Dack.Holes.{
  Fenced, forward-le, forward-Forward, back_stays, slot_behind-ne, IsHole, total, total-append,
  Covered-append_left, Covered-append_right, Chain, Chain-mono, Chain-append, Complete,
}

module _ (before : ℕ) (w : List ℕ) (lattmp : ℕ) (fence : Fenced before w) where
  -- The state of the scan at frame `i`.
  record Scanned (i : ℕ) (hs : List VmacHole) (loss : ℕ) : Type 0 where
    from : scan_start lattmp ≤ i
    within : i ≤ lattmp
    chain : Chain w (scan_start lattmp) lattmp (scan_start lattmp) hs i
    complete : Complete w (scan_start lattmp) lattmp hs i
    count : loss ≡ total hs % 256
    few : length hs ≤ holes_max
    ready : (i ≡ scan_start lattmp) ⊎ ((lattmp ≤ i) ⊎ ((0 < i) × (slot w (i - 1) ≢ 0)))

  -- A received frame is passed.
  skip-Scanned :
      (i : ℕ) (hs : List VmacHole) (loss : ℕ)
      → Scanned i hs loss
      → i < lattmp
      → slot w i ≢ 0
      → Scanned (i + 1) hs loss
  skip-Scanned i hs loss v lt there = record {
    from = omega (arith, v.from);
    within = omega arith;
    chain =
        Chain-mono w (scan_start lattmp) lattmp (scan_start lattmp) i (i + 1) hs v.chain
          (omega arith);
    complete = λ f lo hi last lost. elim (dec_lt f i) [
      | yes h ↦ v.complete f lo h last lost
      | no h ↦ let e : f ≡ i = omega arith in absurd (there (rw e at lost))
    ];
    count = v.count;
    few = v.few;
    ready = inr (inr (omega arith, let e : i + 1 - 1 ≡ i = omega arith in rw e there));
  }

  -- From a lost frame the walk back stops at once.
  back_here :
      (i : ℕ) (hs : List VmacHole) (loss : ℕ)
      → Scanned i hs loss
      → i < lattmp
      → slot w i ≡ 0
      → back before w (scan_start lattmp) i loss ≡ (i, loss)
  back_here i hs loss v lt lost = back_stays before w (scan_start lattmp) i loss (stop v.ready)
    where
      stop :
          (i ≡ scan_start lattmp) ⊎ ((lattmp ≤ i) ⊎ ((0 < i) × (slot w (i - 1) ≢ 0)))
          → (i ≤ scan_start lattmp) ⊎ (slot_behind before w i ≢ 0)
      stop (inl e) = inl (omega arith)
      stop (inr (inl h)) = absurd (omega arith)
      stop (inr (inr h)) = inr (slot_behind-ne before w i fence h.0 lost h.1)

  -- A lost frame starts a hole.
  module _ (i : ℕ) (hs : List VmacHole) (loss : ℕ) (v : Scanned i hs loss) (lt : i < lattmp) where
    abbrev found : VmacHole
    found = record { le = i; re = (forward w (lattmp - 1 - i) i loss).0 }

    found-IsHole : slot w i ≡ 0 → IsHole w (scan_start lattmp) lattmp found
    found-IsHole lost =
        let r = forward-Forward w (lattmp - 1 - i) i loss (omega (arith, v.count)) in
        record {
          inside = v.from;
          ordered = r.low;
          before_end = omega (arith, r.high);
          first = lost;
          lost = r.lost;
          edge = ground (arith, r.edge);
        }

    -- Of the frames up to the right edge only that one may be missing, if it is the last of all.
    not_lost : (f : ℕ) → f ≡ found.re → f + 1 < lattmp → slot w f ≡ 0 → slot w i ≡ 0 → ⊥
    not_lost f e last gone lost = go (found-IsHole lost).edge
      where
        go : (found.re + 1 ≡ lattmp) ⊎ (slot w found.re ≢ 0) → ⊥
        go (inl h) = omega arith
        go (inr h) = h (rw e at gone)

    found-Complete :
        slot w i ≡ 0 → Complete w (scan_start lattmp) lattmp (hs ++ found ∷ []) (found.re + 1)
    found-Complete lost f lo hi last gone = elim (dec_lt f i) [
      | yes h ↦ Covered-append_left f hs found (v.complete f lo h last gone)
      | no h ↦ elim (dec_lt f found.re) [
        | yes h' ↦ Covered-append_right f hs found (omega arith) h'
        | no h' ↦ absurd (not_lost f (omega arith) last gone lost)
      ]
    ]

    hit-Scanned :
        length hs < holes_max
        → slot w i ≡ 0
        → Scanned (found.re + 1) (hs ++ found ∷ []) (forward w (lattmp - 1 - i) i loss).1
    hit-Scanned room lost =
        let r = forward-Forward w (lattmp - 1 - i) i loss (omega (arith, v.count)) in
        record {
          from = omega (arith, v.from, r.low);
          within = omega (arith, r.high);
          chain =
              Chain-append w (scan_start lattmp) lattmp (scan_start lattmp) i hs found v.chain
                (omega arith) (found-IsHole lost);
          complete = found-Complete lost;
          count = omega (arith, r.count, v.count, total-append hs found);
          few = omega (arith, length-append hs (found ∷ []));
          ready = after r.edge;
        }
      where
        after :
            (found.re ≡ i + (lattmp - 1 - i)) ⊎ (slot w found.re ≢ 0)
            → (found.re + 1 ≡ scan_start lattmp)
              ⊎ ((lattmp ≤ found.re + 1) ⊎ ((0 < found.re + 1) × (slot w (found.re + 1 - 1) ≢ 0)))
        after (inl e) = inr (inl (omega arith))
        after (inr h) =
            let e : found.re + 1 - 1 ≡ found.re = omega arith in inr (inr (omega arith, rw e h))

  -- What the scan gives: the state at the frame where it stops, which is the end, unless it has
  -- as many holes as a DACK holds.
  record IsResult (out : List VmacHole × ℕ) : Type 0 where
    stop : ℕ
    scanned : Scanned stop out.0 out.1
    finished : (length out.0 ≡ holes_max) ⊎ (stop ≡ lattmp)

  scan-IsResult :
      (fuel i : ℕ) (hs : List VmacHole) (loss : ℕ)
      → lattmp ≤ fuel + i
      → Scanned i hs loss
      → IsResult (scan fuel before w lattmp i hs loss)
  unfolding scan
  scan-IsResult zero i hs loss enough v = record {
    stop = i;
    scanned = v;
    finished = inr (omega (arith, v.within));
  }
  scan-IsResult (suc fuel) i hs loss enough v =
      elim (Bool-cases (ltb i lattmp && ltb (length hs) holes_max)) [
        | inl go ↦
            let lt : i < lattmp = ground arith in
            let room : length hs < holes_max = ground arith in
            elim (Bool-cases (slot w i == 0)) [
              | inl gone ↦
                  let lost : slot w i ≡ 0 = ground arith in
                  rw (go, gone, back_here i hs loss v lt lost)
                    (scan-IsResult fuel _ (hs ++ found i hs loss v lt ∷ []) _
                      (omega (arith, forward-le w (lattmp - 1 - i) i loss))
                      (hit-Scanned i hs loss v lt room lost))
              | inr there ↦
                  rw (go, there)
                    (scan-IsResult fuel (i + 1) hs loss (omega arith)
                      (skip-Scanned i hs loss v lt (ground arith)))
            ]
        | inr over ↦
            rw over (record { stop = i; scanned = v; finished = ground (arith, v.few, v.within) })
      ]

  start-Scanned : Scanned (scan_start lattmp) [] 0
  start-Scanned = record {
    from = omega arith;
    within = ground arith;
    chain = omega arith;
    complete = λ f lo hi last lost. absurd (omega arith);
    count = omega arith;
    few = omega arith;
    ready = inl refl;
  }

  -- If the word before the window is not zero or frame slot 0 is taken, the holes found for a
  -- round come in order, do not touch, lie within the last WINDOW frames before `lattmp`, consist
  -- of lost frames only, and are at most HOLES_MAX; and unless there are HOLES_MAX of them, every
  -- lost frame of the window but frame `lattmp - 1` lies in one. The losses counted are their
  -- total length, modulo 256.
  pub find_holes_lem :
      let (hs, loss) = find_holes before w lattmp in
      Chain w (scan_start lattmp) lattmp (scan_start lattmp) hs lattmp
      × (length hs ≤ holes_max)
      × ((length hs ≡ holes_max) ⊎ Complete w (scan_start lattmp) lattmp hs lattmp)
      × (loss ≡ total hs % 256)
  unfolding find_holes
  find_holes_lem =
      let r = scan-IsResult lattmp (scan_start lattmp) [] 0 (omega arith) start-Scanned in
      let v = r.scanned in
      (
        Chain-mono w (scan_start lattmp) lattmp (scan_start lattmp) r.stop lattmp _ v.chain
            v.within,
        v.few,
        whole _ r.stop r.finished v.complete,
        v.count,
      )
    where
      whole :
          (hs : List VmacHole) (i : ℕ)
          → (length hs ≡ holes_max) ⊎ (i ≡ lattmp)
          → Complete w (scan_start lattmp) lattmp hs i
          → (length hs ≡ holes_max) ⊎ Complete w (scan_start lattmp) lattmp hs lattmp
      whole hs i (inl h) c = inl h
      whole hs i (inr e) c = inr (λ f lo hi. c f lo (omega arith))

-- The scan runs to its end on enough fuel: any two amounts that reach from frame `i` to `lattmp`, as
-- `lattmp` itself does, give the same holes and the same count.
pub scan_fuel :
    (before : ℕ) (w : List ℕ) (lattmp f g i : ℕ) (hs : List VmacHole) (loss : ℕ)
    → lattmp ≤ f + i
    → lattmp ≤ g + i
    → scan f before w lattmp i hs loss ≡ scan g before w lattmp i hs loss
unfolding scan
scan_fuel before w lattmp zero zero i hs loss hf hg = refl
scan_fuel before w lattmp zero (suc g) i hs loss hf hg = ground arith
scan_fuel before w lattmp (suc f) zero i hs loss hf hg = ground arith
scan_fuel before w lattmp (suc f) (suc g) i hs loss hf hg =
    let (le, loss1) = back before w (scan_start lattmp) i loss in
    let (re, loss2) = forward w (lattmp - 1 - i) i loss1 in
    ground (
      arith,
      forward-le w (lattmp - 1 - i) i loss1,
      scan_fuel before w lattmp f g (i + 1) hs loss,
      scan_fuel before w lattmp f g (re + 1) (hs ++ record { le = le; re = re } ∷ []) loss2,
    )
