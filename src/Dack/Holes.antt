-- ===== src/Dack/Holes.antt =====
-- Which holes a DACK reports.
use v_mac_kernel.Prelude.{
  ℕ, zero, suc, ◌+◌, ◌-◌, ◌%◌, ◌≤◌, ◌<◌, ◌≡◌, ◌≢◌, refl, ◌⊎◌, inl, inr, List, [], ◌∷◌, ◌++◌, ◌==◌,
  arith, get_or, Bool-cases,
}
use native.Mathlib.Decide.{dec_le}
use v_mac_kernel.Structs.{window_size}
use v_mac_kernel.Wire.{VmacHole}
use v_mac_kernel.Dack.Scan.{slot, slot_behind, back, forward}

-- The frames from `lo` to before `hi` are lost.
abbrev pub AllLost : List ℕ → ℕ → ℕ → Type 0
AllLost w lo hi = (f : ℕ) → lo ≤ f → f < hi → slot w f ≡ 0

pub record Forward (w : List ℕ) (n i loss : ℕ) (out : ℕ × ℕ) : Type 0 where
  pub low : i ≤ out.0
  pub high : out.0 ≤ i + n
  pub lost : AllLost w i out.0
  pub edge : (out.0 ≡ i + n) ⊎ (slot w out.0 ≢ 0)
  pub count : out.1 ≡ (loss + (out.0 - i)) % 256

first_lost :
    (w : List ℕ) (i f : ℕ) → i ≤ f → slot w i ≡ 0 → (i + 1 ≤ f → slot w f ≡ 0) → slot w f ≡ 0
first_lost w i f lo here later = elim (dec_le (i + 1) f) [
  | yes h ↦ later h
  | no h ↦ let e : f ≡ i = omega arith in rw e here
]

pub forward-Forward :
    (w : List ℕ) (n i loss : ℕ) → loss < 256 → Forward w n i loss (forward w n i loss)
unfolding forward
forward-Forward w zero i loss h = record {
  low = omega arith;
  high = omega arith;
  lost = λ f lo hi. absurd (omega arith);
  edge = inl (omega arith);
  count = omega arith;
}
forward-Forward w (suc n) i loss h = elim (Bool-cases (slot w i == 0)) [
  | inl lost ↦
      let ih = forward-Forward w n (i + 1) ((loss + 1) % 256) (omega arith) in
      let here : slot w i ≡ 0 = ground arith in
      rw lost (record {
        low = omega (arith, ih.low);
        high = omega (arith, ih.high);
        lost = λ f lo hi. first_lost w i f lo here (λ h'. ih.lost f h' hi);
        edge = ground (arith, ih.edge);
        count = omega (arith, ih.count, ih.low);
      })
  | inr there ↦ rw there (record {
    low = omega arith;
    high = omega arith;
    lost = λ f lo hi. absurd (omega arith);
    edge = inr (ground arith);
    count = omega arith;
  })
]

pub forward-le : (w : List ℕ) (n i loss : ℕ) → i ≤ (forward w n i loss).0
unfolding forward
forward-le w zero i loss = omega arith
forward-le w (suc n) i loss = ground (arith, forward-le w n (i + 1) ((loss + 1) % 256))

-- The walk back stops at once where it starts at the window's edge or behind a received frame.
pub back_stays :
    (before : ℕ) (w : List ℕ) (start tmp loss : ℕ)
    → (tmp ≤ start) ⊎ (slot_behind before w tmp ≢ 0)
    → back before w start tmp loss ≡ (tmp, loss)
unfolding back
back_stays before w start zero loss h = refl
back_stays before w start (suc t) loss h = ground arith

-- Either the word before the window is not zero, or frame slot 0 is taken.
abbrev pub Fenced : ℕ → List ℕ → Type 0
Fenced before w = (before ≢ 0) ⊎ (get_or w 0 0 ≢ 0)

pub slot_behind-ne :
    (before : ℕ) (w : List ℕ) (i : ℕ)
    → Fenced before w
    → 0 < i
    → slot w i ≡ 0
    → slot w (i - 1) ≢ 0
    → slot_behind before w i ≢ 0
slot_behind-ne before w i fence pos lost there = elim (Bool-cases (i % window_size == 0)) [
  | inl zeroth ↦
      let e : i % window_size ≡ 0 = ground arith in
      let here : get_or w 0 0 ≡ 0 = rw e at lost in rw zeroth (ground arith)
  | inr other ↦
      let e : (i - 1) % window_size ≡ i % window_size - 1 = ground arith in rw other (rw e at there)
]

-- A hole of a DACK for the frames from `start` to before `lattmp`: its left edge is lost, so are all
-- frames up to its right edge, and the right edge is a received frame or the last of the frames.
pub record IsHole (w : List ℕ) (start lattmp : ℕ) (h : VmacHole) : Type 0 where
  pub inside : start ≤ h.le
  pub ordered : h.le ≤ h.re
  pub before_end : h.re < lattmp
  pub first : slot w h.le ≡ 0
  pub lost : (f : ℕ) → h.le ≤ f → f < h.re → slot w f ≡ 0
  pub edge : (h.re + 1 ≡ lattmp) ⊎ (slot w h.re ≢ 0)

-- The frame lies in one of the holes, whose right edges are excluded.
abbrev pub Covered : ℕ → List VmacHole → Type 0
Covered f [] = ⊥
Covered f (h ∷ hs) = ((h.le ≤ f) × (f < h.re)) ⊎ Covered f hs

abbrev pub total : List VmacHole → ℕ
total [] = 0
total (h ∷ hs) = (h.re - h.le) + total hs

pub total-append :
    (hs : List VmacHole) (h : VmacHole) → total (hs ++ h ∷ []) ≡ total hs + (h.re - h.le)
total-append [] h = omega arith
total-append (x ∷ hs) h = omega (arith, total-append hs h)

pub Covered-append_left :
    (f : ℕ) (hs : List VmacHole) (h : VmacHole) → Covered f hs → Covered f (hs ++ h ∷ [])
Covered-append_left f [] h c = absurd c
Covered-append_left f (x ∷ hs) h (inl c) = inl c
Covered-append_left f (x ∷ hs) h (inr c) = inr (Covered-append_left f hs h c)

pub Covered-append_right :
    (f : ℕ) (hs : List VmacHole) (h : VmacHole) → h.le ≤ f → f < h.re → Covered f (hs ++ h ∷ [])
Covered-append_right f [] h lo hi = inl (lo, hi)
Covered-append_right f (x ∷ hs) h lo hi = inr (Covered-append_right f hs h lo hi)

module _ (w : List ℕ) (start lattmp : ℕ) where
  -- Holes in order, apart from one another, from `lo` on and before `hi`.
  abbrev pub Chain : ℕ → List VmacHole → ℕ → Type 0
  Chain lo [] hi = lo ≤ hi
  Chain lo (h ∷ hs) hi = (lo ≤ h.le) × IsHole w start lattmp h × Chain (h.re + 1) hs hi

  pub Chain-mono : (lo i j : ℕ) (hs : List VmacHole) → Chain lo hs i → i ≤ j → Chain lo hs j
  Chain-mono lo i j [] c h = omega arith
  Chain-mono lo i j (x ∷ hs) c h = (c.0, c.1, Chain-mono (x.re + 1) i j hs c.2 h)

  pub Chain-append :
      (lo i : ℕ) (hs : List VmacHole) (h : VmacHole)
      → Chain lo hs i
      → i ≤ h.le
      → IsHole w start lattmp h
      → Chain lo (hs ++ h ∷ []) (h.re + 1)
  Chain-append lo i [] h c le g = (omega arith, g, omega arith)
  Chain-append lo i (x ∷ hs) h c le g = (c.0, c.1, Chain-append (x.re + 1) i hs h c.2 le g)

  -- Every lost frame before `i` but the last of all lies in a hole.
  abbrev pub Complete : List VmacHole → ℕ → Type 0
  Complete hs i = (f : ℕ) → start ≤ f → f < i → f + 1 < lattmp → slot w f ≡ 0 → Covered f hs
