-- ===== src/Rx/Reported.antt =====
-- The frames of the holes of a DACK: in order, each once, each lost, each within the window.
use v_mac_kernel.Prelude.{
  ℕ, zero, suc, ◌+◌, ◌-◌, ◌^◌, ◌≤◌, ◌<◌, ◌≡◌, refl, ap, ◌∙◌, inl, inr, List, [], ◌∷◌, ◌++◌, arith,
  length, All, All-map, In, In-append_right, length-append,
}
use native.Mathlib.Decide.{ℕ_discrete}
use v_mac_kernel.Wire.{VmacHole}
use v_mac_kernel.Dack.Scan.{slot}
use v_mac_kernel.Dack.Holes.{Chain, Covered, total}
use v_mac_kernel.Rx.Report.{Fit}
use v_mac_kernel.Rx.Pending.{Distinct, range}

-- The frames of the holes, in their order.
abbrev pub frames : List VmacHole → List ℕ
frames [] = []
frames (h ∷ hs) = range (h.re - h.le) h.le ++ frames hs

-- What the frames of a hole have in common.
All-range :
    {P : ℕ → Type 0} (n le : ℕ) (rest : List ℕ)
    → ((i : ℕ) → le ≤ i → i < le + n → P i)
    → All P rest
    → All P (range n le ++ rest)
All-range zero le rest f r = r
All-range (suc n) le rest f r = (
  f le (omega arith) (omega arith),
  All-range n (le + 1) rest (λ i lo hi. f i (omega arith) (omega arith)) r,
)

pub All-frames :
    {P : ℕ → Type 0} (w : List ℕ) (start lattmp lo hi : ℕ) (hs : List VmacHole)
    → Chain w start lattmp lo hs hi
    → ((i : ℕ) → lo ≤ i → start ≤ i → i + 1 < lattmp → P i)
    → All P (frames hs)
All-frames w start lattmp lo hi [] c f = tt
All-frames w start lattmp lo hi (h ∷ hs) (low, hole, c) f =
    All-range (h.re - h.le) h.le (frames hs)
      (λ i a b.
        f i (omega arith) (omega (arith, hole.inside))
          (omega (arith, hole.before_end, hole.ordered)))
      (All-frames w start lattmp (h.re + 1) hi hs c (λ i a. f i (omega (arith, hole.ordered))))

Distinct-range :
    (n le : ℕ) (rest : List ℕ)
    → All (λ j. le + n ≤ j) rest
    → Distinct rest
    → Distinct (range n le ++ rest)
Distinct-range zero le rest a d = d
Distinct-range (suc n) le rest a d = (
  All-range n (le + 1) rest (λ i lo hi e. omega arith) (All-map rest a (λ i h e. omega arith)),
  Distinct-range n (le + 1) rest (All-map rest a (λ i h. omega arith)) d,
)

pub Distinct-frames :
    (w : List ℕ) (start lattmp lo hi : ℕ) (hs : List VmacHole)
    → Chain w start lattmp lo hs hi
    → Distinct (frames hs)
Distinct-frames w start lattmp lo hi [] c = tt
Distinct-frames w start lattmp lo hi (h ∷ hs) (low, hole, c) =
    Distinct-range (h.re - h.le) h.le (frames hs)
      (All-frames w start lattmp (h.re + 1) hi hs c (λ i a s b. omega (arith, hole.ordered)))
      (Distinct-frames w start lattmp (h.re + 1) hi hs c)

pub length-frames : (hs : List VmacHole) → length (frames hs) ≡ total hs
length-frames [] = refl
length-frames (h ∷ hs) =
    length-append (range (h.re - h.le) h.le) (frames hs)
    ∙ omega (arith, length-range (h.re - h.le) h.le, length-frames hs)
  where
    length-range : (n le : ℕ) → length (range n le) ≡ n
    length-range zero le = refl
    length-range (suc n) le = ap suc (length-range n (le + 1))

In-range : (f n le : ℕ) (rest : List ℕ) → le ≤ f → f < le + n → In f (range n le ++ rest)
In-range f zero le rest lo hi = absurd (omega arith)
In-range f (suc n) le rest lo hi = elim (ℕ_discrete f le) [
  | yes e ↦ inl e
  | no ne ↦ inr (In-range f n (le + 1) rest (omega arith) (omega arith))
]

pub Covered-In : (f : ℕ) (hs : List VmacHole) → Covered f hs → In f (frames hs)
Covered-In f [] c = absurd c
Covered-In f (h ∷ hs) (inl (lo, hi)) = In-range f (h.re - h.le) h.le (frames hs) lo (omega arith)
Covered-In f (h ∷ hs) (inr c) =
    In-append_right f (range (h.re - h.le) h.le) (frames hs) (Covered-In f hs c)

pub Chain-Fit :
    (w : List ℕ) (start lattmp lo hi : ℕ) (hs : List VmacHole)
    → lattmp < 2 ^ 16
    → Chain w start lattmp lo hs hi
    → Fit hs
Chain-Fit w start lattmp lo hi [] short c = tt
Chain-Fit w start lattmp lo hi (h ∷ hs) short (low, hole, c) = (
  omega (arith, hole.ordered, hole.before_end),
  omega (arith, hole.before_end),
  Chain-Fit w start lattmp (h.re + 1) hi hs short c,
)

pub All-lost :
    (w : List ℕ) (start lattmp lo hi : ℕ) (hs : List VmacHole)
    → Chain w start lattmp lo hs hi
    → All (λ i. slot w i ≡ 0) (frames hs)
All-lost w start lattmp lo hi [] c = tt
All-lost w start lattmp lo hi (h ∷ hs) (low, hole, c) =
    All-range (h.re - h.le) h.le (frames hs) (λ i a b. hole.lost i a (omega arith))
      (All-lost w start lattmp (h.re + 1) hi hs c)
