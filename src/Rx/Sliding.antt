-- ===== src/Rx/Sliding.antt =====
-- The receive window as a set of received sequence numbers.
use v_mac_kernel.Prelude.{
  ℕ, zero, suc, ◌+◌, ◌-◌, ◌%◌, ◌≤◌, ◌<◌, ◌≡◌, refl, ◌∙◌, ◌⊎◌, List, Bool, true, false, ◌==◌, ltb,
  if◌then◌else◌, arith, length, length-set, get_or, set, get_or-set_at, get_or-set_ne,
}
use native.Mathlib.Decide.{dec_lt, ℕ_discrete}
use v_mac_kernel.Structs.{EncodingRx, window_size}
use v_mac_kernel.Rx.Window.{ring, advance, threshold}

pub ring-mod : (s : ℕ) → ring s ≡ s % window_size
ring-mod s = ground arith

pub length-advance : (n latest : ℕ) (w : List ℕ) → length (advance n latest w) ≡ length w
unfolding advance
length-advance zero latest w = refl
length-advance (suc n) latest w =
    length-advance n (latest + 1) (set w (ring (latest + 1)) 0) ∙ length-set w (ring (latest + 1)) 0

-- Frames that stay in the window keep their slots.
advance_old :
    (n latest s : ℕ) (w : List ℕ)
    → s ≤ latest
    → latest + n < s + window_size
    → get_or (advance n latest w) (s % window_size) 0 ≡ get_or w (s % window_size) 0
unfolding advance
advance_old zero latest s w old fits = refl
advance_old (suc n) latest s w old fits =
    advance_old n (latest + 1) s (set w (ring (latest + 1)) 0) (omega arith) (omega arith)
    ∙ get_or-set_ne w (ring (latest + 1)) (s % window_size) 0 0 (ground arith)

-- Frames that enter it start as lost.
advance_new :
    (n latest s : ℕ) (w : List ℕ)
    → length w ≡ window_size
    → latest < s
    → s ≤ latest + n
    → latest + n < s + window_size
    → get_or (advance n latest w) (s % window_size) 0 ≡ 0
unfolding advance
advance_new zero latest s w len new high fits = absurd (omega arith)
advance_new (suc n) latest s w len new high fits = elim (ℕ_discrete s (latest + 1)) [
  | yes e ↦
      advance_old n (latest + 1) s (set w (ring (latest + 1)) 0) (omega arith) (omega arith)
      ∙ get_or-set_at w (ring (latest + 1)) (s % window_size) 0 0 (ground arith) (ground arith)
  | no ne ↦
      advance_new n (latest + 1) s (set w (ring (latest + 1)) 0)
        (length-set w (ring (latest + 1)) 0 ∙ len) (omega arith) (omega arith) (omega arith)
]

-- The entry keeps `got`, the set of the sequence numbers received, for the last WINDOW numbers, and
-- times frames only from a received one.
pub record Represents (r : EncodingRx) (got : ℕ → Bool) : Type 0 where
  pub size : length r.window ≡ window_size
  pub slots :
      (s : ℕ)
      → s ≤ r.latest
      → r.latest < s + window_size
      → get_or r.window (s % window_size) 0 ≡ (if got s then 1 else 0)
  pub timed : (r.first_frame ≡ 0) ⊎ ((got r.lastin ≡ true) × (r.lastin ≤ r.latest))

-- The set after frame `seq`: numbers over `latest` are new.
abbrev pub receives : ℕ → ℕ → (ℕ → Bool) → ℕ → Bool
receives latest seq got s = if s == seq then true else if ltb latest s then false else got s

-- A new frame moves the window on: it is received, and the frames that it skips are lost.
pub advanced_slots :
    (r : EncodingRx) (got : ℕ → Bool) (seq s : ℕ)
    → Represents r got
    → r.latest < seq
    → s ≤ seq
    → seq < s + window_size
    → get_or (advance (seq - r.latest) r.latest r.window) (s % window_size) 0
      ≡ (if ltb r.latest s then 0 else if got s then 1 else 0)
advanced_slots r got seq s v new old fits = elim (dec_lt r.latest s) [
  | yes h ↦ ground (arith, advance_new (seq - r.latest) r.latest s r.window v.size)
  | no h ↦ ground (arith, advance_old (seq - r.latest) r.latest s r.window, v.slots s)
]

-- A frame of the window passes the threshold, whose slot is its own.
pub threshold-le :
    (latest seq : ℕ) → seq ≤ latest → latest < seq + window_size → threshold latest ≤ seq
threshold-le latest seq h fits = ground arith

-- Marking frame `seq` in a window that ends at `latest`.
pub marked_slots :
    (w : List ℕ) (latest seq s : ℕ)
    → length w ≡ window_size
    → seq ≤ latest
    → latest < seq + window_size
    → s ≤ latest
    → latest < s + window_size
    → get_or (set w (ring seq) 1) (s % window_size) 0
      ≡ (if s == seq then 1 else get_or w (s % window_size) 0)
marked_slots w latest seq s len h fits h' fits' = elim (ℕ_discrete s seq) [
  | yes e ↦ ground (arith, get_or-set_at w (ring seq) (s % window_size) 1 0)
  | no ne ↦ ground (arith, get_or-set_ne w (ring seq) (s % window_size) 1 0)
]
