-- ===== src/Rx/Stream.antt =====
-- A stream of data frames of one encoding: each frame goes on to user space once.
use v_mac_kernel.Prelude.{
  ap, ℕ, ◌+◌, ◌^◌, ◌≤◌, ◌<◌, ◌≡◌, refl, ◌⊎◌, inl, inr, List, [], ◌∷◌, Option, Bool, true, false,
  ◌==◌, ◌||◌, ltb, if◌then◌else◌, arith, Bool-cases,
}
use v_mac_kernel.Structs.{EncodingRx, window_size}
use v_mac_kernel.Kernel.{Outcome, ok, ◌>>=◌}
use v_mac_kernel.Rx.Window.{Verdict, duplicate, accepted, receive}
use v_mac_kernel.Rx.Sliding.{Represents, receives}
use v_mac_kernel.Rx.Receive.{receive_refines}

-- The frames, each with the jiffies at its arrival, through `receive`: the numbers of those that are
-- passed on, and the entry in the end.
abbrev deliver_next :
    (EncodingRx → Outcome (List ℕ × EncodingRx))
    → ℕ
    → EncodingRx
    → Verdict
    → Outcome (List ℕ × EncodingRx)
deliver_next rest seq r duplicate = rest r
deliver_next rest seq r (accepted r' request) = rest r' >>= λ (out, s). ok (seq ∷ out, s)

pub deliver : List (ℕ × ℕ) → EncodingRx → Outcome (List ℕ × EncodingRx)
deliver [] r = ok ([], r)
deliver ((jiffies, seq) ∷ frames) r = receive jiffies seq r >>= deliver_next (deliver frames) seq r

-- The numbers that are not seen before.
abbrev pub firsts : (ℕ → Bool) → List (ℕ × ℕ) → List ℕ
firsts seen [] = []
firsts seen ((jiffies, seq) ∷ frames) =
    let later = firsts (λ s. s == seq || seen s) frames in if seen seq then later else seq ∷ later

-- No frame is WINDOW or more numbers behind the newest.
abbrev pub IsTimely : ℕ → List (ℕ × ℕ) → Type 0
IsTimely latest [] = Unit
IsTimely latest ((jiffies, seq) ∷ frames) =
    (seq < 2 ^ 16)
    × (latest < seq + window_size)
    × IsTimely (if ltb latest seq then seq else latest) frames

-- The numbers seen are at most the newest.
abbrev pub Below : (ℕ → Bool) → ℕ → Type 0
Below seen latest = (s : ℕ) → seen s ≡ true → s ≤ latest

firsts-cong :
    (f g : ℕ → Bool) (frames : List (ℕ × ℕ))
    → ((s : ℕ) → f s ≡ g s)
    → firsts f frames ≡ firsts g frames
firsts-cong f g [] h = refl
firsts-cong f g ((j, seq) ∷ frames) h = ground (
  arith,
  h seq,
  firsts-cong (λ s. s == seq || f s) (λ s. s == seq || g s) frames (λ s. ground (arith, h s)),
)

-- The conclusion for a stream.
abbrev Delivers : List (ℕ × ℕ) → EncodingRx → (ℕ → Bool) → Type 0
Delivers frames r got = (r' : EncodingRx) × (deliver frames r ≡ ok (firsts got frames, r'))

deliver_dup :
    (jiffies seq : ℕ) (frames : List (ℕ × ℕ)) (r : EncodingRx) (got : ℕ → Bool)
    → got seq ≡ true
    → receive jiffies seq r ≡ ok duplicate
    → Delivers frames r got
    → Delivers ((jiffies, seq) ∷ frames) r got
unfolding deliver
deliver_dup jiffies seq frames r got dup e (r', ih) =
    (r', rw (e, dup, ← firsts-cong got (λ s. s == seq || got s) frames same) ih)
  where
    same : (s : ℕ) → got s ≡ (s == seq || got s)
    same s = elim (Bool-cases (s == seq)) [
      | inl h ↦ let q : s ≡ seq = ground arith in ground (arith, ap got q)
      | inr h ↦ rw h
    ]

deliver_new :
    (jiffies seq : ℕ) (frames : List (ℕ × ℕ)) (r r1 : EncodingRx) (got : ℕ → Bool) (q : Option ℕ)
    → got seq ≡ false
    → receive jiffies seq r ≡ ok (accepted r1 q)
    → Delivers frames r1 (λ s. s == seq || got s)
    → Delivers ((jiffies, seq) ∷ frames) r got
unfolding deliver
deliver_new jiffies seq frames r r1 got q new e (r', ih) = (r', rw (e, new, ih))

unseen :
    (got : ℕ → Bool) (latest seq : ℕ)
    → Below got latest
    → (got seq ≡ false) ⊎ (latest < seq)
    → got seq ≡ false
unseen got latest seq b (inl e) = e
unseen got latest seq b (inr h) = elim (Bool-cases (got seq)) [
  | inl e ↦ absurd (omega (arith, b seq e))
  | inr e ↦ e
]

receives-Below :
    (got : ℕ → Bool) (latest seq : ℕ)
    → Below got latest
    → Below (receives latest seq got) (if ltb latest seq then seq else latest)
receives-Below got latest seq b s h = ground (arith, b s)

receives-eq :
    (got : ℕ → Bool) (latest seq s : ℕ)
    → Below got latest
    → receives latest seq got s ≡ (s == seq || got s)
receives-eq got latest seq s b = elim (Bool-cases (got s)) [
  | inl e ↦ ground (arith, b s e)
  | inr e ↦ ground arith
]

-- If an entry keeps the set of the numbers received, and the frames that arrive are never WINDOW or
-- more numbers behind the newest, then all are treated without a fault, and what goes on to user space
-- is each number that was not received before, once, in the order of first arrival.
pub deliver-firsts :
    (frames : List (ℕ × ℕ)) (r : EncodingRx) (got : ℕ → Bool)
    → Represents r got
    → Below got r.latest
    → IsTimely r.latest frames
    → (r' : EncodingRx) × (deliver frames r ≡ ok (firsts got frames, r'))
unfolding deliver
deliver-firsts [] r got v b t = (r, refl)
deliver-firsts ((jiffies, seq) ∷ frames) r got v b t =
    elim (receive_refines jiffies seq r got v t.0 t.1) [
      | inl (dup, old, e) ↦ deliver_dup jiffies seq frames r got dup e (
          deliver-firsts frames r got v b
            (let h : ltb r.latest seq ≡ false = ground arith in rw h at t.2))
      | inr (new, a) ↦
          let got' = receives r.latest seq got in
          let below : Below got' a.entry.latest = rw a.newest (receives-Below got r.latest seq b) in
          let (r', e) = deliver-firsts frames a.entry got' a.represents below (rw a.newest t.2) in
          let same =
            firsts-cong got' (λ s. s == seq || got s) frames
              (λ s. receives-eq got r.latest seq s b) in
          deliver_new jiffies seq frames r a.entry got a.request (unseen got r.latest seq b new)
            a.result (r', rw same at e)
    ]
