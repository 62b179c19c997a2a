-- ===== src/Rx/Receive.antt =====
-- `receive`, the treatment of a data frame, against the set of received sequence numbers.
use v_mac_kernel.Prelude.{
  ℕ, ◌+◌, ◌-◌, ◌%◌, ◌/◌, ◌^◌, ◌≤◌, ◌<◌, ◌≡◌, ◌≢◌, refl, ◌∙◌, ◌⊎◌, inl, inr, Option, none, some,
  Bool, true, false, ◌==◌, ltb, leb, if◌then◌else◌, arith, length, length-set, get_or, set,
  Bool-cases,
}
use v_mac_kernel.Words.{u32}
use v_mac_kernel.Structs.{EncodingRx, window_size}
use v_mac_kernel.Kernel.{Outcome, ok}
use v_mac_kernel.Rx.Window.{
  ring, advance, Verdict, duplicate, accepted, threshold, mark, elapsed, distance, measure,
  end_round, take_frame, receive,
}
use v_mac_kernel.Rx.Sliding.{
  length-advance, Represents, receives, advanced_slots, marked_slots, threshold-le,
}

-- Timing touches neither the window nor the round, and divides only by a distance that is not zero.
record Measured (r : EncodingRx) (out : Outcome EncodingRx) : Type 0 where
  entry : EncodingRx
  result : out ≡ ok entry
  window : entry.window ≡ r.window
  latest : entry.latest ≡ r.latest
  round : entry.round ≡ r.round
  dac_info : entry.dac_info ≡ r.dac_info

measure-Measured :
    (jiffies seq : ℕ) (r : EncodingRx)
    → (r.first_frame ≡ 0) ⊎ (distance seq r.lastin ≢ 0)
    → Measured r (measure jiffies seq r)
unfolding measure
measure-Measured jiffies seq r h = elim (Bool-cases (r.first_frame == 0)) [
  | inl e ↦ record {
    entry = record r { first_frame = u32 jiffies };
    result = rw e;
    window = refl;
    latest = refl;
    round = refl;
    dac_info = refl;
  }
  | inr first ↦ elim (Bool-cases (r.second_frame == 0)) [
    | inl second ↦ record {
      entry = record r {
        second_frame = u32 jiffies;
        alpha = u32 (elapsed jiffies r.first_frame / distance seq r.lastin);
        first_frame = 0;
      };
      result = ground arith;
      window = refl;
      latest = refl;
      round = refl;
      dac_info = refl;
    }
    | inr third ↦ record {
      entry = r;
      result = ground arith;
      window = refl;
      latest = refl;
      round = refl;
      dac_info = refl;
    }
  ]
]

-- What comes out for a frame that is no duplicate.
pub record Accepts (r : EncodingRx) (seq latest : ℕ) (got : ℕ → Bool) (out : Outcome Verdict)
    : Type 0 where
  pub entry : EncodingRx
  pub request : Option ℕ
  pub result : out ≡ ok (accepted entry request)
  pub newest : entry.latest ≡ latest
  pub represents : Represents entry got
  pub requested : request ≡ (if leb (r.round + 5) seq then some (seq / 5) else none)
  pub round : entry.round ≡ (if leb (r.round + 5) seq then seq else r.round)
  pub dac_info : entry.dac_info ≡ r.dac_info

-- The entry at the end of a frame's treatment.
abbrev finished : ℕ → EncodingRx → EncodingRx
finished seq r = record r { lastin = seq; round = if leb (r.round + 5) seq then seq else r.round }

end_round_lem :
    (seq : ℕ) (r : EncodingRx)
    → end_round seq r
      ≡ accepted (finished seq r) (if leb (r.round + 5) seq then some (seq / 5) else none)
unfolding end_round
end_round_lem seq r = ground arith

module _ (jiffies seq : ℕ) (r : EncodingRx) (got : ℕ → Bool) where
  take_frame-Accepts :
      length r.window ≡ window_size
      → ((s : ℕ)
          → s ≤ r.latest
          → r.latest < s + window_size
          → get_or r.window (s % window_size) 0 ≡ (if got s then 1 else 0))
      → seq ≤ r.latest
      → r.latest < seq + window_size
      → (r.first_frame ≡ 0) ⊎ (distance seq r.lastin ≢ 0)
      → Accepts r seq r.latest (λ s. if s == seq then true else got s) (take_frame jiffies seq r)
  unfolding take_frame mark
  take_frame-Accepts size slots old fits timing =
      let pass : leb (threshold r.latest) seq ≡ true = ground (arith, threshold-le r.latest seq) in
      let m =
        measure-Measured jiffies seq (record r { window = set r.window (ring seq) 1 }) timing in
      record {
        entry = finished seq m.entry;
        request = if leb (m.entry.round + 5) seq then some (seq / 5) else none;
        result = rw (pass, m.result) (rw (end_round_lem seq m.entry));
        newest = m.latest;
        represents = record {
          size = rw m.window (length-set r.window (ring seq) 1 ∙ size);
          slots = λ s h fit.
              ground (arith, m.window, m.latest, slots s, marked_slots r.window r.latest seq s);
          timed = inr (ground arith, omega (arith, m.latest));
        };
        requested = rw m.round;
        round = rw m.round;
        dac_info = m.dac_info;
      }

module _ (jiffies seq : ℕ) (r : EncodingRx) (got : ℕ → Bool) (v : Represents r got) where
  abbrev known : ℕ → Bool
  known s = if ltb r.latest s then false else got s

  receive_new :
      seq < 2 ^ 16
      → r.latest < seq
      → Accepts r seq seq (receives r.latest seq got) (
          take_frame jiffies seq
            (record r { latest = seq; window = advance (seq - r.latest) r.latest r.window }))
  receive_new range new =
      let a =
        take_frame-Accepts jiffies seq
          (record r { latest = seq; window = advance (seq - r.latest) r.latest r.window }) known
          (length-advance (seq - r.latest) r.latest r.window ∙ v.size)
          (λ s h fit. ground (arith, advanced_slots r got seq s v new)) (omega arith) (omega arith)
          (timing v.timed) in
      record {
        entry = a.entry;
        request = a.request;
        result = a.result;
        newest = a.newest;
        represents = a.represents;
        requested = a.requested;
        round = a.round;
        dac_info = a.dac_info;
      }
    where
      timing :
          (r.first_frame ≡ 0) ⊎ ((got r.lastin ≡ true) × (r.lastin ≤ r.latest))
          → (r.first_frame ≡ 0) ⊎ (distance seq r.lastin ≢ 0)
      timing (inl e) = inl e
      timing (inr h) = inr (omega arith)

  receive_late :
      seq < 2 ^ 16
      → seq ≤ r.latest
      → r.latest < seq + window_size
      → got seq ≡ false
      → Accepts r seq r.latest (receives r.latest seq got) (take_frame jiffies seq r)
  receive_late range old fits late =
      take_frame-Accepts jiffies seq r known v.size (λ s h fit. ground (arith, v.slots s)) old fits
        (timing v.timed)
    where
      timing :
          (r.first_frame ≡ 0) ⊎ ((got r.lastin ≡ true) × (r.lastin ≤ r.latest))
          → (r.first_frame ≡ 0) ⊎ (distance seq r.lastin ≢ 0)
      timing (inl e) = inl e
      timing (inr h) = inr (λ z. let e : seq ≡ r.lastin = omega arith in cc)

-- For an entry that keeps the set `got` of received numbers, and a frame that is at most WINDOW - 1
-- numbers behind the newest: either it was received and is dropped as a duplicate, or it was not, or
-- its number is new, and it is accepted without a fault; then the newest number is the larger of the
-- two, the entry keeps the set with this frame added and the skipped numbers removed, and a DACK is
-- asked for, for a fifth of the number, exactly if the number is at least five over the entry's
-- `round`, which then is this number.
pub receive_refines :
    (jiffies seq : ℕ) (r : EncodingRx) (got : ℕ → Bool)
    → Represents r got
    → seq < 2 ^ 16
    → r.latest < seq + window_size
    → ((got seq ≡ true) × (seq ≤ r.latest) × (receive jiffies seq r ≡ ok duplicate))
      ⊎ (((got seq ≡ false) ⊎ (r.latest < seq))
          × Accepts r seq
              (if ltb r.latest seq then seq else r.latest)
              (receives r.latest seq got)
              (receive jiffies seq r))
unfolding receive
receive_refines jiffies seq r got v range fits = elim (Bool-cases (ltb r.latest seq)) [
  | inl new ↦
      inr (inr (ground arith), rw new (receive_new jiffies seq r got v range (ground arith)))
  | inr old ↦ elim (Bool-cases (got seq)) [
    | inl dup ↦ inl (dup, ground arith, ground (arith, v.slots seq))
    | inr late ↦
        let slot : (get_or r.window (ring seq) 0 == 1) ≡ false = ground (arith, v.slots seq) in
        inr (
          inl late,
          rw (old, slot) (receive_late jiffies seq r got v range (ground arith) fits late),
        )
  ]
]
