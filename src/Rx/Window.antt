-- ===== src/Rx/Window.antt =====
-- The receive window of an encoding: what `vmac_rx` of vmac/rx.c does to the entry for a data frame.
use v_mac_kernel.Prelude.{
  ℕ, zero, suc, ◌+◌, ◌-◌, ◌/◌, ◌%◌, ◌^◌, List, Option, none, some, ltb, leb, ◌==◌, if◌then◌else◌,
  get_or, set,
}
use v_mac_kernel.Words.{u32}
use v_mac_kernel.Structs.{EncodingRx, window_size}
use v_mac_kernel.Kernel.{divide_error, Outcome, ok, oops, ◌>>=◌}

-- `seq >= WINDOW ? seq % WINDOW : seq`
abbrev pub ring : ℕ → ℕ
ring seq = if leb window_size seq then seq % window_size else seq

-- `while (latest < seq)`, with `n` rounds to go: each new frame number starts as lost.
unfoldable pub advance : ℕ → ℕ → List ℕ → List ℕ
advance zero latest w = w
advance (suc n) latest w = advance n (latest + 1) (set w (ring (latest + 1)) 0)

-- What a data frame comes to: it is dropped as a duplicate, or passed on with the new entry and,
-- at the end of a round, a request for a DACK of that round.
pub data Verdict : Type 0 where
  duplicate : Verdict
  accepted : EncodingRx → Option ℕ → Verdict

-- The least sequence number that is recorded.
abbrev pub threshold : ℕ → ℕ
threshold latest = if leb window_size latest then latest % window_size else 0

-- The record of a frame that is no duplicate.
unfoldable pub mark : ℕ → EncodingRx → EncodingRx
mark seq r =
    if leb (threshold r.latest) seq then record r { window = set r.window (ring seq) 1 } else r

-- The differences are of `unsigned long`s, the second of a converted `int`.
abbrev pub elapsed : ℕ → ℕ → ℕ
elapsed jiffies first = (jiffies + 2 ^ 64 - first) % 2 ^ 64

abbrev pub distance : ℕ → ℕ → ℕ
distance seq lastin = (seq + 2 ^ 64 - lastin) % 2 ^ 64

-- The measurement of `alpha`, the time between frames.
unfoldable pub measure : ℕ → ℕ → EncodingRx → Outcome EncodingRx
measure jiffies seq r =
    if r.first_frame == 0
    then ok (record r { first_frame = u32 jiffies })
    else if r.second_frame == 0
    then if distance seq r.lastin == 0
      then oops divide_error
      else ok (record r {
        second_frame = u32 jiffies;
        alpha = u32 (elapsed jiffies r.first_frame / distance seq r.lastin);
        first_frame = 0;
      })
    else ok r

-- The end of a round: `round <= seq - 5` of `int`s.
unfoldable pub end_round : ℕ → EncodingRx → Verdict
end_round seq r =
    if leb (r.round + 5) seq
    then accepted (record r { lastin = seq; round = seq }) (some (seq / 5))
    else accepted (record r { lastin = seq }) none

-- The frame is recorded, timed, and counted for its round.
unfoldable pub take_frame : ℕ → ℕ → EncodingRx → Outcome Verdict
take_frame jiffies seq r = measure jiffies seq (mark seq r) >>= λ r'. ok (end_round seq r')

unfoldable pub receive : ℕ → ℕ → EncodingRx → Outcome Verdict
receive jiffies seq r =
    if ltb r.latest seq
    then take_frame jiffies seq
        (record r { latest = seq; window = advance (seq - r.latest) r.latest r.window })
    else if get_or r.window (ring seq) 0 == 1
    then ok duplicate
    else take_frame jiffies seq r
