-- ===== src/Net/Integrity.antt =====
-- What user space of the receiver can have got, after any history of the two nodes.
use v_mac_kernel.Prelude.{ℕ, ◌^◌, ◌<◌, ◌≡◌, List, All}
use mathlib.Core.Path.{subst}
use v_mac_kernel.Skb.{Skb}
use v_mac_kernel.Kernel.{Env, ok}
use v_mac_kernel.Rx.Pending.{Distinct}
use v_mac_kernel.Net.{Net, Move, hear, heard_number, move, Allowed, Started, Reach, here, next}
use v_mac_kernel.Net.Receiver.{Genuine, numbers, HasPassed}
use v_mac_kernel.Net.Sound.{Sound, Started-Sound, heard-Sound, move-Sound}

module _ (hash : ℕ → ℕ) (enc : ℕ) (he : enc < 2 ^ 64) where
  reached-Sound :
      (n0 n : Net) (st : Started hash enc n0) → Reach hash enc n0 n → Sound hash enc st.got n
  reached-Sound n0 n st here = Started-Sound hash enc n0 st
  reached-Sound n0 n st (next {n = n1} m before allowed e) =
      let (n', e', v) =
        move-Sound hash enc he m st.got n1 (reached-Sound n0 n1 st before) allowed in
      let same : n' ≡ n = cc in subst (Sound hash enc st.got) same v

  -- The sender starts with a new entry and no frames, the receiver with an entry that keeps a set of numbers, no
  -- frames, no DACK to send and a registered user space that got nothing. Whatever allowed moves both have made since, each of these
  -- runs without a fault: `vmac_tx` of a data frame, the sender's `queuethread` and `rqueuethread`, a DACK of any
  -- content at its driver, the receiver's `prepDACK` for any round, its timer and its `queuethread`, and a frame
  -- of the air, with a checksum of four bytes, at its driver. The conditions of the moves: the encoding has 64 bits and
  -- the hash function is the same in all calls; there is memory for the copy of a frame sent and for the message of
  -- one heard, and eight bytes of stack behind a header put on air; a frame heard is fewer than WINDOW numbers behind
  -- the newest; and while more than WINDOW_TX and at most twice as many frames were sent, the holes of the DACKs that
  -- `rqueuethread` serves leave out number WINDOW_TX, with which the driver can queue a buffer that it gave away.
  pub reached_runs :
      (n0 n : Net) (m : Move)
      → Started hash enc n0
      → Reach hash enc n0 n
      → Allowed hash enc m n
      → (n' : Net) × (move enc m n ≡ ok n')
  reached_runs n0 n m st reach allowed =
      let (n', e, v) = move-Sound hash enc he m st.got n (reached-Sound n0 n st reach) allowed in
      (n', e)

  -- The sender starts with a new entry and no frames, the receiver with an entry that keeps a set of numbers, no
  -- frames, no DACK to send and a registered user space that got nothing. After any allowed moves of both, in any
  -- order, with frames lost, late, repeated and out of order on air, and DACKs of any content at the sender's driver:
  -- every message to the receiver's user space is a data frame of the encoding that the sender was given, with its
  -- bytes, under a number that it got, and no number comes twice. Allowed are (`Allowed`) moves with the same hash
  -- function, an encoding of 64 bits, memory for the copy of a frame sent and the message of one heard, eight bytes of
  -- stack behind a header put on air, frames heard that are fewer than WINDOW numbers behind the newest, with a checksum
  -- of four bytes, and, while more than WINDOW_TX and at most twice as many frames were sent, rounds of `rqueuethread`
  -- only for DACKs whose holes leave out number WINDOW_TX, with which the driver can queue a buffer twice.
  pub reached-Genuine :
      (n0 n : Net)
      → Started hash enc n0
      → Reach hash enc n0 n
      → All (Genuine enc n.log) n.receiver.sent × Distinct (numbers n.receiver.sent)
  reached-Genuine n0 n st reach =
      let v = (reached-Sound n0 n st reach).hearing in (v.genuine, v.once)

  -- After any allowed moves of a sender and a receiver that started without frames, a data frame of the air, with a
  -- checksum of four bytes, fewer than WINDOW numbers behind the newest and with memory for its message, is treated
  -- by the receiver's driver without a fault, and then user space has got its number, unless the receiver's set
  -- had it at the start; the moves reach this state, too. The sender starts with a new entry and no frames, the
  -- receiver with an entry that keeps a set of numbers, no frames, no DACK to send and a registered user space that
  -- got nothing; allowed are (`Allowed`) moves with the same hash function, an
  -- encoding of 64 bits, memory for copies and messages, eight bytes of stack behind a header put on air, frames heard
  -- likewise, and, while more than WINDOW_TX and at most twice as many frames were sent, rounds of `rqueuethread`
  -- only for DACKs whose holes leave out number WINDOW_TX.
  pub heard-HasPassed :
      (env : Env) (skb x : Skb) (fcs : List ℕ) (n0 n : Net) (st : Started hash enc n0)
      → Reach hash enc n0 n
      → Allowed hash enc (hear env skb x fcs) n
      → (n' : Net) × (move enc (hear env skb x fcs) n ≡ ok n')
        × HasPassed st.got (heard_number x) n'.receiver
        × Reach hash enc n0 n'
  heard-HasPassed env skb x fcs n0 n st reach allowed =
      let (n', e, passed, v) =
        heard-Sound hash enc he env skb x fcs st.got n (reached-Sound n0 n st reach) allowed in
      (n', e, passed, next (hear env skb x fcs) reach allowed e)
