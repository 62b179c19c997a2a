-- ===== src/Main/Redelivered.antt =====
-- A lost frame's way: the DACK of the receiver at the sender, a round of the sender's queue, and the copy at the receiver.
use v_mac_kernel.Prelude.{
  ℕ, ◌+◌, ◌*◌, ◌^◌, ◌≤◌, ◌<◌, ◌≡◌, refl, ◌∙◌, some, List, [], ◌++◌, Bool, true, arith, length, In,
}
use native.Mathlib.Decide.{dec_le}
use v_mac_kernel.Words.{u16}
use v_mac_kernel.Skb.{Skb, to}
use v_mac_kernel.Structs.{EncodingRx, EncodingTx, holes_max, window_size}
use v_mac_kernel.Table.{find}
use v_mac_kernel.Wire.{hdr_data, hdr_bytes, data_bytes}
use v_mac_kernel.Kernel.{Kernel, Env, ok}
use v_mac_kernel.Queue.{default_rate, queuethread}
use v_mac_kernel.Queue.Priority.{HasFrames}
use v_mac_kernel.Dack.{dack_frame}
use v_mac_kernel.Dack.Scan.{slot, scan_start, find_holes}
use v_mac_kernel.Dack.Holes.{total, Fenced}
use v_mac_kernel.Rx.{vmac_rx, ieee80211_rx_vmac}
use v_mac_kernel.Rx.Retransmit.{maxretx}
use v_mac_kernel.Rx.Dispatch.{holding}
use v_mac_kernel.Rx.Data.{fresh, Delivered}
use v_mac_kernel.Rx.Heard.{data_frame, heard-Delivered}
use v_mac_kernel.Rx.Sliding.{Represents}
use v_mac_kernel.Rx.Pending.{Grants}
use v_mac_kernel.Rx.Recovered.{HasCopy, Answers, lost_copied}
use v_mac_kernel.Main.Aired.{Copies-HasFrames, mqueue_aired}
use v_mac_kernel.Main.Carried.{Receiver}

-- A DACK for a round, from the window of the receiver's entry, and a frame `f` that it reports: fewer holes than a DACK can
-- hold, and no more frames in them than are copied for one.
pub record Loss (round f : ℕ) (r : EncodingRx) : Type 0 where
  pub fence : Fenced r.before_window r.window
  pub few : length (find_holes r.before_window r.window (u16 (round * 5))).0 < holes_max
  pub short : total (find_holes r.before_window r.window (u16 (round * 5))).0 ≤ maxretx
  pub low : scan_start (u16 (round * 5)) ≤ f
  pub high : f + 1 < u16 (round * 5)
  pub gone : slot r.window f ≡ 0

-- The sender, with nothing in `mqueue`: it can answer for the encoding at a DACK from the window `w`, all memory is granted, and the round of its queue,
-- under `a2`, finds slots.
pub record Holder (a a2 : Env) (content : ℕ → List ℕ) (enc round : ℕ) (w : List ℕ)
    (vmact : EncodingTx) (s : Kernel) : Type 0 where
  pub grants : Grants a
  pub answers : Answers content round (u16 (round * 5)) w vmact
  pub entry : find a.hash enc s.tx_enc ≡ some vmact
  pub no_mgmt : s.mqueue ≡ []
  pub data_frames : HasFrames s.uqueue
  pub slots : (i : ℕ) → a2.slot i ≡ true
  pub stack : length a2.stack ≡ 8

pub lost_fresh :
    (r : EncodingRx) (got : ℕ → Bool) (f : ℕ)
    → Represents r got
    → r.latest < f + window_size
    → slot r.window f ≡ 0
    → fresh r.latest f got ≡ true
lost_fresh r got f v near gone = elim (dec_le f r.latest) [
  | yes old ↦ let e = v.slots f old near in ground (arith, e, gone)
  | no new ↦ ground arith
]

-- A state in which a copy of frame `f` waits to be sent.
pub record Waits (content : ℕ → List ℕ) (f : ℕ) (s : Kernel) : Type 0 where
  pub mgmt_frames : HasFrames s.mqueue
  pub data_frames : HasFrames s.uqueue
  pub copy : HasCopy content f s.mqueue

-- A DACK at the sender queues a copy of a frame that it reports.
pub lost_queued :
    (a a2 : Env) (content : ℕ → List ℕ) (enc round f : ℕ) (fcs : List ℕ) (room dack : Skb)
    (vmact : EncodingTx) (r : EncodingRx) (s : Kernel)
    → round < 2 ^ 16
    → enc < 2 ^ 64
    → room.bytes ≡ []
    → Loss round f r
    → Holder a a2 content enc round r.window vmact s
    → (s' : Kernel) × (vmac_rx a
          (to (
            holding dack (
              (dack_frame enc round
                (find_holes r.before_window r.window (u16 (round * 5))).0
                room).bytes
              ++ fcs)))
          s
        ≡ ok s')
      × Waits content f s'
lost_queued a a2 content enc round f fcs room dack vmact r s hr he empty loss from =
    let (s1, e1, rec) =
      lost_copied a from.grants content enc round r.before_window r.window fcs vmact room dack s
        loss.fence loss.few loss.short from.answers hr he empty from.entry in
    let queue : s1.mqueue ≡ rec.copies = rec.mqueue ∙ rw from.no_mgmt refl in
    (
      s1,
      e1,
      record {
        mgmt_frames = rw queue (Copies-HasFrames content rec.numbers rec.copies rec.frames);
        data_frames = rw rec.uqueue from.data_frames;
        copy = rw queue (rec.all_lost f loss.low loss.high loss.gone);
      },
    )

-- A copy that waits goes on air and comes to a receiver.
pub copy_carried :
    (a2 b : Env) (content : ℕ → List ℕ) (enc f : ℕ) (payload fcs : List ℕ) (skb : Skb)
    (r : EncodingRx) (got : ℕ → Bool) (s t : Kernel)
    → enc < 2 ^ 64
    → f < 2 ^ 16
    → length fcs ≡ 4
    → content f ≡ data_frame enc f payload
    → ((i : ℕ) → a2.slot i ≡ true)
    → length a2.stack ≡ 8
    → Waits content f s
    → Receiver b enc f r got t
    → (s' : Kernel) × (x : Skb) × (t' : Kernel) × (queuethread a2 s ≡ ok s')
      × In x s'.aired
      × (ieee80211_rx_vmac b (holding skb (x.bytes ++ fcs)) t ≡ ok t')
      × Delivered b enc f skb payload r got t t'
copy_carried a2 b content enc f payload fcs skb r got s t he hf four what slots stack w at =
    let (s', x, e2, same, pid, there, bytes) =
      mqueue_aired a2 content f s slots w.mgmt_frames w.data_frames w.copy in
    let (t', e3, delivered) =
      heard-Delivered b skb enc f default_rate a2.stack payload fcs t r got at.room stack four
        at.registered at.granted at.awaits at.represents he hf at.near in
    (s', x, t', e2, there, rw (bytes, what) e3, delivered)

-- A frame that a receiver lost, and that its DACK reports to a sender that can answer for it, comes to the receiver's user
-- space: after the DACK and a round of the sender's queue a copy was aired that the receiver, when it gets it
-- with four bytes of a checksum behind it, takes for new and passes on, with its encoding and its number. The sender's
-- buffer holds the frame with its headers under this number, the memory that the sender asks for is granted, its `mqueue`
-- was empty, and the driver has slots; the frame is still in the receiver's window, and the receiver has an
-- entry, a registered user space and memory.
pub lost_carried :
    (a a2 b : Env) (content : ℕ → List ℕ) (enc round f : ℕ) (payload fcs fcs2 : List ℕ)
    (room dack skb : Skb) (vmact : EncodingTx) (r : EncodingRx) (got : ℕ → Bool) (s t : Kernel)
    → round < 2 ^ 16
    → enc < 2 ^ 64
    → room.bytes ≡ []
    → length fcs2 ≡ 4
    → content f
      ≡ hdr_bytes (record { enc = enc; type = hdr_data })
        ++ (data_bytes (record { seq = f }) ++ payload)
    → Loss round f r
    → Holder a a2 content enc round r.window vmact s
    → Receiver b enc f r got t
    → (s1 s2 : Kernel) × (x : Skb) × (t1 : Kernel) × (vmac_rx a
          (to (
            holding dack (
              (dack_frame enc round
                (find_holes r.before_window r.window (u16 (round * 5))).0
                room).bytes
              ++ fcs)))
          s
        ≡ ok s1)
      × (queuethread a2 s1 ≡ ok s2)
      × In x s2.aired
      × (ieee80211_rx_vmac b (holding skb (x.bytes ++ fcs2)) t ≡ ok t1)
      × (fresh r.latest f got ≡ true)
      × Delivered b enc f skb payload r got t t1
lost_carried a a2 b content enc round f payload fcs fcs2 room dack skb vmact r got s t hr he empty
      four what loss from at =
    let (s1, e1, w) =
      lost_queued a a2 content enc round f fcs room dack vmact r s hr he empty loss from in
    let (s2, x, t1, e2, there, e3, delivered) =
      copy_carried a2 b content enc f payload fcs2 skb r got s1 t he (omega (arith, loss.high)) four
        what from.slots from.stack w at in
    (
      s1,
      s2,
      x,
      t1,
      e1,
      e2,
      there,
      e3,
      lost_fresh r got f at.represents at.near loss.gone,
      delivered,
    )
