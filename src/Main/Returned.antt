-- ===== src/Main/Returned.antt =====
-- The whole way of a lost frame: the receiver makes a DACK, its timer queues it and it goes on air, the
-- sender's driver takes it and `rqueuethread` answers it, and a copy of the frame comes back.
use v_mac_kernel.Prelude.{
  ℕ, ◌+◌, ◌*◌, ◌^◌, ◌<◌, ◌≡◌, ◌≢◌, refl, sym, ◌∙◌, inl, some, List, [], ◌∷◌, ◌++◌, Bool, true,
  arith, length, drop, In, append_assoc,
}
use mathlib.Core.Path.{subst}
use v_mac_kernel.Words.{u16}
use v_mac_kernel.Skb.{Skb, to}
use v_mac_kernel.Structs.{EncodingRx, EncodingTx, VmacQueue, window_size}
use v_mac_kernel.Table.{find}
use v_mac_kernel.Wire.{VmacHdr, VmacDack, hdr_dack, hdr_bytes, dack_bytes}
use v_mac_kernel.Kernel.{Kernel, Env, no_pid, ok}
use v_mac_kernel.LowTx.{spoofed_hdr}
use v_mac_kernel.Queue.{default_rate, queuethread, rqueuethread, add_mgmt}
use v_mac_kernel.Queue.Priority.{HasFrames}
use v_mac_kernel.Queue.Append.{HasFrames-append}
use v_mac_kernel.Dack.{dack_frame, holes_bytes, prep_dack, send_dack}
use v_mac_kernel.Dack.Scan.{find_holes}
use v_mac_kernel.Dack.Delay.{Holds}
use v_mac_kernel.Dack.Undisturbed.{IsTame, Tame, Like-refl}
use v_mac_kernel.Dack.Timer.{new_buffer, prep_dack-Holds, send_dack-Queued}
use v_mac_kernel.Rx.{vmac_rx, ieee80211_rx_vmac}
use v_mac_kernel.Rx.Dispatch.{holding, at_driver}
use v_mac_kernel.Rx.Data.{fresh, Delivered}
use v_mac_kernel.Rx.Heard.{data_frame, Like-Represents}
use v_mac_kernel.Rx.Sliding.{Represents}
use v_mac_kernel.Rx.Pending.{Grants}
use v_mac_kernel.Rx.Recovered.{HasCopy-right}
use v_mac_kernel.Main.Aired.{mqueue_aired}
use v_mac_kernel.Main.Carried.{Receiver}
use v_mac_kernel.Main.Redelivered.{Loss, Holder, Waits, lost_fresh, lost_queued, copy_carried}

-- The bytes of the DACK of a round, from the window of the entry.
abbrev pub report_of : ℕ → ℕ → EncodingRx → ℕ × List ℕ → List ℕ
report_of enc round r room =
    (dack_frame enc round (find_holes r.before_window r.window (u16 (round * 5))).0
      (new_buffer room)).bytes

-- The receiver: its entry keeps the set `got`, with no wild DACK to send; the lock is free when the DACK is made (under
-- `b`) and when its timer fires (under `b2`), both find memory, the round of its queue (under `b3`) finds slots,
-- and user space has registered and gets memory when the copy comes (under `c`).
pub record Asker (b b2 b3 c : Env) (enc f : ℕ) (r : EncodingRx) (got : ℕ → Bool) (t : Kernel)
    : Type 0 where
  pub awaits : find b.hash enc t.rx_enc ≡ some r
  pub represents : Represents r got
  pub near : r.latest < f + window_size
  pub tame : Tame r
  pub free : b.trylock ≡ true
  pub room : ℕ × List ℕ
  pub granted : b.new_skb t.skbs ≡ some room
  pub hash2 : b2.hash ≡ b.hash
  pub free2 : b2.trylock ≡ true
  pub item : VmacQueue
  pub entry : b2.kmalloc t.kmallocs ≡ some item
  pub mgmt_frames : HasFrames t.mqueue
  pub data_frames : HasFrames t.uqueue
  pub slots : (i : ℕ) → b3.slot i ≡ true
  pub stack : length b3.stack ≡ 8
  pub registered : t.pidt ≢ no_pid
  pub hash4 : c.hash ≡ b.hash
  pub grants : Grants c

rehashed :
    (b c : Env) (enc : ℕ) (r : EncodingRx) (s : Kernel)
    → c.hash ≡ b.hash
    → find b.hash enc s.rx_enc ≡ some r
    → find c.hash enc s.rx_enc ≡ some r
rehashed b c enc r s same e = subst (λ h. find h enc s.rx_enc ≡ some r) (sym same) e

-- The receiver's DACK goes on air, and the receiver still awaits the frame.
asked :
    (b b2 b3 c : Env) (enc round f : ℕ) (r : EncodingRx) (got : ℕ → Bool) (t : Kernel)
    (at : Asker b b2 b3 c enc f r got t)
    → (t1 t2 t3 : Kernel) × (x : Skb) × (r' : EncodingRx) × (prep_dack b enc round t ≡ ok t1)
      × (send_dack b2 enc t1 ≡ ok t2)
      × (queuethread b3 t2 ≡ ok t3)
      × In x t3.aired
      × (x.bytes ≡ spoofed_hdr default_rate b3.stack ++ report_of enc round r at.room)
      × (r'.latest ≡ r.latest)
      × Receiver c enc f r' got t3
asked b b2 b3 c enc round f r got t at =
    let bytes = report_of enc round r at.room in
    let frame =
      dack_frame enc round (find_holes r.before_window r.window (u16 (round * 5))).0
        (new_buffer at.room) in
    let (t1, e1, h, d) =
      prep_dack-Holds b enc round r at.room t at.awaits at.tame at.free at.granted in
    let (r1, known, tame, like) = d.finds enc r (r, at.awaits, at.tame, Like-refl r) in
    let h2 : Holds b2 enc frame t1 = record {
      entry = h.entry;
      found = rehashed b b2 enc h.entry t1 at.hash2 h.found;
      armed = h.armed;
      stored = h.stored;
    } in
    let (t2, e2, queued, calm, (r', known2, tame2, like2)) =
      send_dack-Queued b2 enc IsTame frame r t1 h2
        (r1, rehashed b b2 enc r1 t1 at.hash2 known, tame, like) at.free2 in
    let item = record (at.item) { frame = to frame; rate = 1 } in
    let line : t2.mqueue ≡ t.mqueue ++ item ∷ [] =
      queued ∙ rw (d.kmallocs, at.entry, d.mqueue) refl in
    let (t3, x, e3, same, pid, there, aired) =
      mqueue_aired b3 (λ i. bytes) 0 t2 at.slots
        (rw line (HasFrames-append t.mqueue item frame at.mgmt_frames refl))
        (rw (calm.uqueue, d.calm.uqueue) at.data_frames)
        (rw line (HasCopy-right (λ i. bytes) 0 t.mqueue (item ∷ []) (inl (frame, refl, refl)))) in
    (
      t1,
      t2,
      t3,
      x,
      r',
      e1,
      e2,
      e3,
      there,
      aired,
      like2.latest,
      record {
        awaits = rw same (rehashed b2 c enc r' t2 (at.hash4 ∙ sym at.hash2) known2);
        represents = Like-Represents r r' got like2 at.represents;
        near = rw like2.latest at.near;
        registered = rw (pid, calm.pidt, d.calm.pidt) at.registered;
        room = (at.grants.skb t3.skbs).0;
        granted = (at.grants.skb t3.skbs).1;
      },
    )

-- The sender: it can answer, and finds memory to let the DACK wait, before which no DACK waits.
pub record Answerer (a0 a a2 : Env) (content : ℕ → List ℕ) (enc round : ℕ) (w : List ℕ)
    (vmact : EncodingTx) (s : Kernel) : Type 0 where
  pub holder : Holder a a2 content enc round w vmact s
  pub rx_upper : s.rx_upper ≡ []
  pub item : VmacQueue
  pub entry : a0.kmalloc s.kmallocs ≡ some item

Holder-later :
    (a a2 : Env) (content : ℕ → List ℕ) (enc round : ℕ) (w : List ℕ) (vmact : EncodingTx)
    (s s' : Kernel)
    → s'.tx_enc ≡ s.tx_enc
    → s'.mqueue ≡ s.mqueue
    → s'.uqueue ≡ s.uqueue
    → Holder a a2 content enc round w vmact s
    → Holder a a2 content enc round w vmact s'
Holder-later a a2 content enc round w vmact s s' t m u v = record {
  grants = v.grants;
  answers = v.answers;
  entry = rw t v.entry;
  no_mgmt = m ∙ v.no_mgmt;
  data_frames = rw u v.data_frames;
  slots = v.slots;
  stack = v.stack;
}

-- A DACK that comes to the sender's driver waits, and the next round of `rqueuethread` queues a copy.
answered :
    (a0 a a2 : Env) (content : ℕ → List ℕ) (enc round f rate : ℕ) (stack fcs : List ℕ) (dack : Skb)
    (room : ℕ × List ℕ) (vmact : EncodingTx) (r : EncodingRx) (s : Kernel)
    → round < 2 ^ 16
    → enc < 2 ^ 64
    → length stack ≡ 8
    → Loss round f r
    → Answerer a0 a a2 content enc round r.window vmact s
    → (s1 s2 : Kernel) × (ieee80211_rx_vmac a0
          (holding dack ((spoofed_hdr rate stack ++ report_of enc round r room) ++ fcs))
          s
        ≡ ok s1)
      × (rqueuethread (vmac_rx a) s1.rx_upper s1 ≡ ok s2)
      × Waits content f s2
unfolding dack_frame rqueuethread add_mgmt
answered a0 a a2 content enc round f rate stack fcs dack room vmact r s hr he eight loss from =
    let hs = (find_holes r.before_window r.window (u16 (round * 5))).0 in
    let h : VmacHdr = record { enc = enc; type = hdr_dack } in
    let d : VmacDack = record { holes = length hs; round = round } in
    let body = dack_bytes d ++ holes_bytes hs in
    let frame = holding dack ((hdr_bytes h ++ body) ++ fcs) in
    let item = record (from.item) { frame = to frame } in
    let s1 = record s { kmallocs = s.kmallocs + 1; rx_upper = item ∷ [] } in
    let as1 = append_assoc (spoofed_hdr rate stack) (hdr_bytes h ++ body) fcs in
    let as2 = append_assoc (hdr_bytes h) body fcs in
    let driver = at_driver a0 dack rate stack h body fcs s eight he (omega arith) in
    let (s2, e2, w) =
      lost_queued a a2 content enc round f fcs (new_buffer room) dack vmact r s1 hr he refl loss
        (Holder-later a a2 content enc round r.window vmact s s1 refl refl refl from.holder) in
    (
      s1,
      record s2 { rx_upper = drop 1 s2.rx_upper },
      rw (as1, as2) (driver ∙ rw (from.entry, from.rx_upper, add_mgmt) refl),
      rw e2 refl,
      record { mgmt_frames = w.mgmt_frames; data_frames = w.data_frames; copy = w.copy },
    )

-- A frame that a receiver lost, and that its DACK can report, comes back. The receiver makes the DACK of the round, its
-- timer fires, and a round of its queue puts the DACK on air; when the sender's driver gets this, with a
-- checksum behind it, it waits for the sender's `rqueuethread`, after which a round of the sender's queue puts a copy of
-- the frame on air; and when the receiver's driver gets this one, with four bytes of a checksum behind it, its payload goes to
-- user space, new, with its encoding and its number. All of these steps run without a fault. The conditions: the round has
-- 16 bits and the encoding 64. The word before the receiver's window in memory is not zero, or slot 0 of the window is
-- taken; the DACK has fewer than 40 holes, with at most 20 frames in them, and the frame is lost, in the scanned window
-- and before the last of the round; it is fewer than WINDOW numbers behind the newest. The receiver has an entry that keeps
-- the set of what it got and no wild DACK, and a registered user space. The sender has an entry for the encoding, has sent
-- all frames of the round, and keeps its last WINDOW_TX frames under their numbers, the frame with its headers; each
-- frame that the DACK reports is one of these, is not paced, and is not number WINDOW_TX; its `mqueue` was empty and no
-- DACK waited. The locks are free, a node's hash function is the same in all calls, the other queues hold frames, both
-- nodes get memory, slots, and eight bytes of stack.
pub lost_returned :
    (b b2 b3 c a0 a a2 : Env) (content : ℕ → List ℕ) (enc round f : ℕ) (payload fcs fcs2 : List ℕ)
    (dack skb : Skb) (vmact : EncodingTx) (r : EncodingRx) (got : ℕ → Bool) (s t : Kernel)
    → round < 2 ^ 16
    → enc < 2 ^ 64
    → length fcs2 ≡ 4
    → content f ≡ data_frame enc f payload
    → Loss round f r
    → Asker b b2 b3 c enc f r got t
    → Answerer a0 a a2 content enc round r.window vmact s
    → (t1 t2 t3 t4 s1 s2 s3 : Kernel) × (x y : Skb) × (r' : EncodingRx) × (prep_dack b enc round t
        ≡ ok t1)
      × (send_dack b2 enc t1 ≡ ok t2)
      × (queuethread b3 t2 ≡ ok t3)
      × In x t3.aired
      × (ieee80211_rx_vmac a0 (holding dack (x.bytes ++ fcs)) s ≡ ok s1)
      × (rqueuethread (vmac_rx a) s1.rx_upper s1 ≡ ok s2)
      × (queuethread a2 s2 ≡ ok s3)
      × In y s3.aired
      × (ieee80211_rx_vmac c (holding skb (y.bytes ++ fcs2)) t3 ≡ ok t4)
      × (fresh r'.latest f got ≡ true)
      × Delivered c enc f skb payload r' got t3 t4
lost_returned b b2 b3 c a0 a a2 content enc round f payload fcs fcs2 dack skb vmact r got s t hr he
      four what loss at from =
    let (t1, t2, t3, x, r', e1, e2, e3, aired, bytes, newest, ready) =
      asked b b2 b3 c enc round f r got t at in
    let (s1, s2, e4, e5, waits) =
      answered a0 a a2 content enc round f default_rate b3.stack fcs dack at.room vmact r s hr he
        at.stack loss from in
    let (s3, y, t4, e6, aired2, e7, delivered) =
      copy_carried a2 c content enc f payload fcs2 skb r' got s2 t3 he (omega (arith, loss.high))
        four what from.holder.slots from.holder.stack waits ready in
    (
      t1,
      t2,
      t3,
      t4,
      s1,
      s2,
      s3,
      x,
      y,
      r',
      e1,
      e2,
      e3,
      aired,
      rw bytes e4,
      e5,
      e6,
      aired2,
      e7,
      rw newest (lost_fresh r got f at.represents at.near loss.gone),
      delivered,
    )
