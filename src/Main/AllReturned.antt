-- ===== src/Main/AllReturned.antt =====
-- All lost frames at once: a receiver that hears every copy for its DACK passes each of them on.
use v_mac_kernel.Prelude.{
  ℕ, ◌+◌, ◌*◌, ◌^◌, ◌≤◌, ◌<◌, ◌≡◌, ◌≢◌, refl, sym, ap, ◌∙◌, List, [], ◌∷◌, ◌++◌, some, Bool, true,
  false, arith, length, take, drop, take-length, append_assoc, append_nil, All, All-both, All-map,
  In,
}
use v_mac_kernel.Words.{u16}
use v_mac_kernel.Skb.{Skb, to}
use v_mac_kernel.Structs.{EncodingRx, EncodingTx, VmacQueue, holes_max, window_size}
use v_mac_kernel.Table.{find}
use v_mac_kernel.Wire.{hdr_data}
use v_mac_kernel.Kernel.{Kernel, Env, Message, no_pid, Outcome, ok, ◌>>=◌}
use v_mac_kernel.LowTx.{spoofed_hdr}
use v_mac_kernel.Queue.{default_rate, rate_of, queuethread}
use v_mac_kernel.Queue.Priority.{served, asked, airs, queuethread_lem}
use v_mac_kernel.Dack.{dack_frame}
use v_mac_kernel.Dack.Scan.{slot, scan_start, find_holes}
use v_mac_kernel.Dack.Holes.{total, Fenced}
use v_mac_kernel.Rx.{vmac_rx, ieee80211_rx_vmac}
use v_mac_kernel.Rx.Retransmit.{maxretx}
use v_mac_kernel.Rx.Dispatch.{holding, message}
use v_mac_kernel.Rx.Sliding.{Represents, receives}
use v_mac_kernel.Rx.Data.{fresh}
use v_mac_kernel.Rx.Heard.{data_frame, heard-Delivered}
use v_mac_kernel.Rx.Pending.{Grants, Copies, Distinct}
use v_mac_kernel.Rx.Recovered.{IsLost, lost_copied}
use v_mac_kernel.Main.Aired.{Copies-HasFrames, served-all}
use v_mac_kernel.Main.Redelivered.{Holder}

-- The driver gets the frames one after the other, each with a checksum behind.
abbrev pub hear_all : Env → Skb → List ℕ → List Skb → Kernel → Outcome Kernel
hear_all b skb fcs [] t = ok t
hear_all b skb fcs (x ∷ xs) t =
    ieee80211_rx_vmac b (holding skb (x.bytes ++ fcs)) t >>= hear_all b skb fcs xs

-- The messages for frames of the encoding.
abbrev pub messages : Env → Kernel → ℕ → (ℕ → List ℕ) → List ℕ → List Message
messages b t enc payload [] = []
messages b t enc payload (i ∷ is) =
    message b t enc hdr_data i (payload i) ∷ messages b t enc payload is

-- The frames on air are those of the numbers, in their order.
abbrev OnAirs : (ℕ → List ℕ) → List ℕ → List ℕ → List Skb → Type 0
OnAirs content stack [] [] = Unit
OnAirs content stack [] (x ∷ xs) = ⊥
OnAirs content stack (i ∷ is) [] = ⊥
OnAirs content stack (i ∷ is) (x ∷ xs) =
    (x.bytes ≡ spoofed_hdr default_rate stack ++ content i) × OnAirs content stack is xs

copies_aired :
    (env : Env) (content : ℕ → List ℕ) (is : List ℕ) (q : List VmacQueue)
    → Copies content is q
    → OnAirs content env.stack is (airs env (λ _. default_rate) q)
copies_aired env content [] [] c = tt
copies_aired env content [] (e ∷ q) c = absurd c
copies_aired env content (i ∷ is) [] c = absurd c
copies_aired env content (i ∷ is) (e ∷ q) ((skb, there, bytes), rate, c) =
    rw there
      (ap (λ b. spoofed_hdr default_rate env.stack ++ b) bytes, copies_aired env content is q c)

-- A frame that an entry has lost and still has in its window.
abbrev Missing : EncodingRx → (ℕ → Bool) → ℕ → Type 0
Missing r got i = (got i ≡ false) × (i ≤ r.latest) × (r.latest < i + window_size) × (i < 2 ^ 16)

messages-pidt :
    (b : Env) (s t : Kernel) (enc : ℕ) (payload : ℕ → List ℕ) (is : List ℕ)
    → t.pidt ≡ s.pidt
    → messages b t enc payload is ≡ messages b s enc payload is
messages-pidt b s t enc payload [] e = refl
messages-pidt b s t enc payload (i ∷ is) e = rw (e, messages-pidt b s t enc payload is e) refl

module _ (b : Env) (grants : Grants b) (skb : Skb) (enc : ℕ) (payload : ℕ → List ℕ)
    (stack fcs : List ℕ) (eight : length stack ≡ 8) (four : length fcs ≡ 4)
    (he : enc < 2 ^ 64) where
  all_heard :
      (is : List ℕ) (xs : List Skb) (t : Kernel) (r : EncodingRx) (got : ℕ → Bool)
      → OnAirs (λ i. data_frame enc i (payload i)) stack is xs
      → All (Missing r got) is
      → Distinct is
      → find b.hash enc t.rx_enc ≡ some r
      → Represents r got
      → t.pidt ≢ no_pid
      → (t' : Kernel) × (hear_all b skb fcs xs t ≡ ok t')
        × (t'.sent ≡ t.sent ++ messages b t enc payload is)
  all_heard [] [] t r got o m d known v pid = (t, refl, sym (append_nil t.sent))
  all_heard [] (x ∷ xs) t r got o m d known v pid = absurd o
  all_heard (i ∷ is) [] t r got o m d known v pid = absurd o
  all_heard (i ∷ is) (x ∷ xs) t r got (bytes, o) ((lost, low, near, short), m) (apart, d) known v
        pid =
      let (room, free) = grants.skb t.skbs in
      let (t1, e1, dl) =
        heard-Delivered b skb enc i default_rate stack (payload i) fcs t r got room eight four pid
          free known v he short near in
      let new : fresh r.latest i got ≡ true = ground arith in
      let same : dl.entry.latest ≡ r.latest = ground (arith, dl.newest) in
      let rep : Represents dl.entry (receives r.latest i got) = rw new at dl.represents in
      let (t2, e2, sent) =
        all_heard is xs t1 dl.entry (receives r.latest i got) o
          (All-map is (All-both (λ j. i ≢ j) (Missing r got) is apart m)
            (λ j (ne, (l, lo, ne2, sh)).
              (ground (arith, l, ne), omega (arith, same, lo), omega (arith, same, ne2), sh)))
          d dl.found rep (rw dl.pidt pid) in
      (
        t2,
        rw (bytes, e1) e2,
        rw (sent, dl.sent, new, messages-pidt b t t1 enc payload is dl.pidt)
            (append_assoc t.sent (message b t enc hdr_data i (payload i) ∷ [])
              (messages b t enc payload is)),
      )

-- The DACK of a round whose lost frames are still in the receiver's window, none of its frames after the newest: it has room
-- for all holes, no more frames are lost than are copied for one, and the word before the window or its slot 0 is not zero.
pub record Losses (round : ℕ) (r : EncodingRx) : Type 0 where
  pub fence : Fenced r.before_window r.window
  pub few : length (find_holes r.before_window r.window (u16 (round * 5))).0 < holes_max
  pub short : total (find_holes r.before_window r.window (u16 (round * 5))).0 ≤ maxretx
  pub ended : u16 (round * 5) ≤ r.latest + 1
  pub near : (i : ℕ) → IsLost r.window (u16 (round * 5)) i → r.latest < i + window_size

lost-Missing :
    (r : EncodingRx) (got : ℕ → Bool) (i lattmp : ℕ)
    → Represents r got
    → lattmp < 2 ^ 16
    → lattmp ≤ r.latest + 1
    → r.latest < i + window_size
    → IsLost r.window lattmp i
    → Missing r got i
lost-Missing r got i lattmp v short ended near lost =
    let e = v.slots i (omega (arith, lost.high, ended)) near in
    (
      ground (arith, e, lost.gone),
      omega (arith, lost.high, ended),
      near,
      omega (arith, lost.high, short),
    )

-- All of the lost frames that the DACK of a round reports come back at once. The receiver's DACK at the sender and a round
-- of the sender's queue put frames on air, and when the receiver's driver gets these in their order, each with
-- four bytes of a checksum behind it, all without a fault, what its user space gets is a list of frames of the
-- encoding with their bytes and numbers, no number twice, all of them lost, and every lost frame of the
-- scanned window but the last of the round among them. The conditions: the round has 16 bits and the encoding 64. The word
-- before the receiver's window in memory is not zero, or slot 0 of the window is taken; the
-- DACK has fewer than 40 holes, with at most 20 frames in them; the round has no frame after the receiver's newest,
-- and each lost frame is still in its window. The sender has an entry for the encoding, has sent all frames of the round,
-- and keeps its last WINDOW_TX frames with their headers under their numbers; each lost frame is one of these, is
-- not paced, and is not number WINDOW_TX. Its `mqueue` was empty, its `uqueue` holds frames, and its driver has slots and
-- eight bytes of stack. The receiver has an entry that keeps the set of what it got and a registered user space, and both
-- nodes get all memory.
pub all_returned :
    (a a2 b : Env) (enc round : ℕ) (payload : ℕ → List ℕ) (fcs fcs2 : List ℕ) (room dack skb : Skb)
    (vmact : EncodingTx) (r : EncodingRx) (got : ℕ → Bool) (s t : Kernel)
    → round < 2 ^ 16
    → enc < 2 ^ 64
    → room.bytes ≡ []
    → length fcs2 ≡ 4
    → Losses round r
    → Holder a a2 (λ i. data_frame enc i (payload i)) enc round r.window vmact s
    → find b.hash enc t.rx_enc ≡ some r
    → Represents r got
    → t.pidt ≢ no_pid
    → Grants b
    → (s1 s2 t' : Kernel) × (xs ys : List Skb) × (is : List ℕ) × (vmac_rx a
          (to (
            holding dack (
              (dack_frame enc round
                (find_holes r.before_window r.window (u16 (round * 5))).0
                room).bytes
              ++ fcs)))
          s
        ≡ ok s1)
      × (queuethread a2 s1 ≡ ok s2)
      × (s2.aired ≡ (s.aired ++ xs) ++ ys)
      × (hear_all b skb fcs2 xs t ≡ ok t')
      × (t'.sent ≡ t.sent ++ messages b t enc payload is)
      × Distinct is
      × All (λ i. slot r.window i ≡ 0) is
      × ((f : ℕ)
          → scan_start (u16 (round * 5)) ≤ f
          → f + 1 < u16 (round * 5)
          → slot r.window f ≡ 0
          → In f is)
all_returned a a2 b enc round payload fcs fcs2 room dack skb vmact r got s t hr he empty four loss
      from known v pid grants =
    let content = λ (i : ℕ). data_frame enc i (payload i) in
    let lattmp = u16 (round * 5) in
    let (s1, e1, rec) =
      lost_copied a from.grants content enc round r.before_window r.window fcs vmact room dack s
        loss.fence loss.few loss.short from.answers hr he empty from.entry in
    let queue : s1.mqueue ≡ rec.copies = rec.mqueue ∙ rw from.no_mgmt refl in
    let k = served a2.slot 0 (length s1.mqueue) in
    let n = served a2.slot (asked a2.slot 0 (length s1.mqueue)) (length s1.uqueue) in
    let xs = airs a2 (λ _. default_rate) (take k s1.mqueue) in
    let ys = airs a2 rate_of (take n s1.uqueue) in
    let all : take k s1.mqueue ≡ rec.copies =
      rw (served-all a2.slot 0 (length s1.mqueue) from.slots) (take-length s1.mqueue ∙ queue) in
    let on_air : OnAirs content a2.stack rec.numbers xs =
      rw all (copies_aired a2 content rec.numbers rec.copies rec.frames) in
    let missing =
      All-map rec.numbers
        (All-both (λ i. slot r.window i ≡ 0) (λ i. (scan_start lattmp ≤ i) × (i + 1 < lattmp))
          rec.numbers rec.lost_only rec.within)
        (λ i (gone, place).
          let lost : IsLost r.window lattmp i = record {
            low = place.0;
            high = place.1;
            gone = gone;
          } in
          lost-Missing r got i lattmp v (omega arith) loss.ended (loss.near i lost) lost) in
    let (t', e3, sent) =
      all_heard b grants skb enc payload a2.stack fcs2 from.stack four he rec.numbers xs t r got
        on_air missing rec.distinct known v pid in
    (
      s1,
      record s1 {
        aired = (s1.aired ++ xs) ++ ys;
        mqueue = drop k s1.mqueue;
        uqueue = drop n s1.uqueue;
      },
      t',
      xs,
      ys,
      rec.numbers,
      e1,
      queuethread_lem a2 s1 (rw queue (Copies-HasFrames content rec.numbers rec.copies rec.frames))
          (rw rec.uqueue from.data_frames),
      ap (λ a. (a ++ xs) ++ ys) rec.aired,
      e3,
      sent,
      rec.distinct,
      rec.lost_only,
      rec.complete,
    )
