-- ===== src/Main/Carried.antt =====
-- From user space of one node to user space of another: `nl_recv`, `vmac_tx` and `queuethread` at the sender,
-- `ieee80211_rx_vmac` at the receiver.
use v_mac_kernel.Prelude.{
  append_nil, take, drop, ℕ, ◌+◌, ◌^◌, ◌<◌, ◌≡◌, ◌≢◌, refl, ap, ◌∙◌, List, [], ◌∷◌, ◌++◌, some,
  Bool, true, length,
}
use v_mac_kernel.Skb.{Skb, to}
use v_mac_kernel.Structs.{EncodingRx, EncodingTx, VmacQueue, window_size}
use v_mac_kernel.Table.{find}
use v_mac_kernel.Wire.{hdr_data}
use v_mac_kernel.Kernel.{Kernel, Env, no_pid, ok}
use v_mac_kernel.LowTx.{spoofed_hdr, on_air}
use v_mac_kernel.Queue.{queuethread, rate_of, default_rate}
use v_mac_kernel.Queue.Priority.{HasFrames, served, asked, airs, queuethread_lem}
use v_mac_kernel.Tx.{framed, flagged}
use v_mac_kernel.Tx.Steps.{Ready}
use v_mac_kernel.Tx.Copies.{vmac_tx-Sent}
use v_mac_kernel.Rx.{ieee80211_rx_vmac}
use v_mac_kernel.Rx.Sliding.{Represents}
use v_mac_kernel.Rx.Dispatch.{holding}
use v_mac_kernel.Rx.Data.{Delivered}
use v_mac_kernel.Rx.Heard.{heard-Delivered}
use v_mac_kernel.Main.{is_frame, nl_recv}
use v_mac_kernel.Main.Receive.{Request, user_message, Fits, buffer, nl_recv_lem}

-- A round of `queuethread` over a single frame.
airs_one :
    (env : Env) (s : Kernel) (item : VmacQueue) (frame : Skb)
    → s.mqueue ≡ []
    → s.uqueue ≡ item ∷ []
    → item.frame ≡ to frame
    → env.slot 0 ≡ true
    → (s' : Kernel) × (queuethread env s ≡ ok s')
      × (s'.aired ≡ s.aired ++ on_air env (rate_of item) item.frame)
airs_one env s item frame none_m one_u e slot =
    let m : HasFrames s.mqueue = rw none_m tt in
    let u : HasFrames s.uqueue = rw one_u ((frame, e), tt) in
    let k = served env.slot 0 (length s.mqueue) in
    let n = served env.slot (asked env.slot 0 (length s.mqueue)) (length s.uqueue) in
    (
      record s {
        aired =
            (s.aired ++ airs env (λ _. default_rate) (take k s.mqueue))
            ++ airs env rate_of (take n s.uqueue);
        mqueue = drop k s.mqueue;
        uqueue = drop n s.uqueue;
      },
      queuethread_lem env s m u,
      rw (none_m, one_u, slot)
          (ap (λ a. a ++ (on_air env (rate_of item) item.frame ++ [])) (append_nil s.aired)
            ∙ ap (λ x. s.aired ++ x) (append_nil (on_air env (rate_of item) item.frame))),
    )

-- Both ends of a data frame's way. The sender `a`, at rest, has an entry for the encoding or room for one, and
-- memory; the round of its queue is run under `a2`.
pub record Sender (a a2 : Env) (enc : ℕ) (vmact : EncodingTx) (s : Kernel) : Type 0 where
  pub ready : Ready a enc s vmact
  pub number : vmact.seq < 2 ^ 16
  pub room : ℕ × List ℕ
  pub granted : a.new_skb s.skbs ≡ some room
  pub copy : ℕ × List ℕ
  pub copied : a.new_skb (s.skbs + 1) ≡ some copy
  pub item : VmacQueue
  pub queued : a.kmalloc s.kmallocs ≡ some item
  pub no_data : s.uqueue ≡ []
  pub no_mgmt : s.mqueue ≡ []
  pub slot : a2.slot 0 ≡ true
  pub stack : length a2.stack ≡ 8

-- The receiver awaits the encoding at an entry that keeps the set `got`, user space has registered, and its
-- message can be allocated.
pub record Receiver (b : Env) (enc seq : ℕ) (r : EncodingRx) (got : ℕ → Bool) (s : Kernel)
    : Type 0 where
  pub awaits : find b.hash enc s.rx_enc ≡ some r
  pub represents : Represents r got
  pub near : r.latest < seq + window_size
  pub registered : s.pidt ≢ no_pid
  pub room : ℕ × List ℕ
  pub granted : b.new_skb s.skbs ≡ some room

-- What user space of one node sends as data comes to user space of another: after `nl_recv` and a round
-- of `queuethread` at a sender at rest, one frame more was aired, and a receiver that gets it with four bytes
-- of a checksum behind it passes its payload on, with its encoding and the number that the sender gave
-- it, exactly if this number is new to it. The conditions: rate, encoding and number of the request fit into their
-- fields, and the payload has fewer than 2^31 bytes. The sender has an entry for the encoding with its copies, of a
-- number of 16 bits, or none yet and `vmalloc` grants one; it gets memory for the frame, its copy and the entry of
-- the queue, both of its queues were empty, and its driver has a slot and eight bytes of stack. The receiver has an
-- entry that keeps the set of what it got, the number is fewer than WINDOW behind its newest, its user
-- space has registered, and it gets memory for the message.
pub data_carried :
    (a a2 b : Env) (pid : ℕ) (q : Request) (payload rest fcs : List ℕ) (skb : Skb)
    (vmact : EncodingTx) (r : EncodingRx) (got : ℕ → Bool) (s t : Kernel)
    → q.type ≡ hdr_data
    → Fits q
    → length payload < 2 ^ 31
    → length fcs ≡ 4
    → Sender a a2 q.enc vmact s
    → Receiver b q.enc vmact.seq r got t
    → (s1 s2 : Kernel) × (x : Skb) × (t1 : Kernel) × (nl_recv a (user_message pid q payload rest) s
        ≡ ok s1)
      × (queuethread a2 s1 ≡ ok s2)
      × (s2.aired ≡ s.aired ++ x ∷ [])
      × (ieee80211_rx_vmac b (holding skb (x.bytes ++ fcs)) t ≡ ok t1)
      × Delivered b q.enc vmact.seq skb payload r got t t1
data_carried a a2 b pid q payload rest fcs skb vmact r got s t ty fits short four from at =
    let entered = record s { pidt = pid; skbs = s.skbs + 1 } in
    let body = buffer from.room payload in
    let (s1, e1, sent) =
      vmac_tx-Sent a body q.enc q.rate q.seq entered vmact from.copy from.ready from.copied in
    let frame = flagged (framed q.enc vmact.seq body) in
    let item : VmacQueue = record (from.item) { frame = to frame; rate = q.rate; seq = 0 } in
    let one : s1.uqueue ≡ item ∷ [] = sent.queued ∙ rw (from.queued, from.no_data) refl in
    let (s2, e2, air) = airs_one a2 s1 item frame (sent.mqueue ∙ from.no_mgmt) one refl from.slot in
    let (t1, e3, delivered) =
      heard-Delivered b skb q.enc vmact.seq (rate_of item) a2.stack payload fcs t r got at.room
        from.stack four at.registered at.granted at.awaits at.represents fits.enc from.number
        at.near in
    let frame_type : is_frame q.type ≡ true = rw ty refl in
    let recv = nl_recv_lem a pid q payload rest s from.room fits frame_type short from.granted in
    let x : Skb = record frame {
      bytes = spoofed_hdr (rate_of item) a2.stack ++ frame.bytes;
      flags = [];
      priority = 261;
    } in
    (s1, s2, x, t1, recv ∙ rw ty e1, e2, air ∙ rw sent.aired refl, e3, delivered)
