-- ===== src/Tx/Copies.antt =====
-- The sender's side of the retransmission: each data frame gets the next number, and its copy is kept.
use v_mac_kernel.Prelude.{
  ℕ, ◌+◌, ◌%◌, ◌≡◌, refl, ◌∙◌, List, some, arith, get_or, get_or-set_at, set,
}
use v_mac_kernel.Words.{u16}
use v_mac_kernel.Skb.{Skb, null, to}
use v_mac_kernel.Structs.{EncodingTx, window_tx}
use v_mac_kernel.Table.{find}
use v_mac_kernel.Table.Lookup.{find-update}
use v_mac_kernel.Wire.{hdr_data}
use v_mac_kernel.Kernel.{Kernel, Env, ok}
use v_mac_kernel.Queue.{enq_uqueue}
use v_mac_kernel.Rx.Serving.{HasCopies}
use v_mac_kernel.Tx.{framed, number_frame, flagged, tx_end, vmac_tx}
use v_mac_kernel.Tx.Steps.{
  number_frame-HasCopies, Ready, make_tx-Made, queued_data, enq_uqueue-aside, enq_uqueue-tx_enc,
  enq_uqueue-uqueue, copy_of, tx_data-granted,
}

-- The state after a data frame: the entry has the next number, the frame's copy and no pacing for it,
-- and the frame is the newest of `uqueue` if its entry there could be allocated.
pub record Sent (env : Env) (enc rate : ℕ) (vmact : EncodingTx) (skb : Skb) (s s' : Kernel)
    : Type 0 where
  pub entry : EncodingTx
  pub found : find env.hash enc s'.tx_enc ≡ some entry
  pub numbered : entry.seq ≡ u16 (vmact.seq + 1)
  pub copies : HasCopies entry entry.seq
  pub copy : Skb
  pub kept : get_or entry.retransmission_buffer (vmact.seq % window_tx) null ≡ to copy
  pub same : copy.bytes ≡ (framed enc vmact.seq skb).bytes
  pub buffer :
      entry.retransmission_buffer
      ≡ set vmact.retransmission_buffer (vmact.seq % window_tx) (to copy)
  pub timer : entry.timer ≡ set vmact.timer (vmact.seq % window_tx) 0
  pub unpaced : get_or entry.timer (vmact.seq % window_tx) 0 ≡ 0
  pub queued :
      s'.uqueue
      ≡ queued_data (env.kmalloc s.kmallocs) (to (flagged (framed enc vmact.seq skb))) rate s.uqueue
  pub mqueue : s'.mqueue ≡ s.mqueue
  pub rx_upper : s'.rx_upper ≡ s.rx_upper
  pub aired : s'.aired ≡ s.aired

-- A data frame of an encoding whose entry holds the copies of its last frames, or that is sent for the
-- first time while `vmalloc` grants an entry: if the frame can be copied, then `vmac_tx` runs without a
-- fault, the entry counts on by one, and then it holds the copies of its last frames again, this
-- frame's among them, with nothing that holds its retransmission back. The frame with its headers is
-- queued if `kmalloc` grants an entry for `uqueue`, which else stays as it was; nothing else is queued or aired.
pub vmac_tx-Sent :
    (env : Env) (skb : Skb) (enc rate seqtmp : ℕ) (s : Kernel) (vmact : EncodingTx)
    (room : ℕ × List ℕ)
    → Ready env enc s vmact
    → env.new_skb s.skbs ≡ some room
    → (s' : Kernel) × (vmac_tx env skb enc hdr_data rate seqtmp s ≡ ok s')
      × Sent env enc rate vmact skb s s'
unfolding vmac_tx tx_end number_frame
vmac_tx-Sent env skb enc rate seqtmp s vmact room ready free =
    let m = make_tx-Made env enc s vmact ready in
    let frame = framed enc vmact.seq skb in
    let place = vmact.seq % window_tx in
    let copy = copy_of frame room in
    let next = number_frame env (to copy) vmact in
    let (s2, e, t, a) = tx_data-granted env enc skb vmact m.after room m.copies (rw m.skbs free) in
    (
      enq_uqueue env (to (flagged frame)) 0 rate s2,
      rw (m.made, e) refl,
      record {
        entry = next;
        found =
            rw (enq_uqueue-tx_enc env (to (flagged frame)) 0 rate s2, t)
              (ground (arith, find-update env.hash enc enc (λ _. next) m.after.tx_enc, m.there));
        numbered = refl;
        copies = number_frame-HasCopies env copy vmact m.copies;
        copy = copy;
        kept =
            get_or-set_at vmact.retransmission_buffer place place (to copy) null refl
              (rw m.copies.buffer_size (omega arith));
        same = refl;
        buffer = refl;
        timer = refl;
        unpaced =
            get_or-set_at vmact.timer place place 0 0 refl (rw m.copies.timer_size (omega arith));
        queued =
            rw
              (
                enq_uqueue-uqueue env (to (flagged frame)) rate s2,
                a.uqueue,
                a.kmallocs,
                m.aside.uqueue,
                m.aside.kmallocs,
              )
              refl;
        mqueue =
            (enq_uqueue-aside env (to (flagged frame)) 0 rate s2).0 ∙ (a.mqueue ∙ m.aside.mqueue);
        rx_upper =
            (enq_uqueue-aside env (to (flagged frame)) 0 rate s2).1
            ∙ (a.rx_upper ∙ m.aside.rx_upper);
        aired = (enq_uqueue-aside env (to (flagged frame)) 0 rate s2).2 ∙ (a.aired ∙ m.aside.aired);
      },
    )
