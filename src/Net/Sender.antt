-- ===== src/Net/Sender.antt =====
-- The sender's moves: each runs, and what it keeps and airs has the bytes that it was given to send.
use v_mac_kernel.Prelude.{
  ℕ, ◌%◌, ◌^◌, ◌<◌, ◌≡◌, refl, sym, ◌∙◌, inl, false, List, ◌++◌, Option, none, some, arith, length,
  All, All-append, get_or, get_or-set_ne,
}
use mathlib.Core.Path.{subst}
use native.Mathlib.Decide.{ℕ_discrete}
use v_mac_kernel.Skb.{Skb, null, to}
use v_mac_kernel.Structs.{VmacQueue, window_tx}
use v_mac_kernel.Wire.{VmacHdr, hdr_data, hdr_dack, hdr_bytes}
use v_mac_kernel.Kernel.{Kernel, Env}
use v_mac_kernel.Queue.{queuethread, add_mgmt}
use v_mac_kernel.Queue.Carry.{Bears, add_mgmt-tx_enc, add_mgmt-Carries, queuethread-Carries}
use v_mac_kernel.Tx.{framed, flagged, vmac_tx}
use v_mac_kernel.Tx.Steps.{queued_data}
use v_mac_kernel.Tx.Copies.{Sent, vmac_tx-Sent}
use v_mac_kernel.Rx.{ieee80211_rx_vmac}
use v_mac_kernel.Rx.Dispatch.{holding, arriving, at_driver}
use v_mac_kernel.Rx.Serving.{Keeps}
use v_mac_kernel.Rx.Sending.{IsDack, Sending, KeepsSending}

queued_data-Bears :
    (P : List ℕ → Type 0) (item : Option VmacQueue) (skb : Skb) (rate : ℕ) (q : List VmacQueue)
    → P skb.bytes
    → All (Bears P) q
    → All (Bears P) (queued_data item (to skb) rate q)
queued_data-Bears P none skb rate q known h = h
queued_data-Bears P (some item) skb rate q known h =
    All-append (Bears P) q _ h ((skb, refl, known), tt)

module _ (P : List ℕ → Type 0) (env : Env) (enc : ℕ) (s : Kernel)
    (v : Sending P env.hash enc s) where
  -- The copy of a new frame takes the place of the oldest one.
  sent-Keeps :
      (rate : ℕ) (skb : Skb) (s' : Kernel) (sent : Sent env enc rate v.vmact skb s s')
      → P (framed enc v.vmact.seq skb).bytes
      → Keeps P sent.entry sent.entry.seq
  sent-Keeps rate skb s' sent known i h k =
      let place = v.vmact.seq % window_tx in
      let buffer = v.vmact.retransmission_buffer in
      elim (ℕ_discrete place i) [
        | yes e ↦ (
          sent.copy,
          subst (λ j. get_or sent.entry.retransmission_buffer j null ≡ to sent.copy) e sent.kept,
          subst P (sym sent.same) known,
        )
        | no ne ↦
            let (old, there, was) = v.kept i h (ground (arith, sent.numbered)) in
            (old, rw sent.buffer (get_or-set_ne buffer place i (to sent.copy) null ne ∙ there), was)
      ]

  pub vmac_tx-Sending :
      (skb : Skb) (rate seqtmp : ℕ) (room : ℕ × List ℕ)
      → env.new_skb s.skbs ≡ some room
      → P (framed enc v.vmact.seq skb).bytes
      → KeepsSending P env.hash enc (vmac_tx env skb enc hdr_data rate seqtmp s)
  vmac_tx-Sending skb rate seqtmp room free known =
      let (s', e, sent) =
        vmac_tx-Sent env skb enc rate seqtmp s v.vmact room (inl (v.found, v.copies)) free in
      let item = env.kmalloc s.kmallocs in
      let frame = flagged (framed enc v.vmact.seq skb) in
      (
        s',
        e,
        record {
          vmact = sent.entry;
          found = sent.found;
          number = rw sent.numbered (omega arith);
          copies = sent.copies;
          kept = sent-Keeps rate skb s' sent known;
          carried = record {
            data_frames =
                rw sent.queued
                  (queued_data-Bears P item frame rate s.uqueue known v.carried.data_frames);
            mgmt_frames = rw sent.mqueue v.carried.mgmt_frames;
            rx_frames = rw sent.rx_upper v.carried.rx_frames;
            aired = rw sent.aired v.carried.aired;
          };
        },
      )

module _ (P : List ℕ → Type 0) (hash : ℕ → ℕ) (env : Env) (enc : ℕ) (s : Kernel)
    (v : Sending P hash enc s) where
  pub queuethread-Sending : length env.stack ≡ 8 → KeepsSending P hash enc (queuethread env s)
  queuethread-Sending eight =
      let (s', e, same, carried) = queuethread-Carries P (IsDack enc) env s v.carried eight in
      (
        s',
        e,
        record {
          vmact = v.vmact;
          found = rw same v.found;
          number = v.number;
          copies = v.copies;
          kept = v.kept;
          carried = carried;
        },
      )

  pub report-Sending :
      (skb : Skb) (rate : ℕ) (stack content fcs : List ℕ)
      → enc < 2 ^ 64
      → length stack ≡ 8
      → KeepsSending P hash enc (
          ieee80211_rx_vmac env
            (arriving skb rate stack (record { enc = enc; type = hdr_dack }) content fcs)
            s)
  report-Sending skb rate stack content fcs he eight =
      let h : VmacHdr = record { enc = enc; type = hdr_dack } in
      let inner = holding skb (hdr_bytes h ++ (content ++ fcs)) in
      (
        add_mgmt env (to inner) s,
        at_driver env skb rate stack h content fcs s eight he (omega arith),
        record {
          vmact = v.vmact;
          found = rw (add_mgmt-tx_enc env (to inner) s) v.found;
          number = v.number;
          copies = v.copies;
          kept = v.kept;
          carried =
              add_mgmt-Carries false P (IsDack enc) env s v.carried inner (content ++ fcs, refl);
        },
      )
