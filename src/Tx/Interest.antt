-- ===== src/Tx/Interest.antt =====
-- An interest opens the entry at which data of its encoding is awaited.
use v_mac_kernel.Prelude.{ℕ, ◌+◌, ◌≡◌, refl, ◌⊎◌, inl, inr, none, some, arith, Option-cases}
use v_mac_kernel.Skb.{Skb, Ptr, to, push}
use v_mac_kernel.Structs.{EncodingRx}
use v_mac_kernel.Table.{find, add}
use v_mac_kernel.Table.Lookup.{find-update, find-add}
use v_mac_kernel.Wire.{hdr_interest, hdr_bytes}
use v_mac_kernel.Kernel.{Kernel, Env, ok}
use v_mac_kernel.Queue.{enq_uqueue}
use v_mac_kernel.Dack.{with_rx}
use v_mac_kernel.Tx.{new_rx, make_rx, flagged, tx_end, vmac_tx}
use v_mac_kernel.Tx.Steps.{queued_data, enq_uqueue-uqueue}

-- The entry that an interest finds or makes.
abbrev pub Opened : Env → ℕ → Kernel → EncodingRx → Type 0
Opened env enc s r =
    (find env.hash enc s.rx_enc ≡ some r)
    ⊎ ((memory : EncodingRx) × (find env.hash enc s.rx_enc ≡ none)
        × (env.vmalloc_rx ≡ some memory)
        × (r ≡ new_rx enc env.jiffies memory))

record Made (env : Env) (enc : ℕ) (s : Kernel) (r : EncodingRx) : Type 0 where
  after : Kernel
  made : make_rx env enc s ≡ ok after
  there : find env.hash enc after.rx_enc ≡ some r
  kmallocs : after.kmallocs ≡ s.kmallocs
  uqueue : after.uqueue ≡ s.uqueue

make_rx-Made :
    (env : Env) (enc : ℕ) (s : Kernel) (r : EncodingRx) → Opened env enc s r → Made env enc s r
unfolding make_rx
make_rx-Made env enc s r (inl e) = record {
  after = s;
  made = rw (e, make_rx) refl;
  there = e;
  kmallocs = refl;
  uqueue = refl;
}
make_rx-Made env enc s r (inr (memory, e, room, q)) = record {
  after = record s { rx_enc = add env.hash enc (new_rx enc env.jiffies memory) s.rx_enc };
  made = rw (e, room, make_rx) refl;
  there =
      rw q (ground (arith, find-add env.hash enc enc (new_rx enc env.jiffies memory) s.rx_enc e));
  kmallocs = refl;
  uqueue = refl;
}

enq_uqueue-rx_enc :
    (env : Env) (p : Ptr) (seq rate : ℕ) (s : Kernel)
    → (enq_uqueue env p seq rate s).rx_enc ≡ s.rx_enc
unfolding enq_uqueue
enq_uqueue-rx_enc env p seq rate s = elim (Option-cases (env.kmalloc s.kmallocs)) [
  | inl e ↦ rw (e, enq_uqueue) refl
  | inr (x, e) ↦ rw (e, enq_uqueue) refl
]

-- An interest from user space runs through `vmac_tx` without a fault if its encoding has an entry in the
-- receive table, or memory for one is found: then the entry, or the new one, is there with its timeout
-- 30 seconds away and all else as it was or as it is initialised, and the frame with its header is
-- queued at its rate if its entry in the queue can be allocated.
pub interest_opens :
    (env : Env) (skb : Skb) (enc rate seqtmp : ℕ) (s : Kernel) (r : EncodingRx)
    → Opened env enc s r
    → (s' : Kernel) × (vmac_tx env skb enc hdr_interest rate seqtmp s ≡ ok s')
      × (find env.hash enc s'.rx_enc
          ≡ some (record r { enc_timeout = some (env.jiffies + env.msecs_to_jiffies 30000) }))
      × (s'.uqueue
          ≡ queued_data
              (env.kmalloc s.kmallocs)
              (to (flagged (push (hdr_bytes (record { enc = enc; type = hdr_interest })) skb)))
              rate
              s.uqueue)
unfolding vmac_tx tx_end
interest_opens env skb enc rate seqtmp s r opened =
    let m = make_rx-Made env enc s r opened in
    let late = λ (r : EncodingRx). record r {
      enc_timeout = some (env.jiffies + env.msecs_to_jiffies 30000);
    } in
    let s1 = with_rx env enc late m.after in
    let p = to (flagged (push (hdr_bytes (record { enc = enc; type = hdr_interest })) skb)) in
    (
      enq_uqueue env p 0 rate s1,
      rw m.made refl,
      rw (enq_uqueue-rx_enc env p 0 rate s1)
          (ground (arith, find-update env.hash enc enc late m.after.rx_enc, m.there)),
      rw (enq_uqueue-uqueue env p rate s1, m.uqueue, m.kmallocs) refl,
    )
