-- ===== src/Tx.antt =====
-- `vmac_tx` of vmac/tx.c: frames from user space get their V-MAC headers and go to `uqueue`. The build
-- option NFD_VNLP is off, so that the entry of the queue has the number 0.
pub mod Steps
pub mod Copies
pub mod Contents
pub mod Interest
mod Tests
use v_mac_kernel.Prelude.{
  ℕ, ◌+◌, ◌%◌, List, [], ◌∷◌, Option, none, some, leb, ◌==◌, if◌then◌else◌, get_or, set,
}
use v_mac_kernel.Words.{u16}
use v_mac_kernel.Skb.{
  TxFlag, dontfrag, dont_encrypt, req_tx_status, no_ack, ack_policy_noack, Skb, Ptr, null, to, wild,
  push,
}
use v_mac_kernel.Structs.{CleanType, clean_enc_rx, clean_enc_tx, EncodingRx, EncodingTx, window_tx}
use v_mac_kernel.Table.{find, add, update}
use v_mac_kernel.Wire.{
  VmacHdr, hdr_interest, hdr_data, hdr_announcement, hdr_injected, hdr_bytes, data_bytes,
}
use v_mac_kernel.Kernel.{
  Kernel, Env, null_dereference, Outcome, ok, oops, ◌>>=◌, skb_copy, kfree_skb,
}
use v_mac_kernel.Queue.{enq_uqueue}
use v_mac_kernel.Dack.{with_rx}

-- A new entry of the receive table: what the code sets of the memory that it got. The window is not.
unfoldable pub new_rx : ℕ → ℕ → EncodingRx → EncodingRx
new_rx enc jiffies r = record r {
  key = enc;
  clean = record { enc = enc; type = clean_enc_rx };
  alpha = 0;
  first_frame = 0;
  second_frame = 0;
  lastin = 0;
  latest = 0;
  dac_info = record (r.dac_info) { dack_counter = 0; send = 0 };
  round = 0;
  dacksent = 0;
  enc_timeout = none;
  dack_timer = some jiffies;
}

-- A new entry of the transmit table. The buffer, the pacing, `offset` and `retrxout` are not set.
unfoldable pub new_tx : ℕ → EncodingTx → EncodingTx
new_tx enc r = record r {
  key = enc;
  clean = record { enc = enc; type = clean_enc_tx };
  framecount = 0;
  seq = 0;
  dackcounter = 0;
  prevround = 0;
  prevtime = 0;
  enc_timeout = none;
  round_inc = 0 ∷ 0 ∷ 0 ∷ [];
  round_dec = 0 ∷ 0 ∷ 0 ∷ [];
}

-- The entry for an interest, made if there is none.
unfoldable pub make_rx : Env → ℕ → Kernel → Outcome Kernel
make_rx env enc s = elim (find env.hash enc s.rx_enc) [
  | some r ↦ ok s
  | none ↦ elim env.vmalloc_rx [
    | none ↦ oops null_dereference
    | some memory ↦
        ok (record s { rx_enc = add env.hash enc (new_rx enc env.jiffies memory) s.rx_enc })
  ]
]

-- The entry for a data frame, made if there is none.
unfoldable pub make_tx : Env → ℕ → Kernel → Outcome (EncodingTx × Kernel)
make_tx env enc s = elim (find env.hash enc s.tx_enc) [
  | some vmact ↦ ok (vmact, s)
  | none ↦ elim env.vmalloc_tx [
    | none ↦ oops null_dereference
    | some memory ↦
        ok (new_tx enc memory, record s { tx_enc = add env.hash enc (new_tx enc memory) s.tx_enc })
  ]
]

-- The copy, if there is one, takes its place in the buffer.
abbrev pub store_copy : Ptr → ℕ → List Ptr → List Ptr
store_copy null i buffer = buffer
store_copy p i buffer = set buffer i p

-- The frame of number `seq` with its headers.
abbrev pub framed : ℕ → ℕ → Skb → Skb
framed enc seq skb =
    push (hdr_bytes (record { enc = enc; type = hdr_data }))
      (push (data_bytes (record { seq = seq })) skb)

-- The entry after a frame was numbered, and its copy `tmp1` made.
unfoldable pub number_frame : Env → Ptr → EncodingTx → EncodingTx
number_frame env tmp1 vmact = record vmact {
  enc_timeout = some (env.jiffies + env.msecs_to_jiffies 30000);
  seq = u16 (vmact.seq + 1);
  timer = set vmact.timer (vmact.seq % window_tx) 0;
  retransmission_buffer = store_copy tmp1 (vmact.seq % window_tx) vmact.retransmission_buffer;
}

-- The branch for a data frame, once its entry is there: the frame is copied, and the copy that stood in
-- its place is freed, whether or not the new one could be made.
unfoldable pub tx_data : Env → ℕ → Skb → EncodingTx × Kernel → Outcome (Skb × Kernel)
tx_data env enc skb (vmact, s) =
    let frame = framed enc vmact.seq skb in
    let (tmp1, s1) = skb_copy env frame s in
    let tmp2 =
      if leb window_tx vmact.seq
      then get_or vmact.retransmission_buffer (vmact.seq % window_tx) null
      else null in
    kfree_skb tmp2
      (record s1 { tx_enc = update env.hash enc (λ _. number_frame env tmp1 vmact) s1.tx_enc })
    >>= λ s2. ok (frame, s2)

-- The flags of the control block, as `vmac_tx` leaves them.
abbrev pub flagged : Skb → Skb
flagged skb = record skb {
  flags = dontfrag ∷ dont_encrypt ∷ req_tx_status ∷ no_ack ∷ ack_policy_noack ∷ [];
}

-- The end of `vmac_tx`: the flags are set and the frame is queued.
unfoldable pub tx_end : Env → ℕ → Skb × Kernel → Outcome Kernel
tx_end env rate (skb, s) = ok (enq_uqueue env (to (flagged skb)) 0 rate s)

-- `vmac_tx`
unfoldable pub vmac_tx : Env → Skb → ℕ → ℕ → ℕ → ℕ → Kernel → Outcome Kernel
vmac_tx env skb enc type tmprate seqtmp s =
    if type == hdr_interest
    then (let timeout = some (env.jiffies + env.msecs_to_jiffies 30000) in
        make_rx env enc s >>= λ s'. tx_end env tmprate (
          push (hdr_bytes (record { enc = enc; type = hdr_interest })) skb,
          with_rx env enc (λ r. record r { enc_timeout = timeout }) s',
        ))
    else if type == hdr_data
    then make_tx env enc s >>= tx_data env enc skb >>= tx_end env tmprate
    else if type == hdr_announcement
    then tx_end env 0 (push (hdr_bytes (record { enc = enc; type = type })) skb, s)
    else if type == hdr_injected
    then tx_end env tmprate (
      push (hdr_bytes (record { enc = enc; type = hdr_injected }))
          (push (data_bytes (record { seq = seqtmp })) skb),
      s,
    )
    else kfree_skb (to skb) s
