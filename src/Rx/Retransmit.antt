-- ===== src/Rx/Retransmit.antt =====
-- What `vmac_rx` of vmac/rx.c does at the sender of an encoding for a received DACK.
use v_mac_kernel.Prelude.{
  ℕ, zero, suc, ◌+◌, ◌-◌, ◌%◌, List, [], ◌∷◌, Option, none, some, Bool, true, ◌&&◌, ltb, leb, ◌==◌,
  if◌then◌else◌, get_or, set, take,
}
use v_mac_kernel.Words.{u8, u16}
use v_mac_kernel.Skb.{Skb, Ptr, null, to, wild, memory, pull}
use v_mac_kernel.Structs.{EncodingTx, VmacQueue, window_tx}
use v_mac_kernel.Wire.{read_hole, hole_size}
use v_mac_kernel.Kernel.{
  Kernel, Env, null_dereference, wild_pointer, Outcome, ok, oops, ◌>>=◌, skb_copy,
}
use v_mac_kernel.Queue.{retrx}

-- `maxretx`
abbrev pub maxretx : ℕ
maxretx = 20

-- The locals of the loops, with the entry that they change.
pub record Resend : Type 0 where
  pub vmact : EncodingTx
  pub counter : ℕ
  pub skb2 : Ptr
  pub kernel : Kernel

abbrev pub ring_tx : ℕ → ℕ
ring_tx le = if leb window_tx le then le % window_tx else le

-- `le > WINDOW_TX ? le % WINDOW_TX : le`, the index of the test: WINDOW_TX itself is not reduced.
abbrev pub ring_test : ℕ → ℕ
ring_test le = if ltb window_tx le then le % window_tx else le

-- Whether all of the bytes are zero.
abbrev pub all_zero : List ℕ → Bool
all_zero [] = true
all_zero (b ∷ bs) = b == 0 && all_zero bs

-- `retransmission_buffer[i]`: at WINDOW_TX the read ends up in `timer`, which stands behind the
-- buffer, and takes its first eight bytes for a pointer.
unfoldable pub buffer_at : EncodingTx → ℕ → Ptr
buffer_at vmact i =
    if i == window_tx
    then if all_zero (take 8 vmact.timer) then null else wild
    else get_or vmact.retransmission_buffer i null

-- `skb_copy` through a pointer.
unfoldable pub copy_ptr : Env → Ptr → Kernel → Outcome (Ptr × Kernel)
copy_ptr env null s = oops null_dereference
copy_ptr env wild s = oops wild_pointer
copy_ptr env (to skb) s = ok (skb_copy env skb s)

-- The copy, where the buffer holds a frame by the test; else `skb2` stays.
unfoldable pub fetch : Env → ℕ → Resend → Outcome Resend
fetch env le st = elim (buffer_at st.vmact (ring_test le)) [
  | null ↦ ok st
  | _ ↦ copy_ptr env (buffer_at st.vmact (ring_tx le)) st.kernel >>= λ (p, s).
      ok (record st { skb2 = p; counter = st.counter + 1; kernel = s })
]

-- What `skb2` is after `retrx`. Where the entry of the queue could be allocated, the buffer belongs to the
-- queue, and `queuethread` gives it to the driver before it comes to any later entry: a later entry with the
-- same pointer holds a buffer that is not the module's any more.
abbrev pub given_away : Option VmacQueue → Ptr → Ptr
given_away none p = p
given_away (some item) p = wild

-- The frame is paced, and what `skb2` points to is queued.
unfoldable pub requeue : Env → ℕ → ℕ → Resend → Resend
requeue env round le st =
    let paced = record (st.vmact) {
      timer = set st.vmact.timer (le % window_tx) (u8 (round + 6));
    } in
    elim st.skb2 [
      | null ↦ record st { vmact = paced }
      | p ↦ record st {
        vmact = record paced { framecount = u16 (st.vmact.framecount + 1) };
        skb2 = given_away (env.kmalloc st.kernel.kmallocs) st.skb2;
        kernel = retrx env st.skb2 255 st.kernel;
      }
    ]

-- Whether the pacing lets frame `le` go again and the buffer still has it.
abbrev pub due : ℕ → ℕ → ℕ → EncodingTx → Bool
due round seq le vmact =
    leb (get_or vmact.timer (ring_tx le) 0) round
    && leb (if ltb seq window_tx then 0 else seq - window_tx) le

-- The frames of one hole from `le` on, with `n` before its right edge. The `break` ends this loop only.
unfoldable pub resend_hole : Env → ℕ → ℕ → ℕ → ℕ → Resend → Outcome Resend
resend_hole env round seq zero le st = ok st
resend_hole env round seq (suc n) le st =
    let next = resend_hole env round seq n (le + 1) in
    if ltb le seq
    then if due round seq le st.vmact
      then if leb maxretx st.counter
        then ok st
        else (fetch env le st >>= λ st'. next (requeue env round le st'))
      else next st
    else ok st

-- The holes of the frame, one after the other.
unfoldable pub resend_holes : Env → ℕ → ℕ → ℕ → Skb → Resend → Outcome Resend
resend_holes env round seq zero skb st = ok st
resend_holes env round seq (suc n) skb st =
    let hole = read_hole (memory skb) in
    resend_hole env round seq (hole.re - hole.le) hole.le st
    >>= resend_holes env round seq n (pull hole_size skb)
