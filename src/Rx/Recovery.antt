-- ===== src/Rx/Recovery.antt =====
-- The retransmission for a DACK: copies of just the frames that it asks for, in their order.
use v_mac_kernel.Prelude.{
  ℕ, zero, suc, ◌+◌, ◌%◌, ◌≡◌, ◌≢◌, refl, ◌∙◌, List, [], ◌∷◌, ◌++◌, some, true, false, ◌==◌, ltb,
  leb, arith, get_or, set, get_or-set_ne, All,
}
use v_mac_kernel.Words.{u8, u16}
use v_mac_kernel.Skb.{Skb, Ptr, null, to, wild}
use v_mac_kernel.Structs.{EncodingTx, VmacQueue, window_tx}
use v_mac_kernel.Kernel.{Kernel, Env, ok, ◌>>=◌, skb_copy}
use v_mac_kernel.Queue.{retrx}
use v_mac_kernel.Tx.Steps.{copy_of}
use v_mac_kernel.Rx.Retransmit.{
  maxretx, Resend, ring_tx, ring_test, buffer_at, copy_ptr, fetch, requeue, due, resend_hole,
}
use v_mac_kernel.Rx.Pending.{
  Grants, Asked, Ripe, range, Pending, Requeued, bind-then, Requeued-none, Requeued-append,
}

buffer_at-inside :
    (vmact : EncodingTx) (le i : ℕ) (skb : Skb)
    → i ≡ le % window_tx
    → get_or vmact.retransmission_buffer (le % window_tx) null ≡ to skb
    → buffer_at vmact i ≡ to skb
unfolding buffer_at
buffer_at-inside vmact le i skb e there =
    let inside : (i == window_tx) ≡ false = ground arith in rw (inside, e) there

copy_ptr-granted :
    (env : Env) (skb : Skb) (s : Kernel) (room : ℕ × List ℕ)
    → env.new_skb s.skbs ≡ some room
    → copy_ptr env (to skb) s ≡ ok (to (copy_of skb room), record s { skbs = s.skbs + 1 })
unfolding copy_ptr skb_copy
copy_ptr-granted env skb s room e = rw (e, skb_copy) refl

retrx-granted :
    (env : Env) (p : Ptr) (rate : ℕ) (s : Kernel) (item : VmacQueue)
    → env.kmalloc s.kmallocs ≡ some item
    → retrx env p rate s ≡ record s {
      kmallocs = s.kmallocs + 1;
      mqueue = s.mqueue ++ record item { frame = p; rate = rate } ∷ [];
    }
unfolding retrx
retrx-granted env p rate s item e = rw (e, retrx) refl

-- The pacing of frame `le` leaves the others in the buffer as they are.
Ripe-set :
    (round seq le x : ℕ) (vmact : EncodingTx) (todo : List ℕ)
    → Asked seq le
    → All (Asked seq) todo
    → All (λ j. le ≢ j) todo
    → All (Ripe round vmact) todo
    → All (Ripe round (record vmact { timer = set vmact.timer (le % window_tx) x })) todo
Ripe-set round seq le x vmact [] a asked apart ripe = tt
Ripe-set round seq le x vmact (j ∷ todo) a asked apart ripe =
    let ne = apart.0 in
    let other : le % window_tx ≢ j % window_tx =
      λ e. ne (omega (arith, e, a.sent, a.late, asked.0.sent, asked.0.late)) in
    (
      rw (get_or-set_ne vmact.timer (le % window_tx) (j % window_tx) x 0 other) ripe.0,
      Ripe-set round seq le x vmact todo a asked.1 apart.1 ripe.1,
    )

module _ (env : Env) (grants : Grants env) (content : ℕ → List ℕ) (round seq : ℕ) where
  -- One frame.
  module _ (le : ℕ) (todo : List ℕ) (st : Resend)
      (v : Pending content round seq (le ∷ todo) st) where
    fetched :
        (copy : Skb) × (fetch env le st
          ≡ ok (record st {
            skb2 = to copy;
            counter = st.counter + 1;
            kernel = record (st.kernel) { skbs = st.kernel.skbs + 1 };
          }))
        × (copy.bytes ≡ content le)
    unfolding fetch
    fetched =
        let a = v.asked.0 in
        let (skb, there, bytes) = v.holds le a.sent a.late in
        let (room, granted) = grants.skb st.kernel.skbs in
        let edge = a.not_edge in
        let tested = buffer_at-inside st.vmact le (ring_test le) skb (ground (arith, edge)) there in
        let read = buffer_at-inside st.vmact le (ring_tx le) skb (ground arith) there in
        (
          copy_of skb room,
          rw (tested, read, copy_ptr-granted env skb st.kernel room granted, fetch) refl,
          bytes,
        )

    -- Its copy is queued, and the others are still to go.
    requeued :
        (st' : Resend) × ((fetch env le st >>= λ x. ok (requeue env round le x)) ≡ ok st')
        × Pending content round seq todo st'
        × Requeued content (le ∷ []) st.kernel st'.kernel
    unfolding requeue
    requeued =
        let (copy, e, bytes) = fetched in
        let (item, granted) = grants.entry st.kernel.kmallocs in
        let got = record (st.kernel) { skbs = st.kernel.skbs + 1 } in
        (
          record {
            vmact = record (st.vmact) {
              timer = set st.vmact.timer (le % window_tx) (u8 (round + 6));
              framecount = u16 (st.vmact.framecount + 1);
            };
            counter = st.counter + 1;
            skb2 = wild;
            kernel = record got {
              kmallocs = st.kernel.kmallocs + 1;
              mqueue = st.kernel.mqueue ++ record item { frame = to copy; rate = 255 } ∷ [];
            };
          },
          rw (e, retrx-granted env (to copy) 255 got item granted, granted, requeue) refl,
          record {
            holds = v.holds;
            asked = v.asked.1;
            ripe =
                Ripe-set round seq le (u8 (round + 6)) st.vmact todo v.asked.0 v.asked.1
                  v.distinct.0 v.ripe.1;
            distinct = v.distinct.1;
            room = omega (arith, v.room);
          },
          record {
            copies = record item { frame = to copy; rate = 255 } ∷ [];
            mqueue = refl;
            frames = ((copy, refl, bytes), refl, tt);
            uqueue = refl;
            aired = refl;
          },
        )

  -- A hole, with more to go behind it.
  pub resend_hole-Requeued :
      (n le : ℕ) (todo : List ℕ) (st : Resend)
      → Pending content round seq (range n le ++ todo) st
      → (st' : Resend) × (resend_hole env round seq n le st ≡ ok st')
        × Pending content round seq todo st'
        × Requeued content (range n le) st.kernel st'.kernel
  unfolding resend_hole
  resend_hole-Requeued zero le todo st v = (st, refl, v, Requeued-none content st.kernel)
  resend_hole-Requeued (suc n) le todo st v =
      let a = v.asked.0 in
      let sent : ltb le seq ≡ true = ground (arith, a.sent) in
      let read : ring_tx le ≡ le % window_tx = ground arith in
      let now : due round seq le st.vmact ≡ true = rw read (ground (arith, v.ripe.0, a.late)) in
      let room : leb maxretx st.counter ≡ false = ground (arith, v.room) in
      let (st1, e1, v1, q1) = requeued le (range n (le + 1) ++ todo) st v in
      let (st2, e2, v2, q2) = resend_hole-Requeued n (le + 1) todo st1 v1 in
      (
        st2,
        rw (sent, now, room)
            (bind-then (fetch env le st) (requeue env round le)
                (resend_hole env round seq n (le + 1))
              ∙ rw e1 e2),
        v2,
        Requeued-append content (le ∷ []) (range n (le + 1)) st.kernel st1.kernel st2.kernel q1 q2,
      )
