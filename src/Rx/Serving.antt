-- ===== src/Rx/Serving.antt =====
-- The retransmission for a DACK, whatever holes the DACK reports. With number WINDOW_TX among them it can queue
-- a pointer to a buffer that it gave to the queue before.
use v_mac_kernel.Prelude.{
  ◌*◌, ◌≢◌, sym, ap, [], ◌∷◌, Option, none, some, Bool, true, All, ℕ, zero, suc, ◌+◌, ◌-◌, ◌%◌, ◌≤◌,
  ◌<◌, ◌≡◌, refl, ◌∙◌, ◌⊎◌, List, inl, inr, false, ◌==◌, ltb, leb, arith, length, length-set,
  get_or, set, Bool-cases, Option-cases,
}
use v_mac_kernel.Skb.{Skb, Ptr, null, to, memory, pull, Ptr-cases}
use v_mac_kernel.Words.{u8, u16}
use v_mac_kernel.Structs.{EncodingTx, VmacQueue, window_tx}
use v_mac_kernel.Wire.{VmacHole, read_hole, hole_size}
use v_mac_kernel.Kernel.{Kernel, Env, Outcome, ok, ◌>>=◌, skb_copy}
use v_mac_kernel.Table.{Table}
use v_mac_kernel.Queue.{retrx}
use v_mac_kernel.Queue.Carry.{Bearing, Carries, Carries-same, retrx-Carries, retrx-tx_enc}
use v_mac_kernel.Rx.Retransmit.{
  maxretx, Resend, ring_tx, ring_test, buffer_at, copy_ptr, fetch, given_away, requeue, due,
  resend_hole, resend_holes,
}

-- The sender's buffer holds the frames sent, up to WINDOW_TX of them.
pub record HasCopies (vmact : EncodingTx) (seq : ℕ) : Type 0 where
  pub buffer_size : length vmact.retransmission_buffer ≡ window_tx
  pub timer_size : length vmact.timer ≡ window_tx
  pub copies :
      (i : ℕ)
      → i < window_tx
      → i < seq
      → (skb : Skb) × (get_or vmact.retransmission_buffer i null ≡ to skb)

-- The copies of the frames sent, under their numbers, have bytes of `P`.
abbrev pub Keeps : (List ℕ → Type 0) → EncodingTx → ℕ → Type 0
Keeps P vmact seq =
    (i : ℕ)
    → i < window_tx
    → i < seq
    → (skb : Skb) × (get_or vmact.retransmission_buffer i null ≡ to skb) × P skb.bytes

-- No buffer, or what an entry of `mqueue` may hold.
abbrev pub Points : Bool → (List ℕ → Type 0) → Ptr → Type 0
Points lend P p = (p ≡ null) ⊎ Bearing lend P p

-- The `n` frames from `le` on are not asked for number WINDOW_TX while it is among the last that were sent, unless
-- `lend` allows it: its test reads behind the buffer.
abbrev Spares : Bool → ℕ → ℕ → ℕ → Type 0
Spares lend seq n le =
    (lend ≡ true) ⊎ ((i : ℕ) → le ≤ i → i < le + n → i < seq → seq ≤ i + window_tx → i ≢ window_tx)

-- A hole that leaves out number WINDOW_TX, or a sender whose last frames do not have it.
abbrev pub IsClear : ℕ → VmacHole → Type 0
IsClear seq h =
    (seq ≤ window_tx) ⊎ ((2 * window_tx < seq) ⊎ ((window_tx < h.le) ⊎ (h.re ≤ window_tx)))

-- The first `n` holes of a frame, as the loop reads them.
abbrev pub holes_of : ℕ → Skb → List VmacHole
holes_of zero skb = []
holes_of (suc n) skb = read_hole (memory skb) ∷ holes_of n (pull hole_size skb)

-- The loops of the retransmission, of an entry that has sent `seq` frames and stands in `table`.
pub record IsServing (lend : Bool) (P Q : List ℕ → Type 0) (table : Table EncodingTx) (seq : ℕ)
    (st : Resend) : Type 0 where
  pub entry : HasCopies st.vmact seq
  pub kept : Keeps P st.vmact seq
  pub sent : st.vmact.seq ≡ seq
  pub held : Points true P st.skb2
  pub bounded : st.counter ≤ maxretx
  pub carried : Carries lend P Q st.kernel
  pub same : st.kernel.tx_enc ≡ table

skb_copy-Points :
    (lend : Bool) (P : List ℕ → Type 0) (env : Env) (skb : Skb) (s : Kernel)
    → P skb.bytes
    → Points lend P (skb_copy env skb s).0
unfolding skb_copy
skb_copy-Points lend P env skb s known = elim (Option-cases (env.new_skb s.skbs)) [
  | inl e ↦ rw (e, skb_copy) (inl refl)
  | inr (x, e) ↦ rw (e, skb_copy) (inr (inl (_, refl, known)))
]

skb_copy-state :
    (env : Env) (skb : Skb) (s : Kernel) → (skb_copy env skb s).1 ≡ record s { skbs = s.skbs + 1 }
unfolding skb_copy
skb_copy-state env skb s = elim (Option-cases (env.new_skb s.skbs)) [
  | inl e ↦ rw (e, skb_copy) refl
  | inr (x, e) ↦ rw (e, skb_copy) refl
]

-- A pointer after its buffer was queued.
given_away-Points :
    (P : List ℕ → Type 0) (item : Option VmacQueue) (p : Ptr)
    → Points true P p
    → Points true P (given_away item p)
given_away-Points P none p h = h
given_away-Points P (some item) p h = inr (inr (refl, refl))

module _ (lend : Bool) (P Q : List ℕ → Type 0) (table : Table EncodingTx) where
  -- A step that succeeds and keeps the invariant.
  abbrev Serves : ℕ → Outcome Resend → Type 0
  Serves seq out = (st : Resend) × (out ≡ ok st) × IsServing lend P Q table seq st

  -- One that leaves `skb2` with what can be queued.
  abbrev Fetches : ℕ → Outcome Resend → Type 0
  Fetches seq out =
      (st : Resend) × (out ≡ ok st) × IsServing lend P Q table seq st × Points lend P st.skb2

  module _ (env : Env) (round seq le : ℕ) (st : Resend) (v : IsServing lend P Q table seq st) where
    module _ (old : le < seq) where
      buffered : (skb : Skb) × (buffer_at st.vmact (ring_tx le) ≡ to skb) × P skb.bytes
      unfolding buffer_at
      buffered =
          let (skb, e, known) = v.kept (ring_tx le) (ground arith) (ground arith) in
          let ne : (ring_tx le == window_tx) ≡ false = ground arith in (skb, rw ne e, known)

      copied :
          st.counter < maxretx
          → Fetches seq (
              copy_ptr env (buffer_at st.vmact (ring_tx le)) st.kernel >>= λ (p, s).
              ok (record st { skb2 = p; counter = st.counter + 1; kernel = s }))
      unfolding copy_ptr
      copied room =
          let (skb, e, known) = buffered in
          let s1 = record (st.kernel) { skbs = st.kernel.skbs + 1 } in
          let st1 : Resend = record st {
            skb2 = (skb_copy env skb st.kernel).0;
            counter = st.counter + 1;
            kernel = (skb_copy env skb st.kernel).1;
          } in
          (
            st1,
            rw (e, copy_ptr) refl,
            record {
              entry = v.entry;
              kept = v.kept;
              sent = v.sent;
              held = skb_copy-Points true P env skb st.kernel known;
              bounded = omega arith;
              carried =
                  rw (skb_copy-state env skb st.kernel)
                    (Carries-same lend P Q st.kernel s1 refl refl refl refl v.carried);
              same = rw (skb_copy-state env skb st.kernel) v.same;
            },
            skb_copy-Points lend P env skb st.kernel known,
          )

      -- Only the test of number WINDOW_TX can find no buffer, and then `skb2` is what it was.
      untested :
          buffer_at st.vmact (ring_test le) ≡ null
          → (lend ≡ true) ⊎ (le ≢ window_tx)
          → seq ≤ le + window_tx
          → Points lend P st.skb2
      untested none_there (inl on) late = rw on v.held
      untested none_there (inr ne) late =
          let same : ring_test le ≡ ring_tx le = ground (arith, ne) in
          let (skb, e, known) = buffered in
          let there : null ≡ to skb = sym none_there ∙ ap (buffer_at st.vmact) same ∙ e in
          absurd (cc)

      fetch-Fetches :
          st.counter < maxretx
          → (lend ≡ true) ⊎ (le ≢ window_tx)
          → seq ≤ le + window_tx
          → Fetches seq (fetch env le st)
      unfolding fetch
      fetch-Fetches room spare late = elim (Ptr-cases (buffer_at st.vmact (ring_test le))) [
        | inl e ↦ (st, rw (e, fetch), v, untested e spare late)
        | inr (inl (skb, e)) ↦ rw (e, fetch) (copied room)
        | inr (inr e) ↦ rw (e, fetch) (copied room)
      ]

    -- Pacing changes no copy.
    abbrev paced : EncodingTx
    paced = record (st.vmact) { timer = set st.vmact.timer (le % window_tx) (u8 (round + 6)) }

    paced-HasCopies : HasCopies paced seq
    paced-HasCopies = record {
      buffer_size = v.entry.buffer_size;
      timer_size = length-set st.vmact.timer (le % window_tx) (u8 (round + 6)) ∙ v.entry.timer_size;
      copies = v.entry.copies;
    }

    -- What is queued, with what is left.
    queued-IsServing :
        Bearing lend P st.skb2
        → IsServing lend P Q table seq (record st {
          vmact = record paced { framecount = u16 (st.vmact.framecount + 1) };
          skb2 = given_away (env.kmalloc st.kernel.kmallocs) st.skb2;
          kernel = retrx env st.skb2 255 st.kernel;
        })
    queued-IsServing bears =
        let p = paced-HasCopies in
        record {
          entry = record {
            buffer_size = p.buffer_size;
            timer_size = p.timer_size;
            copies = p.copies;
          };
          kept = v.kept;
          sent = v.sent;
          held = given_away-Points P (env.kmalloc st.kernel.kmallocs) st.skb2 v.held;
          bounded = v.bounded;
          carried = retrx-Carries lend P Q env st.kernel v.carried st.skb2 255 bears;
          same = retrx-tx_enc env st.skb2 255 st.kernel ∙ v.same;
        }

    requeue-IsServing :
        Points lend P st.skb2 → IsServing lend P Q table seq (requeue env round le st)
    unfolding requeue
    requeue-IsServing (inl e) =
        rw (e, requeue)
          (record {
            entry = paced-HasCopies;
            kept = v.kept;
            sent = v.sent;
            held = inl e;
            bounded = v.bounded;
            carried = v.carried;
            same = v.same;
          })
    requeue-IsServing (inr (inl (skb, e, known))) =
        rw (e, requeue) (queued-IsServing (inl (skb, e, known)))
    requeue-IsServing (inr (inr (on, e))) = rw (e, requeue) (queued-IsServing (inr (on, e)))

  module _ (env : Env) (round seq : ℕ) where
    resend_hole-Serves :
        (n le : ℕ) (st : Resend)
        → Spares lend seq n le
        → IsServing lend P Q table seq st
        → Serves seq (resend_hole env round seq n le st)
    unfolding resend_hole
    resend_hole-Serves zero le st spares v = (st, refl, v)
    resend_hole-Serves (suc n) le st spares v =
        let later : Spares lend seq n (le + 1) = elim spares [
          | inl on ↦ inl on
          | inr f ↦ inr (λ i lo hi. f i (omega arith) (omega arith))
        ] in
        elim (Bool-cases (ltb le seq)) [
          | inl sent ↦ elim (Bool-cases (due round seq le st.vmact)) [
            | inl now ↦ elim (Bool-cases (leb maxretx st.counter)) [
              | inl full ↦ (st, rw (sent, now, full), v)
              | inr room ↦
                  let late : seq ≤ le + window_tx = ground arith in
                  let spare : (lend ≡ true) ⊎ (le ≢ window_tx) = elim spares [
                    | inl on ↦ inl on
                    | inr f ↦ inr (f le (omega arith) (omega arith) (ground arith) late)
                  ] in
                  let (st1, e, v1, points) =
                    fetch-Fetches env round seq le st v (ground arith) (ground arith) spare late in
                  let (st2, e2, v2) =
                    resend_hole-Serves n (le + 1) (requeue env round le st1) later
                      (requeue-IsServing env round seq le st1 v1 points) in
                  (st2, rw (sent, now, room, e) e2, v2)
            ]
            | inr early ↦
                let (st1, e, v1) = resend_hole-Serves n (le + 1) st later v in
                (st1, rw (sent, early) e, v1)
          ]
          | inr unsent ↦ (st, rw unsent, v)
        ]

    hole-Spares :
        (h : VmacHole) → (lend ≡ true) ⊎ IsClear seq h → Spares lend seq (h.re - h.le) h.le
    hole-Spares h (inl on) = inl on
    hole-Spares h (inr clear) = inr (λ i lo hi old late e. elim clear [
      | inl few ↦ omega arith
      | inr (inl many) ↦ omega arith
      | inr (inr (inl right)) ↦ omega arith
      | inr (inr (inr left)) ↦ omega arith
    ])

    -- If an entry that has sent `seq` frames holds copies of them, up to WINDOW_TX, with bytes of `P`, every
    -- queued entry holds a frame, those to be sent and those on air with bytes of `P` and those received with
    -- bytes of `Q`, the table of senders is `table`, and the locals are as the loop starts with or leaves them
    -- (`skb2` no buffer, one with bytes of `P`, or one given away; at most 20 copies counted), then the holes
    -- of a DACK are served without a fault, and all of this holds again: at most 20 copies are counted, and
    -- what is queued to be sent has bytes of `P`. With `lend`, the holes are any, but the entries of `mqueue`
    -- can then also hold pointers to buffers that were given away to an entry before; without it, they leave
    -- out number WINDOW_TX, unless at most WINDOW_TX or more than twice as many frames were sent.
    pub resend_holes-Serves :
        (n : ℕ) (skb : Skb) (st : Resend)
        → (lend ≡ true) ⊎ All (IsClear seq) (holes_of n skb)
        → IsServing lend P Q table seq st
        → (st' : Resend) × (resend_holes env round seq n skb st ≡ ok st')
          × IsServing lend P Q table seq st'
    unfolding resend_holes
    resend_holes-Serves zero skb st clear v = (st, refl, v)
    resend_holes-Serves (suc n) skb st clear v =
        let hole = read_hole (memory skb) in
        let (first, rest) = split clear in
        let (st1, e, v1) =
          resend_hole-Serves (hole.re - hole.le) hole.le st (hole-Spares hole first) v in
        let (st2, e2, v2) = resend_holes-Serves n (pull hole_size skb) st1 rest v1 in
        (st2, rw e e2, v2)
      where
        split :
            (lend ≡ true) ⊎ All (IsClear seq) (holes_of (suc n) skb)
            → ((lend ≡ true) ⊎ IsClear seq (read_hole (memory skb)))
              × ((lend ≡ true) ⊎ All (IsClear seq) (holes_of n (pull hole_size skb)))
        split (inl on) = (inl on, inl on)
        split (inr c) = (inr c.0, inr c.1)
