-- ===== src/Tx/Steps.antt =====
-- The steps of `vmac_tx` for a data frame: the entry, its copy of the frame, and the queue.
use v_mac_kernel.Prelude.{
  ◌++◌, ℕ, ◌+◌, ◌%◌, ◌≡◌, refl, ◌∙◌, ◌⊎◌, inl, inr, List, [], ◌∷◌, Option, none, some, leb,
  if◌then◌else◌, arith, length, length-set, get_or, get_or-set_at, get_or-set_ne, Bool-cases,
  Option-cases, drop,
}
use native.Mathlib.Decide.{ℕ_discrete}
use v_mac_kernel.Words.{u16}
use v_mac_kernel.Skb.{Skb, Ptr, null, to}
use v_mac_kernel.Structs.{EncodingTx, VmacQueue, window_tx}
use v_mac_kernel.Table.{find, add, update}
use v_mac_kernel.Table.Lookup.{find-add}
use v_mac_kernel.Kernel.{Kernel, Env, ok, skb_copy, kfree_skb}
use v_mac_kernel.Queue.{enq_uqueue}
use v_mac_kernel.Rx.Serving.{HasCopies}
use v_mac_kernel.Tx.{new_tx, make_tx, framed, number_frame, tx_data}

pub number_frame-HasCopies :
    (env : Env) (copy : Skb) (vmact : EncodingTx)
    → HasCopies vmact vmact.seq
    → HasCopies (number_frame env (to copy) vmact) (u16 (vmact.seq + 1))
unfolding number_frame
number_frame-HasCopies env copy vmact v =
    let place = vmact.seq % window_tx in
    let buffer = vmact.retransmission_buffer in
    record {
      buffer_size = length-set buffer place (to copy) ∙ v.buffer_size;
      timer_size = length-set vmact.timer place 0 ∙ v.timer_size;
      copies = λ i h k. elim (ℕ_discrete place i) [
        | yes e ↦
            (copy, get_or-set_at buffer place i (to copy) null e (rw v.buffer_size (omega arith)))
        | no ne ↦
            let (old, e) = v.copies i h (ground arith) in
            (old, get_or-set_ne buffer place i (to copy) null ne ∙ e)
      ];
    }

-- A table of senders in which a frame of `enc` finds or makes the entry `vmact`, with its copies.
abbrev pub Ready : Env → ℕ → Kernel → EncodingTx → Type 0
Ready env enc s vmact =
    ((find env.hash enc s.tx_enc ≡ some vmact) × HasCopies vmact vmact.seq)
    ⊎ ((memory : EncodingTx) × (find env.hash enc s.tx_enc ≡ none)
        × (env.vmalloc_tx ≡ some memory)
        × (length memory.retransmission_buffer ≡ window_tx)
        × (length memory.timer ≡ window_tx)
        × (vmact ≡ new_tx enc memory))

-- The queues, what was aired, and the count of queue entries are as they were.
pub record Aside (s s' : Kernel) : Type 0 where
  pub uqueue : s'.uqueue ≡ s.uqueue
  pub mqueue : s'.mqueue ≡ s.mqueue
  pub rx_upper : s'.rx_upper ≡ s.rx_upper
  pub aired : s'.aired ≡ s.aired
  pub kmallocs : s'.kmallocs ≡ s.kmallocs

pub Aside-refl : (s : Kernel) → Aside s s
Aside-refl s = record {
  uqueue = refl;
  mqueue = refl;
  rx_upper = refl;
  aired = refl;
  kmallocs = refl;
}

-- What `make_tx` gives.
pub record Made (env : Env) (enc : ℕ) (s : Kernel) (vmact : EncodingTx) : Type 0 where
  pub after : Kernel
  pub made : make_tx env enc s ≡ ok (vmact, after)
  pub there : find env.hash enc after.tx_enc ≡ some vmact
  pub copies : HasCopies vmact vmact.seq
  pub skbs : after.skbs ≡ s.skbs
  pub aside : Aside s after

new_tx-HasCopies :
    (enc : ℕ) (memory : EncodingTx)
    → length memory.retransmission_buffer ≡ window_tx
    → length memory.timer ≡ window_tx
    → HasCopies (new_tx enc memory) 0
unfolding new_tx
new_tx-HasCopies enc memory b t = record {
  buffer_size = b;
  timer_size = t;
  copies = λ i h k. absurd (omega arith);
}

pub make_tx-Made :
    (env : Env) (enc : ℕ) (s : Kernel) (vmact : EncodingTx)
    → Ready env enc s vmact
    → Made env enc s vmact
unfolding make_tx new_tx
make_tx-Made env enc s vmact (inl (e, v)) = record {
  after = s;
  made = rw (e, make_tx) refl;
  there = e;
  copies = v;
  skbs = refl;
  aside = record { uqueue = refl; mqueue = refl; rx_upper = refl; aired = refl; kmallocs = refl };
}
make_tx-Made env enc s vmact (inr (memory, e, room, b, t, q)) = record {
  after = record s { tx_enc = add env.hash enc (new_tx enc memory) s.tx_enc };
  made = rw (e, room, q, make_tx) refl;
  there = rw q (ground (arith, find-add env.hash enc enc (new_tx enc memory) s.tx_enc e));
  copies = rw q (new_tx-HasCopies enc memory b t);
  skbs = refl;
  aside = record { uqueue = refl; mqueue = refl; rx_upper = refl; aired = refl; kmallocs = refl };
}

-- The queue of data frames after `enq_uqueue`, by what the allocation of its entry gives.
abbrev pub queued_data : Option VmacQueue → Ptr → ℕ → List VmacQueue → List VmacQueue
queued_data none p rate q = q
queued_data (some item) p rate q = q ++ record item { frame = p; rate = rate; seq = 0 } ∷ []

pub enq_uqueue-aside :
    (env : Env) (p : Ptr) (seq rate : ℕ) (s : Kernel)
    → ((enq_uqueue env p seq rate s).mqueue ≡ s.mqueue)
      × ((enq_uqueue env p seq rate s).rx_upper ≡ s.rx_upper)
      × ((enq_uqueue env p seq rate s).aired ≡ s.aired)
unfolding enq_uqueue
enq_uqueue-aside env p seq rate s = elim (Option-cases (env.kmalloc s.kmallocs)) [
  | inl e ↦ rw (e, enq_uqueue) (refl, refl, refl)
  | inr (x, e) ↦ rw (e, enq_uqueue) (refl, refl, refl)
]

pub enq_uqueue-tx_enc :
    (env : Env) (p : Ptr) (seq rate : ℕ) (s : Kernel)
    → (enq_uqueue env p seq rate s).tx_enc ≡ s.tx_enc
unfolding enq_uqueue
enq_uqueue-tx_enc env p seq rate s = elim (Option-cases (env.kmalloc s.kmallocs)) [
  | inl e ↦ rw (e, enq_uqueue) refl
  | inr (x, e) ↦ rw (e, enq_uqueue) refl
]

pub enq_uqueue-uqueue :
    (env : Env) (p : Ptr) (rate : ℕ) (s : Kernel)
    → (enq_uqueue env p 0 rate s).uqueue ≡ queued_data (env.kmalloc s.kmallocs) p rate s.uqueue
unfolding enq_uqueue
enq_uqueue-uqueue env p rate s = elim (Option-cases (env.kmalloc s.kmallocs)) [
  | inl e ↦ rw (e, enq_uqueue) refl
  | inr (x, e) ↦ rw (e, enq_uqueue) refl
]

-- The copy that is replaced is a buffer, or there is none.
freed :
    (vmact : EncodingTx) (s : Kernel)
    → HasCopies vmact vmact.seq
    → (s' : Kernel) × (kfree_skb
          (if leb window_tx vmact.seq
            then get_or vmact.retransmission_buffer (vmact.seq % window_tx) null
            else null)
          s
        ≡ ok s')
      × (s'.tx_enc ≡ s.tx_enc)
      × Aside s s'
unfolding kfree_skb
freed vmact s v = elim (Bool-cases (leb window_tx vmact.seq)) [
  | inl e ↦
      let (old, q) = v.copies (vmact.seq % window_tx) (omega arith) (ground arith) in
      (
        record s { freed = s.freed ++ old.id ∷ [] },
        rw (e, q) refl,
        refl,
        record { uqueue = refl; mqueue = refl; rx_upper = refl; aired = refl; kmallocs = refl },
      )
  | inr e ↦ (s, rw e refl, refl, Aside-refl s)
]

-- A copy that is granted.
abbrev pub copy_of : Skb → ℕ × List ℕ → Skb
copy_of skb (id, memory) = record skb { id = id; beyond = drop (length skb.bytes) memory }

skb_copy-granted :
    (env : Env) (skb : Skb) (s : Kernel) (room : ℕ × List ℕ)
    → env.new_skb s.skbs ≡ some room
    → skb_copy env skb s ≡ (to (copy_of skb room), record s { skbs = s.skbs + 1 })
unfolding skb_copy
skb_copy-granted env skb s room e = rw (e, skb_copy) refl

pub tx_data-granted :
    (env : Env) (enc : ℕ) (skb : Skb) (vmact : EncodingTx) (s : Kernel) (room : ℕ × List ℕ)
    → HasCopies vmact vmact.seq
    → env.new_skb s.skbs ≡ some room
    → (s' : Kernel) × (tx_data env enc skb (vmact, s) ≡ ok (framed enc vmact.seq skb, s'))
      × (s'.tx_enc
          ≡ update env.hash enc
              (λ _. number_frame env (to (copy_of (framed enc vmact.seq skb) room)) vmact)
              s.tx_enc)
      × Aside s s'
unfolding tx_data
tx_data-granted env enc skb vmact s room v free =
    let frame = framed enc vmact.seq skb in
    let next = number_frame env (to (copy_of frame room)) vmact in
    let s1 : Kernel = record s {
      skbs = s.skbs + 1;
      tx_enc = update env.hash enc (λ _. next) s.tx_enc;
    } in
    let (s2, e, t, a) = freed vmact s1 v in
    (
      s2,
      rw (skb_copy-granted env frame s room free, e) refl,
      t,
      record {
        uqueue = a.uqueue;
        mqueue = a.mqueue;
        rx_upper = a.rx_upper;
        aired = a.aired;
        kmallocs = a.kmallocs;
      },
    )
