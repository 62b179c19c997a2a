-- ===== src/Queue/Append.antt =====
-- What the four appending operations do, and that every queued entry holds a frame.
use v_mac_kernel.Prelude.{
  ℕ, ◌≡◌, refl, List, [], ◌∷◌, ◌++◌, drop, zero, suc, Option-cases, inl, inr,
}
use v_mac_kernel.Skb.{Skb, to}
use v_mac_kernel.Structs.{VmacQueue}
use v_mac_kernel.Kernel.{Kernel, Env, Outcome, ok, ◌>>=◌}
use v_mac_kernel.Queue.{allocated, enq_uqueue, retrx, add_dack, add_mgmt, queuethread}
use v_mac_kernel.Queue.Priority.{HasFrames, queuethread_lem}

pub HasFrames-append :
    (q : List VmacQueue) (e : VmacQueue) (skb : Skb)
    → HasFrames q
    → e.frame ≡ to skb
    → HasFrames (q ++ e ∷ [])
HasFrames-append [] e skb f h = ((skb, h), tt)
HasFrames-append (x ∷ q) e skb f h = (f.0, HasFrames-append q e skb f.1 h)

pub HasFrames-drop : (n : ℕ) (q : List VmacQueue) → HasFrames q → HasFrames (drop n q)
HasFrames-drop zero q f = f
HasFrames-drop (suc n) [] f = tt
HasFrames-drop (suc n) (x ∷ q) f = HasFrames-drop n q f.1

-- The queues of frames; `dqueue` holds requests, which have none.
pub record Queued (s : Kernel) : Type 0 where
  pub data_frames : HasFrames s.uqueue
  pub mgmt_frames : HasFrames s.mqueue
  pub rx_frames : HasFrames s.rx_upper

module _ (env : Env) (skb : Skb) (s : Kernel) (v : Queued s) where
  -- A failed allocation leaves the queues as they are.
  allocated-Queued : Queued (allocated s)
  allocated-Queued = record {
    data_frames = v.data_frames;
    mgmt_frames = v.mgmt_frames;
    rx_frames = v.rx_frames;
  }

  enq_uqueue-Queued : (seq rate : ℕ) → Queued (enq_uqueue env (to skb) seq rate s)
  unfolding enq_uqueue
  enq_uqueue-Queued seq rate = elim (Option-cases (env.kmalloc s.kmallocs)) [
    | inl e ↦ rw (e, enq_uqueue) allocated-Queued
    | inr (x, e) ↦
        rw (e, enq_uqueue)
          (record {
            data_frames = HasFrames-append s.uqueue _ skb v.data_frames refl;
            mgmt_frames = v.mgmt_frames;
            rx_frames = v.rx_frames;
          })
  ]

  pub retrx-Queued : (rate : ℕ) → Queued (retrx env (to skb) rate s)
  unfolding retrx
  retrx-Queued rate = elim (Option-cases (env.kmalloc s.kmallocs)) [
    | inl e ↦ rw (e, retrx) allocated-Queued
    | inr (x, e) ↦
        rw (e, retrx)
          (record {
            data_frames = v.data_frames;
            mgmt_frames = HasFrames-append s.mqueue _ skb v.mgmt_frames refl;
            rx_frames = v.rx_frames;
          })
  ]

  add_dack-Queued : Queued (add_dack env (to skb) s)
  unfolding add_dack
  add_dack-Queued = elim (Option-cases (env.kmalloc s.kmallocs)) [
    | inl e ↦ rw (e, add_dack) allocated-Queued
    | inr (x, e) ↦
        rw (e, add_dack)
          (record {
            data_frames = v.data_frames;
            mgmt_frames = HasFrames-append s.mqueue _ skb v.mgmt_frames refl;
            rx_frames = v.rx_frames;
          })
  ]

  add_mgmt-Queued : Queued (add_mgmt env (to skb) s)
  unfolding add_mgmt
  add_mgmt-Queued = elim (Option-cases (env.kmalloc s.kmallocs)) [
    | inl e ↦ rw (e, add_mgmt) allocated-Queued
    | inr (x, e) ↦
        rw (e, add_mgmt)
          (record {
            data_frames = v.data_frames;
            mgmt_frames = v.mgmt_frames;
            rx_frames = HasFrames-append s.rx_upper _ skb v.rx_frames refl;
          })
  ]

-- What can happen to the queues of frames between two receptions: an append by one of the
-- producers, or a round of `queuethread`, each with its own answers of the kernel.
pub data Act : Type 0 where
  data_frame : Env → Skb → (seq rate : ℕ) → Act
  retransmission : Env → Skb → (rate : ℕ) → Act
  dack_frame : Env → Skb → Act
  mgmt_frame : Env → Skb → Act
  round : Env → Act

unfoldable pub act : Act → Kernel → Outcome Kernel
act (data_frame env skb seq rate) s = ok (enq_uqueue env (to skb) seq rate s)
act (retransmission env skb rate) s = ok (retrx env (to skb) rate s)
act (dack_frame env skb) s = ok (add_dack env (to skb) s)
act (mgmt_frame env skb) s = ok (add_mgmt env (to skb) s)
act (round env) s = queuethread env s

unfoldable pub acts : List Act → Kernel → Outcome Kernel
acts [] s = ok s
acts (a ∷ rest) s = act a s >>= acts rest

queuethread-Queued :
    (env : Env) (s : Kernel) → Queued s → (s' : Kernel) × (queuethread env s ≡ ok s') × Queued s'
queuethread-Queued env s v = (
  _,
  queuethread_lem env s v.mgmt_frames v.data_frames,
  record {
    data_frames = HasFrames-drop _ s.uqueue v.data_frames;
    mgmt_frames = HasFrames-drop _ s.mqueue v.mgmt_frames;
    rx_frames = v.rx_frames;
  },
)

act-Queued : (a : Act) (s : Kernel) → Queued s → (s' : Kernel) × (act a s ≡ ok s') × Queued s'
unfolding act
act-Queued (data_frame env skb seq rate) s v = (_, refl, enq_uqueue-Queued env skb s v seq rate)
act-Queued (retransmission env skb rate) s v = (_, refl, retrx-Queued env skb s v rate)
act-Queued (dack_frame env skb) s v = (_, refl, add_dack-Queued env skb s v)
act-Queued (mgmt_frame env skb) s v = (_, refl, add_mgmt-Queued env skb s v)
act-Queued (round env) s v = queuethread-Queued env s v

-- From a state whose queued entries all hold frames, every history of appends and rounds of
-- `queuethread` runs without a fault, whatever the kernel answers, and ends in such a state.
pub acts-Queued :
    (history : List Act) (s : Kernel)
    → Queued s
    → (s' : Kernel) × (acts history s ≡ ok s') × Queued s'
unfolding acts
acts-Queued [] s v = (s, refl, v)
acts-Queued (a ∷ rest) s v =
    let (s1, e, v1) = act-Queued a s v in
    let (s2, e2, v2) = acts-Queued rest s1 v1 in (s2, rw e e2, v2)
