-- ===== src/Queue.antt =====
-- vmac/queue.c: the queues between the handlers and the two threads that empty them. Each append is
-- `list_add_tail` under the queue's lock; a failed `kmalloc` loses the frame without a trace.
pub mod Priority
pub mod Append
pub mod Drain
pub mod Carry
mod Tests
use v_mac_kernel.Prelude.{
  ℕ, ◌+◌, List, [], ◌∷◌, ◌++◌, Option, none, some, ◌==◌, if◌then◌else◌, drop,
}
use v_mac_kernel.Skb.{Ptr, to}
use v_mac_kernel.Structs.{VmacQueue}
use v_mac_kernel.Kernel.{Kernel, Env, Outcome, ok, oops, ◌>>=◌}
use v_mac_kernel.LowTx.{vmac_low_tx}

-- `queue_init` and, for `dqueue`, `dack_init`: the lists start empty.
pub queue_init : Kernel → Kernel
queue_init s = record s { uqueue = []; mqueue = []; rx_upper = [] }

-- One more `kmalloc` has been asked for.
abbrev pub allocated : Kernel → Kernel
allocated s = record s { kmallocs = s.kmallocs + 1 }

-- `enq_uqueue`
unfoldable pub enq_uqueue : Env → Ptr → ℕ → ℕ → Kernel → Kernel
enq_uqueue env skb seq rate s = elim (env.kmalloc s.kmallocs) [
  | none ↦ allocated s
  | some entry ↦ record (allocated s) {
    uqueue = s.uqueue ++ record entry { frame = skb; rate = rate; seq = seq } ∷ [];
  }
]

-- `retrx`
unfoldable pub retrx : Env → Ptr → ℕ → Kernel → Kernel
retrx env skb rate s = elim (env.kmalloc s.kmallocs) [
  | none ↦ allocated s
  | some entry ↦ record (allocated s) {
    mqueue = s.mqueue ++ record entry { frame = skb; rate = rate } ∷ [];
  }
]

-- `add_DACK`
unfoldable pub add_dack : Env → Ptr → Kernel → Kernel
add_dack env skb s = elim (env.kmalloc s.kmallocs) [
  | none ↦ allocated s
  | some entry ↦ record (allocated s) {
    mqueue = s.mqueue ++ record entry { frame = skb; rate = 1 } ∷ [];
  }
]

-- `add_mgmt`
unfoldable pub add_mgmt : Env → Ptr → Kernel → Kernel
add_mgmt env skb s = elim (env.kmalloc s.kmallocs) [
  | none ↦ allocated s
  | some entry ↦ record (allocated s) { rx_upper = s.rx_upper ++ record entry { frame = skb } ∷ [] }
]

-- 13 + 0x40 + 0x80, "30 Mbps"
abbrev pub default_rate : ℕ
default_rate = 13 + 0x40 + 0x80

-- The first loop of `queuethread`: `calls` counts the calls of `get_stats`. The list is the part of
-- `mqueue` from `pos` on; `pos`, the first entry, leaves `mqueue` once its frame is with the driver.
unfoldable pub drain_mgmt : Env → ℕ → List VmacQueue → Kernel → Outcome (ℕ × Kernel)
drain_mgmt env calls [] s = ok (calls, s)
drain_mgmt env calls (e ∷ q) s =
    if env.slot calls
    then (vmac_low_tx env e.frame default_rate s >>= λ s'.
        drain_mgmt env (calls + 1) q (record s' { mqueue = drop 1 s'.mqueue }))
    else ok (calls + 1, s)

pub rate_of : VmacQueue → ℕ
rate_of e = if e.rate == 255 then default_rate else e.rate

-- Its second loop, over `uqueue`.
pub drain_data : Env → ℕ → List VmacQueue → Kernel → Outcome Kernel
unfolding rate_of
drain_data env calls [] s = ok s
drain_data env calls (e ∷ q) s =
    if env.slot calls
    then (vmac_low_tx env e.frame (rate_of e) s >>= λ s'.
        drain_data env (calls + 1) q (record s' { uqueue = drop 1 s'.uqueue }))
    else ok s

-- One round of `queuethread`, in which nothing is appended.
unfoldable pub queuethread : Env → Kernel → Outcome Kernel
unfolding drain_mgmt drain_data
queuethread env s = drain_mgmt env 0 s.mqueue s >>= λ (calls, s'). drain_data env calls s'.uqueue s'

-- One round of `rqueuethread`: `vmac_rx` is an argument, since it stands above the queues.
unfoldable pub rqueuethread :
    (Ptr → Kernel → Outcome Kernel) → List VmacQueue → Kernel → Outcome Kernel
rqueuethread vmac_rx [] s = ok s
rqueuethread vmac_rx (e ∷ q) s =
    vmac_rx e.frame s >>= λ s'. rqueuethread vmac_rx q (record s' { rx_upper = drop 1 s'.rx_upper })
