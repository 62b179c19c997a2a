-- ===== src/Kernel.antt =====
-- The state of the module, its global variables and the traces of its effects, and what the kernel
-- answers to its calls. An operation takes both and returns the new state, or the fault that stops
-- the kernel. Numbers of bytes, jiffies and rates are the values of their C types.
use v_mac_kernel.Prelude.{
  ℕ, ◌+◌, ◌-◌, ◌^◌, List, [], ◌∷◌, ◌++◌, Bool, Option, none, some, drop, length,
}
use v_mac_kernel.Skb.{Skb, Ptr, null, to, wild}
use v_mac_kernel.Structs.{EncodingTx, EncodingRx, VmacQueue}
use v_mac_kernel.Table.{Table}

-- A message to user space: its `nlmsg_len`, the `struct control` in front and the copied bytes.
pub record Control : Type 0 where
  pub enc : ℕ
  pub seq : ℕ
  pub type : ℕ
  pub bwsg : ℕ
  pub rate_idx : ℕ
  pub signal : ℕ

pub record Message : Type 0 where
  pub pid : ℕ
  pub len : ℕ
  pub control : Control
  pub payload : List ℕ

-- The lists `uqueue`, `mqueue`, `rx_upper` and `dqueue` stand in the order of `list_add_tail`.
-- `aired` is what `local->ops->tx` was given, `sent` what `nlmsg_unicast` was given, `freed` which buffers were
-- freed; the newest last. `kmallocs` and `skbs` count the allocations of entries and of buffers.
pub record Kernel : Type 0 where
  pub rx_enc : Table EncodingRx
  pub tx_enc : Table EncodingTx
  pub uqueue : List VmacQueue
  pub mqueue : List VmacQueue
  pub rx_upper : List VmacQueue
  pub dqueue : List VmacQueue
  pub dackreqnum : ℕ
  pub pidt : ℕ
  pub aired : List Skb
  pub sent : List Message
  pub freed : List ℕ
  pub kmallocs : ℕ
  pub skbs : ℕ

-- `struct ieee80211_rx_status` of a received buffer, as far as the code reads it: whether `bw` is
-- RATE_INFO_BW_40, whether `enc_flags` has RX_ENC_FLAG_SHORT_GI and `encoding` RX_ENC_HT.
pub record RxStatus : Type 0 where
  pub bw40 : Bool
  pub short_gi : Bool
  pub ht : Bool
  pub rate_idx : ℕ
  pub signal : ℕ

-- The kernel's side of a call.
pub record Env : Type 0 where
  -- `hash_min` of a key, to five bits
  pub hash : ℕ → ℕ
  pub jiffies : ℕ
  pub msecs_to_jiffies : ℕ → ℕ
  -- the n-th queue entry that is asked for, with what its memory holds
  pub kmalloc : ℕ → Option VmacQueue
  -- the n-th buffer that is asked for: its number and what its memory holds
  pub new_skb : ℕ → Option (ℕ × List ℕ)
  -- the memory of a new struct
  pub vmalloc_rx : Option EncodingRx
  pub vmalloc_tx : Option EncodingTx
  -- whether `spin_trylock` of a `dacklok` succeeds
  pub trylock : Bool
  -- the `long` that `get_random_bytes` gives, as its bit pattern
  pub random : ℕ
  -- whether the n-th `get_stats` of a pass over the queues finds a free slot
  pub slot : ℕ → Bool
  -- the eight bytes of the stack that `struct ieee80211_hdr` has behind its third address
  pub stack : List ℕ
  -- the control block of the buffer that is received
  pub status : RxStatus

pub data Fault : Type 0 where
  null_dereference divide_error wild_pointer bad_length : Fault

pub data Outcome {ℓ} (A : Type ℓ) : Type ℓ where
  ok : A → Outcome A
  oops : Fault → Outcome A

infixl 5 ◌>>=◌
abbrev pub ◌>>=◌ {ℓ κ} : {A : Type ℓ} {B : Type κ} → Outcome A → (A → Outcome B) → Outcome B
ok a >>= f = f a
oops e >>= f = oops e

-- `int pidt = -1`, as the bit pattern.
abbrev pub no_pid : ℕ
no_pid = 2 ^ 32 - 1

-- `skb_copy` of a buffer, which may fail.
unfoldable pub skb_copy : Env → Skb → Kernel → Ptr × Kernel
skb_copy env skb s = elim (env.new_skb s.skbs) [
  | none ↦ (null, record s { skbs = s.skbs + 1 })
  | some (id, memory) ↦ (
    to (record skb { id = id; beyond = drop (length skb.bytes) memory }),
    record s { skbs = s.skbs + 1 },
  )
]

-- `dev_alloc_skb`
unfoldable pub dev_alloc_skb : Env → Kernel → Ptr × Kernel
dev_alloc_skb env s = elim (env.new_skb s.skbs) [
  | none ↦ (null, record s { skbs = s.skbs + 1 })
  | some (id, memory) ↦ (
    to (record { id = id; bytes = []; beyond = memory; flags = []; priority = 0 }),
    record s { skbs = s.skbs + 1 },
  )
]

-- `kfree_skb`, which does nothing for `NULL`.
unfoldable pub kfree_skb : Ptr → Kernel → Outcome Kernel
kfree_skb null s = ok s
kfree_skb (to skb) s = ok (record s { freed = s.freed ++ skb.id ∷ [] })
kfree_skb wild s = oops wild_pointer
