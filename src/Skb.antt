-- ===== src/Skb.antt =====
-- Socket buffers, as far as V-MAC uses them: `struct sk_buff` and the kernel's calls on it.
-- A buffer has a number that tells buffers apart, the bytes from `data` to `tail`, and the memory
-- behind `tail`, into which `skb_put` grows and which an unchecked read can reach. The headroom in
-- front of `data` is taken to suffice, as the allocations see to.
use v_mac_kernel.Prelude.{◌≡◌, refl, ◌⊎◌, inl, inr, ℕ, List, ◌++◌, length, drop, ltb, if◌then◌else◌}

-- The transmission flags that the code sets; `flags` of a control block is the list of those set.
pub data TxFlag : Type 0 where
  dontfrag dont_encrypt req_tx_status no_ack ack_policy_noack : TxFlag

pub record Skb : Type 0 where
  pub id : ℕ
  pub bytes : List ℕ
  pub beyond : List ℕ
  pub flags : List TxFlag
  pub priority : ℕ

-- A pointer to a buffer: `NULL`, a buffer, or a pointer that must not be followed: what memory holds that
-- nobody has written, or a pointer to a buffer that was given away.
pub data Ptr : Type 0 where
  null : Ptr
  to : Skb → Ptr
  wild : Ptr

-- What a read from `skb->data` on finds.
abbrev pub memory : Skb → List ℕ
memory s = s.bytes ++ s.beyond

-- `memcpy(skb_push(skb, n), …, n)`
abbrev pub push : List ℕ → Skb → Skb
push bs s = record s { bytes = bs ++ s.bytes }

-- `memcpy(skb_put(skb, n), …, n)`
abbrev pub put : List ℕ → Skb → Skb
put bs s = record s { bytes = s.bytes ++ bs; beyond = drop (length bs) s.beyond }

-- `skb_pull`, which leaves a buffer of fewer than `n` bytes as it is.
abbrev pub pull : ℕ → Skb → Skb
pull n s = if ltb (length s.bytes) n then s else record s { bytes = drop n s.bytes }

pub Ptr-cases : (p : Ptr) → (p ≡ null) ⊎ (((skb : Skb) × (p ≡ to skb)) ⊎ (p ≡ wild))
Ptr-cases null = inl refl
Ptr-cases (to skb) = inr (inl (skb, refl))
Ptr-cases wild = inr (inr refl)
