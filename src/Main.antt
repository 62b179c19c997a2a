-- ===== src/Main.antt =====
-- vmac/main.c: the module's start, and `nl_recv`, which takes messages from user space; with
-- `enq_usrqueue` of vmac/queue.c, which `nl_recv` hands a frame to.
pub mod Receive
pub mod Carried
pub mod Aired
pub mod Redelivered
pub mod Returned
pub mod AllReturned
mod Tests
mod LossTests
mod LateTests
use v_mac_kernel.Prelude.{
  ℕ, ◌+◌, ◌-◌, ◌^◌, List, [], Bool, ◌&&◌, ◌||◌, leb, ltb, ◌==◌, if◌then◌else◌, take, drop, true,
  false, not,
}
use v_mac_kernel.Words.{u8}
use v_mac_kernel.Skb.{Skb, null, to, wild, put}
use v_mac_kernel.Structs.{EncodingRx, EncodingTx}
use v_mac_kernel.Table.{hash_init}
use v_mac_kernel.Wire.{field, hdr_interest, hdr_data, hdr_announcement, hdr_injected}
use v_mac_kernel.Kernel.{
  Kernel, Env, no_pid, bad_length, wild_pointer, Outcome, ok, oops, ◌>>=◌, dev_alloc_skb,
}
use v_mac_kernel.Queue.{queue_init}
use v_mac_kernel.Tx.{vmac_tx}

-- A message of user space: the fields of its `struct nlmsghdr` that the code reads, and the memory from
-- `nlmsg_data` on, that behind the message included.
pub record UserMessage : Type 0 where
  pub len : ℕ
  pub type : ℕ
  pub pid : ℕ
  pub body : List ℕ

-- `sizeof(struct control)`: its fields are bytes.
abbrev pub control_size : ℕ
control_size = 15

-- `rxc.rate`, `rxc.enc` and `rxc.seq` as `enq_usrqueue` reads them.
unfoldable pub rate_in : List ℕ → ℕ
rate_in body = field 1 1 body

unfoldable pub enc_in : List ℕ → ℕ
enc_in body = field 2 8 body

unfoldable pub seq_in : List ℕ → ℕ
seq_in body = field 10 2 body

-- `enq_usrqueue`
unfoldable pub enq_usrqueue : Env → Skb → ℕ → ℕ → ℕ → ℕ → Kernel → Outcome Kernel
enq_usrqueue env skb2 enc type seq rate s = vmac_tx env skb2 enc type rate seq s

-- The types of frames that are passed on.
abbrev pub is_frame : ℕ → Bool
is_frame type =
    type == hdr_interest || (type == hdr_data || (type == hdr_announcement || type == hdr_injected))

-- `size`, an `int`, as far as `skb_put` takes it: a length under the 100 bytes that the code takes off,
-- or one whose difference does not fit an `int`, stops the kernel.
abbrev pub size_fits : ℕ → Bool
size_fits len = leb 100 len && ltb (len - 100) (2 ^ 31)

-- `nl_recv`. The type is a `u8` of the 16 bits of the header; whatever it is, the sender is remembered.
unfoldable pub nl_recv : Env → UserMessage → Kernel → Outcome Kernel
nl_recv env m s0 =
    let type = u8 m.type in
    let s1 = record s0 { pidt = m.pid } in
    if is_frame type
    then (let (skb2, s) = dev_alloc_skb env s1 in
        elim skb2 [
          | null ↦ ok s
          | wild ↦ oops wild_pointer
          | to room ↦
              if size_fits m.len
              then enq_usrqueue env (put (take (m.len - 100) (drop control_size m.body)) room)
                  (enc_in m.body) type (seq_in m.body) (rate_in m.body) s
              else oops bad_length
        ])
    else ok s1

-- `dack_init`
unfoldable pub dack_init : Kernel → Kernel
dack_init s = record s { dqueue = []; dackreqnum = 0 }

-- `vmac_init`: whether it succeeds, as `socket` says of `netlink_kernel_create`, and the state. The
-- threads, which it starts, run on in both cases.
unfoldable pub vmac_init : Bool → Kernel → Bool × Kernel
vmac_init socket s =
    let s1 = record s { tx_enc = hash_init; rx_enc = hash_init } in
    let s2 = record (dack_init (queue_init s1)) { pidt = no_pid } in (socket, s2)
