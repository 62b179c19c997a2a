-- ===== src/Clean.antt =====
-- vmac/clean.c: the removal of an encoding whose timeout has passed. A handler gets the entry of its
-- timer; here it is named by its encoding, which a lookup finds.
pub mod Leaves
mod Tests
use v_mac_kernel.Prelude.{ℕ, zero, suc, ◌+◌, List, Option, none, some, ltb, if◌then◌else◌, get_or}
use v_mac_kernel.Skb.{Ptr, null}
use v_mac_kernel.Structs.{
  CleanType, EncCleanup, clean_enc_rx, clean_enc_tx, EncodingRx, EncodingTx, window_tx,
}
use v_mac_kernel.Table.{find, update, remove}
use v_mac_kernel.Kernel.{Kernel, Env, wild_pointer, Outcome, ok, oops, ◌>>=◌, kfree_skb}
use v_mac_kernel.Dack.{with_rx}

-- The copies at `n` places from `i` on are freed.
unfoldable pub free_copies : ℕ → ℕ → List Ptr → Kernel → Outcome Kernel
free_copies zero i buffer s = ok s
free_copies (suc n) i buffer s = kfree_skb (get_or buffer i null) s >>= free_copies n (i + 1) buffer

-- `vmact->seq < WINDOW_TX ? vmact->seq : WINDOW_TX`
abbrev pub held : ℕ → ℕ
held seq = if ltb seq window_tx then seq else window_tx

-- `process`
unfoldable pub process : Env → EncCleanup → Kernel → Outcome Kernel
process env clean s = elim clean.type [
  | clean_enc_rx ↦ elim (find env.hash clean.enc s.rx_enc) [
    | none ↦ ok s
    | some vmacr ↦
        kfree_skb vmacr.dac_info.dack (record s { rx_enc = remove env.hash clean.enc s.rx_enc })
  ]
  | clean_enc_tx ↦ elim (find env.hash clean.enc s.tx_enc) [
    | none ↦ ok s
    | some vmact ↦ free_copies (held vmact.seq) 0 vmact.retransmission_buffer s >>= λ s'.
        ok (record s' { tx_enc = remove env.hash clean.enc s'.tx_enc })
  ]
]

-- `__cleanup_rx`
unfoldable pub cleanup_rx : Env → ℕ → Kernel → Outcome Kernel
cleanup_rx env enc s = elim (find env.hash enc s.rx_enc) [
  | none ↦ oops wild_pointer
  | some vmacr ↦
      let clean : EncCleanup = record (vmacr.clean) { type = clean_enc_rx } in
      process env clean (with_rx env enc (λ r. record r { clean = clean; enc_timeout = none }) s)
]

-- `__cleanup_tx`
unfoldable pub cleanup_tx : Env → ℕ → Kernel → Outcome Kernel
cleanup_tx env enc s = elim (find env.hash enc s.tx_enc) [
  | none ↦ oops wild_pointer
  | some vmact ↦
      let clean : EncCleanup = record (vmact.clean) { type = clean_enc_tx } in
      process env clean (record s {
        tx_enc = update env.hash enc (λ r. record r { clean = clean; enc_timeout = none }) s.tx_enc;
      })
]
