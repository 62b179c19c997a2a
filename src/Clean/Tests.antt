-- ===== src/Clean/Tests.antt =====
-- A run of the cleanup of a sender.
use v_mac_kernel.Prelude.{
  ℕ, zero, suc, ◌<◌, ◌≡◌, refl, [], ◌∷◌, some, arith, replicate, length-replicate, get_or,
}
use v_mac_kernel.Skb.{Skb, Ptr, null, to, wild}
use v_mac_kernel.Structs.{EncodingTx, clean_enc_tx, window_tx}
use v_mac_kernel.Table.{find, last}
use v_mac_kernel.Table.Lookup.{IsSparse}
use v_mac_kernel.Kernel.{Kernel, ok}
use v_mac_kernel.Samples.{frame, env, start}
use v_mac_kernel.Rx.Serving.{HasCopies}
use v_mac_kernel.Clean.{cleanup_tx}
use v_mac_kernel.Clean.Leaves.{Cleaned, cleanup_tx_lem}

-- Two frames were sent; the rest of the buffer was never written.
abbrev sender : EncodingTx
sender = record {
  key = 7;
  clean = record { enc = 7; type = clean_enc_tx };
  retransmission_buffer = to (frame 10) ∷ to (frame 11) ∷ replicate 498 wild;
  timer = replicate 500 0;
  seq = 2;
  offset = 0;
  retrxout = 0;
  prevtime = 0;
  prevround = 0;
  enc_timeout = some 31000;
  dackcounter = 0;
  framecount = 0;
  round_inc = 0 ∷ 0 ∷ 0 ∷ [];
  round_dec = 0 ∷ 0 ∷ 0 ∷ [];
}

abbrev before : Kernel
before = record start { tx_enc = record { chain = λ b. sender ∷ [] } }

known : find env.hash 7 before.tx_enc ≡ some sender
unfolding find last
known = refl

sender-HasCopies : HasCopies sender 2
sender-HasCopies = record {
  buffer_size = let e = length-replicate {A = Ptr} 498 wild in omega arith;
  timer_size = length-replicate {A = ℕ} 500 0;
  copies = place;
}
  where
    place :
        (i : ℕ)
        → i < window_tx
        → i < 2
        → (skb : Skb) × (get_or sender.retransmission_buffer i null ≡ to skb)
    place zero h k = (frame 10, refl)
    place (suc zero) h k = (frame 11, refl)
    place (suc (suc i)) h k = absurd (omega arith)

before-IsSparse : IsSparse before.tx_enc
before-IsSparse b = omega arith

cleanup_tx_lem_example :
    (s' : Kernel) × (cleanup_tx env 7 before ≡ ok s') × Cleaned env 7 sender before s'
cleanup_tx_lem_example =
    cleanup_tx_lem env 7 sender before known refl sender-HasCopies before-IsSparse
