-- ===== src/Tx/Tests.antt =====
-- Runs of the transmit path.
use v_mac_kernel.Prelude.{
  ℕ, ◌+◌, ◌≡◌, refl, inr, List, [], ◌∷◌, arith, none, some, length-replicate, replicate,
}
use v_mac_kernel.Skb.{Ptr, to, wild, push}
use v_mac_kernel.Structs.{EncodingRx, EncodingTx, clean_enc_tx}
use v_mac_kernel.Table.{find, last}
use v_mac_kernel.Wire.{hdr_data, hdr_interest, hdr_bytes}
use v_mac_kernel.Kernel.{Kernel, Env, ok}
use v_mac_kernel.Samples.{frame, entry, env, start}
use v_mac_kernel.Samples.Entries.{garbage}
use v_mac_kernel.Tx.{new_tx, new_rx, framed, flagged, vmac_tx}
use v_mac_kernel.Tx.Steps.{queued_data}
use v_mac_kernel.Tx.Copies.{Sent, vmac_tx-Sent}
use v_mac_kernel.Tx.Contents.{Send, send_all, Stored, sends-Stored}
use v_mac_kernel.Tx.Interest.{interest_opens}

abbrev granting : Env
granting = record env { vmalloc_tx = some garbage }

unknown : find granting.hash 7 start.tx_enc ≡ none
unfolding find last
unknown = refl

-- The first frame of an encoding.
vmac_tx-Sent_example :
    (s' : Kernel) × (vmac_tx granting (frame 1) 7 hdr_data 4 0 start ≡ ok s')
    × Sent granting 7 4 (new_tx 7 garbage) (frame 1) start s'
vmac_tx-Sent_example =
    vmac_tx-Sent granting (frame 1) 7 4 0 start (new_tx 7 garbage) (0, [])
      (inr (
        garbage,
        unknown,
        refl,
        length-replicate {A = Ptr} 500 wild,
        length-replicate {A = ℕ} 500 97,
        refl,
      ))
      refl

abbrev stale : EncodingRx
stale = record {
  key = 99;
  clean = record { enc = 98; type = clean_enc_tx };
  before_window = 9;
  window = replicate 700 9;
  alpha = 9;
  first_frame = 9;
  second_frame = 9;
  lastin = 9;
  latest = 9;
  dac_info = record { send = 9; dack_counter = 9; round = 9; dacksheard = 9; dack = wild };
  round = 9;
  offset = 9;
  dacksent = 9;
  dack = wild;
  enc_timeout = none;
  dack_timer = none;
}

abbrev opening : Env
opening = record env { vmalloc_rx = some stale }

unheard : find opening.hash 7 start.rx_enc ≡ none
unfolding find last
unheard = refl

interest_opens_example :
    (s' : Kernel) × (vmac_tx opening (frame 1) 7 hdr_interest 4 0 start ≡ ok s')
    × (find opening.hash 7 s'.rx_enc
        ≡ some (record (new_rx 7 1000 stale) { enc_timeout = some (1000 + 30000) }))
    × (s'.uqueue
        ≡ queued_data
            (some entry)
            (to (flagged (push (hdr_bytes (record { enc = 7; type = hdr_interest })) (frame 1))))
            4
            [])
interest_opens_example =
    interest_opens opening (frame 1) 7 4 0 start (new_rx 7 1000 stale)
      (inr (stale, unheard, refl, refl))

-- Two frames of an encoding that is new.
abbrev two_sends : List Send
two_sends =
    record { env = granting; rate = 4; skb = frame 1 }
    ∷ record { env = granting; rate = 4; skb = frame 2 }
    ∷ []

abbrev two : ℕ → List ℕ
two i = (framed 7 i (frame (i + 1))).bytes

sends-Stored_example :
    (s' : Kernel) × (last : EncodingTx) × (send_all 7 two_sends start ≡ ok s')
    × (find granting.hash 7 s'.tx_enc ≡ some last)
    × (last.seq ≡ 2)
    × Stored two last
unfolding new_tx
sends-Stored_example =
    sends-Stored granting.hash 7 two (record { env = granting; rate = 4; skb = frame 1 })
      (record { env = granting; rate = 4; skb = frame 2 } ∷ []) start (new_tx 7 garbage)
      (inr (
        garbage,
        unknown,
        refl,
        length-replicate {A = Ptr} 500 wild,
        length-replicate {A = ℕ} 500 97,
        refl,
      ))
      (λ i lo hi. absurd (omega arith)) (λ i lo hi. absurd (omega arith)) (omega arith)
      (refl, (λ n. ((n, []), refl)), (refl, (λ n. ((n, []), refl)), tt)) (refl, (refl, tt))
