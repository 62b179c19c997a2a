-- ===== src/Rx/Tests.antt =====
-- Runs of the receive path.
use v_mac_kernel.Prelude.{
  ℕ, ◌≤◌, ◌<◌, ◌≡◌, ◌≢◌, refl, ◌⊎◌, inl, List, [], ◌∷◌, ◌++◌, none, some, true, false, arith,
  length-replicate, replicate, get_or-replicate,
}
use v_mac_kernel.Skb.{Skb, null, to, wild}
use v_mac_kernel.Structs.{EncodingRx, EncodingTx, clean_enc_tx}
use v_mac_kernel.Table.{find, last}
use v_mac_kernel.Wire.{VmacHole, hdr_bytes, data_bytes, hole_bytes, hdr_interest, hdr_data}
use v_mac_kernel.Kernel.{Kernel, Env, ok, oops, wild_pointer, ◌>>=◌, skb_copy}
use v_mac_kernel.LowTx.{vmac_low_tx}
use v_mac_kernel.Queue.{retrx, queuethread, drain_mgmt}
use v_mac_kernel.Samples.{frame, entry, env, start}
use v_mac_kernel.Samples.Entries.{unheard, nothing, unheard-Represents}
use v_mac_kernel.Rx.{vmac_rx, ieee80211_rx_vmac}
use v_mac_kernel.Rx.Window.{duplicate, receive}
use v_mac_kernel.Rx.Sliding.{receives}
use v_mac_kernel.Rx.Receive.{Accepts, receive_refines}
use v_mac_kernel.Rx.Stream.{deliver, deliver-firsts}
use v_mac_kernel.Rx.Retransmit.{
  Resend, resend_hole, resend_holes, requeue, fetch, buffer_at, copy_ptr,
}
use v_mac_kernel.Rx.Serving.{IsServing, resend_holes-Serves}
use v_mac_kernel.Rx.Pacing.{resend_hole_again}
use v_mac_kernel.Rx.Dispatch.{holding, message, passed}
use v_mac_kernel.Rx.EndToEnd.{interest_delivered}
use v_mac_kernel.Rx.Data.{Delivered, vmac_rx-Delivered}
use v_mac_kernel.Dack.{dack_frame}
use v_mac_kernel.Rx.Report.{answered, report_answered}

receive_refines_example :
    ((false ≡ true) × (9 ≤ 0) × (receive 1000 9 unheard ≡ ok duplicate))
    ⊎ (((false ≡ false) ⊎ (0 < 9))
        × Accepts unheard 9 9 (receives 0 9 nothing) (receive 1000 9 unheard))
receive_refines_example =
    receive_refines 1000 9 unheard nothing unheard-Represents (omega arith) (omega arith)

abbrev stream : List (ℕ × ℕ)
stream = (1000, 3) ∷ (1010, 8) ∷ (1020, 3) ∷ (1030, 5) ∷ []

deliver-firsts_example : (r' : EncodingRx) × (deliver stream unheard ≡ ok (3 ∷ 8 ∷ 5 ∷ [], r'))
deliver-firsts_example =
    deliver-firsts stream unheard nothing unheard-Represents (λ s h. absurd (cc))
      (
        omega arith,
        omega arith,
        (omega arith, omega arith, (omega arith, omega arith, (omega arith, omega arith, tt))),
      )

-- A state that user space has registered with, with an entry for every encoding.
abbrev listening : Kernel
listening = record start { pidt = 77; rx_enc = record { chain = λ b. unheard ∷ [] } }

abbrev bytes : List ℕ
bytes = 1 ∷ 2 ∷ 3 ∷ []

abbrev checksum : List ℕ
checksum = 0 ∷ 0 ∷ 0 ∷ 0 ∷ []

registered : listening.pidt ≢ 4294967295
registered e = absurd (omega arith)

found_unheard : find env.hash 7 listening.rx_enc ≡ some unheard
unfolding find last
found_unheard = refl

vmac_rx-Delivered_example :
    (s' : Kernel) × (vmac_rx env
        (to (
          holding (frame 1) (
            hdr_bytes (record { enc = 7; type = hdr_data })
            ++ (data_bytes (record { seq = 6 }) ++ (bytes ++ checksum)))))
        listening
      ≡ ok s')
    × Delivered env 7 6 (frame 1) bytes unheard nothing listening s'
vmac_rx-Delivered_example =
    vmac_rx-Delivered env (frame 1) 7 6 bytes checksum listening unheard nothing (0, []) refl
      registered refl found_unheard unheard-Represents (omega arith) (omega arith) (omega arith)

interest_delivered_example :
    (x : Skb) × (vmac_low_tx env
        (to (holding (frame 1) (hdr_bytes (record { enc = 7; type = hdr_interest }) ++ bytes)))
        4
        start
      ≡ ok (record start { aired = [] ++ x ∷ [] }))
    × (ieee80211_rx_vmac env (holding (frame 2) (x.bytes ++ checksum)) listening
        ≡ ok (passed env listening (frame 2) (message env listening 7 hdr_interest 0 bytes)))
interest_delivered_example =
    interest_delivered env env start listening 4 (frame 1) (frame 2)
      (record { enc = 7; type = hdr_interest }) bytes checksum (0, []) (inl refl) (omega arith) refl
      refl registered refl

-- All slots are free.
abbrev every_slot : Env
every_slot = record env { slot = λ n. true }

-- An encoding of which five frames were sent.
abbrev sending : EncodingTx
sending = record {
  key = 7;
  clean = record { enc = 7; type = clean_enc_tx };
  retransmission_buffer = replicate 500 (to (frame 5));
  timer = replicate 500 0;
  seq = 5;
  offset = 0;
  retrxout = 0;
  prevtime = 0;
  prevround = 0;
  enc_timeout = none;
  dackcounter = 0;
  framecount = 5;
  round_inc = 0 ∷ 0 ∷ 0 ∷ [];
  round_dec = 0 ∷ 0 ∷ 0 ∷ [];
}

abbrev asked : Resend
asked = record { vmact = sending; counter = 0; skb2 = null; kernel = start }

-- All that is sent has the bytes of frame 5.
abbrev IsFive : List ℕ → Type 0
IsFive b = b ≡ (frame 5).bytes

asked-IsServing : IsServing true IsFive IsFive start.tx_enc 5 asked
asked-IsServing = record {
  entry = record {
    buffer_size = length-replicate 500 (to (frame 5));
    timer_size = length-replicate {A = ℕ} 500 0;
    copies = λ i h k. (frame 5, get_or-replicate 500 i (to (frame 5)) null h);
  };
  kept = λ i h k. (frame 5, get_or-replicate 500 i (to (frame 5)) null h, refl);
  sent = refl;
  held = inl refl;
  bounded = omega arith;
  carried = record { data_frames = tt; mgmt_frames = tt; rx_frames = tt; aired = tt };
  same = refl;
}

-- Frames 1 and 2, and then all from 4 on.
abbrev report : Skb
report = record (frame 3) {
  bytes = hole_bytes (record { le = 1; re = 3 }) ++ hole_bytes (record { le = 4; re = 65535 });
}

resend_holes-Serves_example :
    (st' : Resend) × (resend_holes env 1 5 2 report asked ≡ ok st')
    × IsServing true IsFive IsFive start.tx_enc 5 st'
resend_holes-Serves_example =
    resend_holes-Serves true IsFive IsFive start.tx_enc env 1 5 2 report asked (inl refl)
      asked-IsServing

-- The state after frame 1 was sent again in round 1.
abbrev resent : Resend
resent = record {
  vmact = record sending { timer = 0 ∷ 7 ∷ replicate 498 0; framecount = 6 };
  counter = 1;
  skb2 = wild;
  kernel = retrx env (to (record (frame 5) { id = 0 })) 255 (record start { skbs = 1 });
}

answers : resend_hole env 1 5 1 1 asked ≡ ok resent
unfolding resend_hole fetch requeue buffer_at copy_ptr skb_copy
answers = refl

-- A second DACK about frame 1 in round 1.
resend_hole_again_example :
    resend_hole env 1 5 1 1 (record resent { counter = 0; skb2 = null })
    ≡ ok (record resent { counter = 0; skb2 = null })
resend_hole_again_example =
    resend_hole_again env 1 5 1 1 asked resent (length-replicate {A = ℕ} 500 0) (omega arith)
      answers (omega arith) 1 1 (record resent { counter = 0; skb2 = null }) refl (omega arith)
      (omega arith)

-- After more than WINDOW_TX frames, number WINDOW_TX is tested behind the buffer: `skb2` is still the copy of the frame
-- before, which is queued a second time, and the second entry has a buffer that was given away.
abbrev stale : Resend
stale = record asked { vmact = record sending { seq = 600 } }

queued_twice :
    (resend_hole env 1 600 2 499 stale >>= λ st. ok st.kernel.mqueue)
    ≡ ok (
        record entry { frame = to (record (frame 5) { id = 0 }); rate = 255 }
        ∷ record entry { frame = wild; rate = 255 }
        ∷ [])
unfolding resend_hole fetch requeue buffer_at copy_ptr skb_copy retrx
queued_twice = refl

gone_before :
    (resend_hole env 1 600 2 499 stale >>= λ st. queuethread every_slot st.kernel)
    ≡ oops wild_pointer
unfolding resend_hole fetch requeue buffer_at copy_ptr skb_copy retrx queuethread drain_mgmt
    vmac_low_tx
gone_before = refl

abbrev requested : Kernel
requested = record start { tx_enc = record { chain = λ b. sending ∷ [] } }

found_sending : find env.hash 7 requested.tx_enc ≡ some sending
unfolding find last
found_sending = refl

abbrev missing : List VmacHole
missing = record { le = 1; re = 3 } ∷ record { le = 4; re = 5 } ∷ []

report_answered_example :
    vmac_rx env
      (to (
        holding
          (frame 2)
          ((dack_frame 7 1 missing (record (frame 3) { bytes = [] })).bytes ++ checksum)))
      requested
    ≡ answered env 7 1 missing sending (frame 2) requested
report_answered_example =
    report_answered env 7 1 missing checksum sending (record (frame 3) { bytes = [] }) (frame 2)
      requested (omega arith, omega arith, (omega arith, omega arith, tt)) (omega arith)
      (omega arith) (omega arith) refl found_sending
