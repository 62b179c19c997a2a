-- ===== src/Main/LateTests.antt =====
-- A receiver that has lost frame 650 of 655, and the sender, whose buffer has taken later frames in since its first.
use v_mac_kernel.Prelude.{
  ℕ, ◌+◌, ◌%◌, ◌≤◌, ◌<◌, ◌≡◌, refl, ◌∙◌, inl, inr, List, [], ◌∷◌, ◌++◌, some, Bool, true, not, ◌==◌,
  arith, if◌then◌else◌, get_or, get_or-set_ne, length-set, length-replicate, set, replicate,
  get_or-replicate, In,
}
use native.Mathlib.Decide.{ℕ_discrete}
use v_mac_kernel.Skb.{Skb, Ptr, null, to}
use v_mac_kernel.Structs.{EncodingRx, EncodingTx}
use v_mac_kernel.Table.{find, last}
use v_mac_kernel.Kernel.{Kernel, Env, ok}
use v_mac_kernel.Samples.{frame, entry, env, start}
use v_mac_kernel.Samples.Entries.{unheard, garbage}
use v_mac_kernel.Tx.{framed}
use v_mac_kernel.Queue.{queuethread, rqueuethread}
use v_mac_kernel.Dack.{prep_dack, send_dack}
use v_mac_kernel.Dack.Scan.{back, forward, scan, find_holes}
use v_mac_kernel.Rx.{vmac_rx, ieee80211_rx_vmac}
use v_mac_kernel.Rx.Sliding.{Represents}
use v_mac_kernel.Rx.Dispatch.{holding}
use v_mac_kernel.Rx.Data.{fresh, Delivered}
use v_mac_kernel.Rx.Pending.{Grants, Holds}
use v_mac_kernel.Rx.Recovered.{Answers, IsLost}
use v_mac_kernel.Main.Redelivered.{Loss, Holder}
use v_mac_kernel.Main.Returned.{Asker, Answerer, lost_returned}

abbrev lost_frame : Skb
lost_frame = framed 7 650 (frame 2)

abbrev content : ℕ → List ℕ
content i = if i == 650 then lost_frame.bytes else (frame 9).bytes

abbrev ones : List ℕ
ones = replicate 700 1

abbrev loser : EncodingRx
loser = record unheard { window = set ones 650 0; latest = 654 }

abbrev others : List Ptr
others = replicate 500 (to (frame 9))

abbrev holder : EncodingTx
holder = record garbage {
  seq = 655;
  timer = replicate 500 0;
  retransmission_buffer = set others 150 (to lost_frame);
}

abbrev got : ℕ → Bool
got s = not (s == 650)

loser-Represents : Represents loser got
loser-Represents = record {
  size = length-set ones 650 0 ∙ length-replicate {A = ℕ} 700 1;
  slots = slots;
  timed = inl refl;
}
  where
    slots :
        (s : ℕ)
        → s ≤ 654
        → 654 < s + 700
        → get_or loser.window (s % 700) 0 ≡ (if got s then 1 else 0)
    slots s lo hi = elim (ℕ_discrete s 650) [
      | yes e ↦ ground (arith, e)
      | no ne ↦ ground (
        arith,
        get_or-set_ne ones 650 (s % 700) 0 0 (λ e. ne (omega (arith, e))),
        get_or-replicate {A = ℕ} 700 (s % 700) 1 0 (omega arith),
      )
    ]

-- Only frame 650 is lost.
lost_one : (i : ℕ) → IsLost loser.window 655 i → i ≡ 650
lost_one i l = elim (ℕ_discrete i 650) [
  | yes e ↦ e
  | no ne ↦
      let there : get_or loser.window (i % 700) 0 ≡ 1 =
        get_or-set_ne ones 650 (i % 700) 0 0 (λ e. ne (omega (arith, e, l.high)))
        ∙ get_or-replicate {A = ℕ} 700 (i % 700) 1 0 (omega arith) in
      absurd (omega (arith, there, l.gone))
]

holder-Holds : Holds content 655 holder
holder-Holds i lo hi = elim (ℕ_discrete i 650) [
  | yes e ↦ (lost_frame, rw e refl, rw e refl)
  | no ne ↦ (
    frame 9,
    get_or-set_ne others 150 (i % 500) (to lost_frame) null (λ e. ne (omega (arith, e, lo, hi)))
        ∙ get_or-replicate 500 (i % 500) (to (frame 9)) null (omega arith),
    ground (arith, ne),
  )
]

holder-Answers : Answers content 131 655 loser.window holder
holder-Answers = record {
  holds = holder-Holds;
  sent = omega arith;
  late = λ i l. omega (arith, lost_one i l);
  edge = λ i l e. omega (arith, lost_one i l, e);
  ripe = λ i l. rw (get_or-replicate {A = ℕ} 500 (i % 500) 0 0 (omega arith)) (omega arith);
}

loser-Loss : Loss 131 650 loser
unfolding find_holes scan back forward
loser-Loss = record {
  fence = inr (omega arith);
  few = omega arith;
  short = omega arith;
  low = omega arith;
  high = omega arith;
  gone = refl;
}

-- All slots are free.
abbrev free : Env
free = record env { slot = λ n. true }

granting-Grants : Grants env
granting-Grants = record { skb = λ n. ((n, []), refl); entry = λ n. (entry, refl) }

abbrev sending : Kernel
sending = record start { tx_enc = record { chain = λ b. holder ∷ [] } }

sends : find env.hash 7 sending.tx_enc ≡ some holder
unfolding find last
sends = refl

sending-Holder : Holder env free content 7 131 loser.window holder sending
sending-Holder = record {
  grants = granting-Grants;
  answers = holder-Answers;
  entry = sends;
  no_mgmt = refl;
  data_frames = tt;
  slots = λ i. refl;
  stack = refl;
}

abbrev losing : Kernel
losing = record start { pidt = 77; rx_enc = record { chain = λ b. loser ∷ [] } }

losing-awaits : find env.hash 7 losing.rx_enc ≡ some loser
unfolding find last
losing-awaits = refl

losing-Asker : Asker env env free env 7 650 loser got losing
losing-Asker = record {
  awaits = losing-awaits;
  represents = loser-Represents;
  near = omega arith;
  tame = λ h w. cc;
  free = refl;
  room = (0, []);
  granted = refl;
  hash2 = refl;
  free2 = refl;
  item = entry;
  entry = refl;
  mgmt_frames = tt;
  data_frames = tt;
  slots = λ i. refl;
  stack = refl;
  registered = λ e. absurd (omega arith);
  hash4 = refl;
  grants = granting-Grants;
}

sending-Answerer : Answerer env env free content 7 131 loser.window holder sending
sending-Answerer = record { holder = sending-Holder; rx_upper = refl; item = entry; entry = refl }

abbrev checksum : List ℕ
checksum = 0 ∷ 0 ∷ 0 ∷ 0 ∷ []

lost_returned_example :
    (t1 t2 t3 t4 s1 s2 s3 : Kernel) × (x y : Skb) × (r' : EncodingRx) × (prep_dack env 7 131 losing
      ≡ ok t1)
    × (send_dack env 7 t1 ≡ ok t2)
    × (queuethread free t2 ≡ ok t3)
    × In x t3.aired
    × (ieee80211_rx_vmac env (holding (frame 3) (x.bytes ++ checksum)) sending ≡ ok s1)
    × (rqueuethread (vmac_rx env) s1.rx_upper s1 ≡ ok s2)
    × (queuethread free s2 ≡ ok s3)
    × In y s3.aired
    × (ieee80211_rx_vmac env (holding (frame 4) (y.bytes ++ checksum)) t3 ≡ ok t4)
    × (fresh r'.latest 650 got ≡ true)
    × Delivered env 7 650 (frame 4) (frame 2).bytes r' got t3 t4
lost_returned_example =
    lost_returned env env free env env env free content 7 131 650 (frame 2).bytes checksum checksum
      (frame 3) (frame 4) holder loser got sending losing (omega arith) (omega arith) refl refl
      loser-Loss losing-Asker sending-Answerer
