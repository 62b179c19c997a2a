-- ===== src/Main/LossTests.antt =====
-- A receiver that has lost frame 2 of five, and the sender that holds them.
use v_mac_kernel.Prelude.{
  ℕ, zero, suc, ◌+◌, ◌%◌, ◌≤◌, ◌<◌, ◌≡◌, refl, inl, inr, List, [], ◌∷◌, ◌++◌, some, Bool, true, not,
  ltb, ◌&&◌, ◌==◌, arith, if◌then◌else◌, get_or, replicate, get_or-replicate, All, In,
}
use v_mac_kernel.Skb.{Skb, null, to}
use v_mac_kernel.Structs.{EncodingRx, EncodingTx}
use v_mac_kernel.Table.{find, last}
use v_mac_kernel.Kernel.{Kernel, Env, ok}
use v_mac_kernel.Samples.{frame, entry, env, start}
use v_mac_kernel.Samples.Entries.{unheard, garbage}
use v_mac_kernel.Tx.{framed}
use v_mac_kernel.Queue.{queuethread}
use v_mac_kernel.Dack.{dack_frame}
use v_mac_kernel.Dack.Scan.{slot, scan_start, back, forward, scan, find_holes}
use v_mac_kernel.Rx.{vmac_rx}
use v_mac_kernel.Rx.Sliding.{Represents}
use v_mac_kernel.Rx.Dispatch.{holding}
use v_mac_kernel.Rx.Pending.{Grants, Holds, Distinct}
use v_mac_kernel.Rx.Recovered.{Answers, Recovered, lost_copied}
use v_mac_kernel.Main.Redelivered.{Loss, Holder}
use v_mac_kernel.Main.AllReturned.{Losses, hear_all, messages, all_returned}

-- Frame `i` has the one byte `i`, and its headers.
abbrev sent_frame : ℕ → Skb
sent_frame i = framed 7 i (frame i)

abbrev content : ℕ → List ℕ
content i = (sent_frame i).bytes

abbrev holder : EncodingTx
holder = record garbage {
  seq = 5;
  timer = replicate 500 0;
  retransmission_buffer =
      to (sent_frame 0)
      ∷ to (sent_frame 1)
      ∷ to (sent_frame 2)
      ∷ to (sent_frame 3)
      ∷ to (sent_frame 4)
      ∷ replicate 495 null;
}

holder-Holds : Holds content 5 holder
holder-Holds zero lo hi = (sent_frame 0, refl, refl)
holder-Holds (suc zero) lo hi = (sent_frame 1, refl, refl)
holder-Holds (suc (suc zero)) lo hi = (sent_frame 2, refl, refl)
holder-Holds (suc (suc (suc zero))) lo hi = (sent_frame 3, refl, refl)
holder-Holds (suc (suc (suc (suc zero)))) lo hi = (sent_frame 4, refl, refl)
holder-Holds (suc (suc (suc (suc (suc i))))) lo hi = absurd (omega arith)

abbrev loser : EncodingRx
loser = record unheard { window = 1 ∷ 1 ∷ 0 ∷ 1 ∷ 1 ∷ replicate 695 0; latest = 4 }

holder-Answers : Answers content 1 5 loser.window holder
holder-Answers = record {
  holds = holder-Holds;
  sent = omega arith;
  late = λ i l. omega arith;
  edge = λ i l e. omega (arith, l.high);
  ripe = λ i l. rw (get_or-replicate {A = ℕ} 500 (i % 500) 0 0 (omega arith)) (omega arith);
}

-- All slots are free.
abbrev free : Env
free = record env { slot = λ n. true }

granting-Grants : Grants env
granting-Grants = record { skb = λ n. ((n, []), refl); entry = λ n. (entry, refl) }

abbrev sending : Kernel
sending = record start { tx_enc = record { chain = λ b. holder ∷ [] } }

sends : find env.hash 7 sending.tx_enc ≡ some holder
unfolding find last
sends = refl

sending-Holder : Holder env free content 7 1 loser.window holder sending
sending-Holder = record {
  grants = granting-Grants;
  answers = holder-Answers;
  entry = sends;
  no_mgmt = refl;
  data_frames = tt;
  slots = λ i. refl;
  stack = refl;
}

abbrev got : ℕ → Bool
got s = ltb s 5 && not (s == 2)

loser-Represents : Represents loser got
loser-Represents = record { size = refl; slots = slots; timed = inl refl }
  where
    slots :
        (s : ℕ) → s ≤ 4 → 4 < s + 700 → get_or loser.window (s % 700) 0 ≡ (if got s then 1 else 0)
    slots zero a b = refl
    slots (suc zero) a b = refl
    slots (suc (suc zero)) a b = refl
    slots (suc (suc (suc zero))) a b = refl
    slots (suc (suc (suc (suc zero)))) a b = refl
    slots (suc (suc (suc (suc (suc s))))) a b = absurd (omega arith)

loser-Loss : Loss 1 2 loser
unfolding find_holes scan back forward
loser-Loss = record {
  fence = inr (omega arith);
  few = omega arith;
  short = omega arith;
  low = omega arith;
  high = omega arith;
  gone = refl;
}

abbrev losing : Kernel
losing = record start { pidt = 77; rx_enc = record { chain = λ b. loser ∷ [] } }

losing-awaits : find env.hash 7 losing.rx_enc ≡ some loser
unfolding find last
losing-awaits = refl

abbrev room : Skb
room = record { id = 8; bytes = []; beyond = []; flags = []; priority = 0 }

lost_copied_example :
    (s' : Kernel) × (vmac_rx env
        (to (
          holding
            (frame 3)
            ((dack_frame 7 1 (find_holes 0 loser.window 5).0 room).bytes ++ (0 ∷ 0 ∷ 0 ∷ 0 ∷ []))))
        sending
      ≡ ok s')
    × Recovered content loser.window 5 sending s'
lost_copied_example =
    lost_copied env granting-Grants content 7 1 0 loser.window (0 ∷ 0 ∷ 0 ∷ 0 ∷ []) holder room
      (frame 3) sending loser-Loss.fence loser-Loss.few loser-Loss.short holder-Answers
      (omega arith) (omega arith) refl sends

abbrev checksum : List ℕ
checksum = 0 ∷ 0 ∷ 0 ∷ 0 ∷ []

loser-Losses : Losses 1 loser
unfolding find_holes scan back forward
loser-Losses = record {
  fence = inr (omega arith);
  few = omega arith;
  short = omega arith;
  ended = omega arith;
  near = λ i l. omega arith;
}

all_returned_example :
    (s1 s2 t' : Kernel) × (xs ys : List Skb) × (is : List ℕ) × (vmac_rx env
        (to (
          holding
            (frame 3)
            ((dack_frame 7 1 (find_holes 0 loser.window 5).0 room).bytes ++ checksum)))
        sending
      ≡ ok s1)
    × (queuethread free s1 ≡ ok s2)
    × (s2.aired ≡ ([] ++ xs) ++ ys)
    × (hear_all env (frame 4) checksum xs losing ≡ ok t')
    × (t'.sent ≡ [] ++ messages env losing 7 (λ i. i ∷ []) is)
    × Distinct is
    × All (λ i. slot loser.window i ≡ 0) is
    × ((f : ℕ) → scan_start 5 ≤ f → f + 1 < 5 → slot loser.window f ≡ 0 → In f is)
all_returned_example =
    all_returned env free env 7 1 (λ i. i ∷ []) checksum checksum room (frame 3) (frame 4) holder
      loser got sending losing (omega arith) (omega arith) refl refl loser-Losses sending-Holder
      losing-awaits loser-Represents (λ e. absurd (omega arith)) granting-Grants
