-- ===== src/Dack/Tests.antt =====
-- Runs of the making and the sending of DACKs.
use v_mac_kernel.Prelude.{
  ℕ, ◌-◌, ◌*◌, ◌%◌, ◌^◌, ◌≤◌, ◌≡◌, refl, ◌⊎◌, inr, List, [], ◌∷◌, ◌++◌, none, some, ◌==◌,
  if◌then◌else◌, leb, arith, length, replicate,
}
use v_mac_kernel.Skb.{null, to}
use v_mac_kernel.Structs.{EncodingRx, clean_enc_rx, holes_max}
use v_mac_kernel.Table.{find, last}
use v_mac_kernel.Kernel.{Kernel, ok}
use v_mac_kernel.Samples.{frame, entry, env, start}
use v_mac_kernel.Dack.{rndm_of, schedule_dack, send_dack, dackgen}
use v_mac_kernel.Dack.Undisturbed.{Serviceable}
use v_mac_kernel.Dack.Requests.{dackgen_serves}
use v_mac_kernel.Dack.Scan.{scan_start, back, forward, scan, find_holes}
use v_mac_kernel.Dack.Holes.{Chain, Complete, total}
use v_mac_kernel.Dack.Complete.{find_holes_lem, scan_fuel}
use v_mac_kernel.Dack.Delay.{
  delay, delay_lem, number, Holds, queued_dack, schedule_dack-Holds, send_dack_once,
}

-- Of the frames 0 to 9, frames 2, 3 and 6 are lost.
abbrev window : List ℕ
window = 1 ∷ 1 ∷ 0 ∷ 0 ∷ 1 ∷ 1 ∷ 0 ∷ replicate 693 1

found : find_holes 0 window 10 ≡ (record { le = 2; re = 4 } ∷ record { le = 6; re = 7 } ∷ [], 3)
unfolding find_holes scan back forward
found = refl

find_holes_lem_example :
    let (hs, loss) = find_holes 0 window 10 in
    Chain window (scan_start 10) 10 (scan_start 10) hs 10
    × (length hs ≤ holes_max)
    × ((length hs ≡ holes_max) ⊎ Complete window (scan_start 10) 10 hs 10)
    × (loss ≡ total hs % 256)
find_holes_lem_example = find_holes_lem 0 window 10 (inr (λ e. absurd (omega arith)))

scan_fuel_example : scan 10 0 window 10 0 [] 0 ≡ scan 700 0 window 10 0 [] 0
scan_fuel_example = scan_fuel 0 window 10 10 700 0 [] 0 (omega arith) (omega arith)

delay_lem_example :
    ((1 ≤ delay 20 3 8) × (delay 20 3 8 ≤ 100))
    ⊎ ((◌≡◌ {A = ℕ} 3 5)
        × (rndm_of 8 ≡ 2 ^ 64 - 1)
        × (delay 20 3 8 ≡ 2 ^ 64 - 2 * (if leb 100 20 then 100 else 20)))
delay_lem_example = delay_lem 20 3 8 (omega arith)

-- An entry whose DACK, frame 4, waits.
abbrev waiting : EncodingRx
waiting = record {
  key = 7;
  clean = record { enc = 7; type = clean_enc_rx };
  before_window = 0;
  window = window;
  alpha = 12;
  first_frame = 0;
  second_frame = 0;
  lastin = 9;
  latest = 9;
  dac_info = record { send = 1; dack_counter = 0; round = 1; dacksheard = 0; dack = to (frame 4) };
  round = 5;
  offset = 0;
  dacksent = 0;
  dack = null;
  enc_timeout = none;
  dack_timer = some 1010;
}

abbrev receiving : Kernel
receiving = record start { rx_enc = record { chain = λ b. waiting ∷ [] } }

found_waiting : find env.hash 7 receiving.rx_enc ≡ some waiting
unfolding find last
found_waiting = refl

schedule_dack-Holds_example :
    (s' : Kernel) × (schedule_dack env 7 2 waiting (frame 6) 3 receiving ≡ ok s')
    × Holds env 7 (frame 6) s'
    × (s'.freed ≡ (if 1 == 1 then [] ++ number (to (frame 4)) else []))
schedule_dack-Holds_example =
    schedule_dack-Holds env 7 2 3 waiting (frame 6) receiving found_waiting refl
      (λ a e. absurd (cc))

receiving-Holds : Holds env 7 (frame 4) receiving
receiving-Holds = record { entry = waiting; found = found_waiting; armed = refl; stored = refl }

send_dack_once_example :
    (s1 s2 : Kernel) × (send_dack env 7 receiving ≡ ok s1)
    × (s1.mqueue ≡ queued_dack (some entry) (to (frame 4)) [])
    × (send_dack (record env { jiffies = 2000 }) 7 s1 ≡ ok s2)
    × (s2.mqueue ≡ s1.mqueue)
send_dack_once_example =
    send_dack_once env (record env { jiffies = 2000 }) 7 (frame 4) receiving receiving-Holds refl
      refl

-- Two requests for the encoding of an entry.
abbrev asking : Kernel
asking = record start {
  rx_enc = record { chain = λ b. waiting ∷ [] };
  dqueue = record entry { enc = 7; seq = 2 } ∷ record entry { enc = 7; seq = 3 } ∷ [];
  dackreqnum = 2;
}

asking-finds : find env.hash 7 asking.rx_enc ≡ some waiting
unfolding find last
asking-finds = refl

asking-Serviceable : Serviceable env.hash 7 asking
asking-Serviceable = (waiting, asking-finds, λ h w. cc)

dackgen_serves_example :
    (s' : Kernel) × (dackgen
        ((env, record entry { enc = 7; seq = 2 }) ∷ (env, record entry { enc = 7; seq = 3 }) ∷ [])
        asking
      ≡ ok s')
    × (s'.dqueue ≡ [])
    × (s'.dackreqnum ≡ 0)
dackgen_serves_example =
    dackgen_serves env.hash
      ((env, record entry { enc = 7; seq = 2 }) ∷ (env, record entry { enc = 7; seq = 3 }) ∷ [])
      asking refl (refl, asking-Serviceable, (refl, asking-Serviceable, tt)) refl
