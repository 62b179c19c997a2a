-- ===== src/Main/Tests.antt =====
-- Runs from user space to user space.
use v_mac_kernel.Prelude.{ℕ, ◌≡◌, refl, inr, [], ◌∷◌, ◌++◌, none, some, arith, length-replicate}
use v_mac_kernel.Skb.{Skb, Ptr, wild}
use v_mac_kernel.Table.{find, last}
use v_mac_kernel.Wire.{hdr_data, hdr_interest}
use v_mac_kernel.Kernel.{Kernel, Env, ok}
use v_mac_kernel.Queue.{queuethread}
use v_mac_kernel.Samples.{frame, entry, env, start}
use v_mac_kernel.Samples.Entries.{garbage, unheard, nothing, unheard-Represents}
use v_mac_kernel.Tx.{new_tx, vmac_tx}
use v_mac_kernel.Rx.{ieee80211_rx_vmac}
use v_mac_kernel.Rx.Dispatch.{holding}
use v_mac_kernel.Rx.Data.{Delivered}
use v_mac_kernel.Main.{nl_recv}
use v_mac_kernel.Main.Receive.{Request, user_message, Fits, buffer, nl_recv_lem}
use v_mac_kernel.Main.Carried.{Sender, Receiver, data_carried}

abbrev ask : Request
ask = record { type = hdr_interest; rate = 4; enc = 7; seq = 0 }

ask-Fits : Fits ask
ask-Fits = record { rate = omega arith; enc = omega arith; seq = omega arith }

nl_recv_lem_example :
    nl_recv env (user_message 55 ask (1 ∷ 2 ∷ []) (9 ∷ [])) start
    ≡ vmac_tx env
        (buffer (0, []) (1 ∷ 2 ∷ []))
        7
        hdr_interest
        4
        0
        (record start { pidt = 55; skbs = 1 })
nl_recv_lem_example =
    nl_recv_lem env 55 ask (1 ∷ 2 ∷ []) (9 ∷ []) start (0, []) ask-Fits refl (omega arith) refl

abbrev granting : Env
granting = record env { vmalloc_tx = some garbage }

unknown : find granting.hash 7 start.tx_enc ≡ none
unfolding find last
unknown = refl

resting : Sender granting env 7 (new_tx 7 garbage) start
unfolding new_tx
resting = record {
  ready = inr (
    garbage,
    unknown,
    refl,
    length-replicate {A = Ptr} 500 wild,
    length-replicate {A = ℕ} 500 97,
    refl,
  );
  number = omega arith;
  room = (0, []);
  granted = refl;
  copy = (1, []);
  copied = refl;
  item = entry;
  queued = refl;
  no_data = refl;
  no_mgmt = refl;
  slot = refl;
  stack = refl;
}

abbrev listening : Kernel
listening = record start { pidt = 77; rx_enc = record { chain = λ b. unheard ∷ [] } }

awaits : find env.hash 7 listening.rx_enc ≡ some unheard
unfolding find last
awaits = refl

awaiting : Receiver env 7 0 unheard nothing listening
awaiting = record {
  awaits = awaits;
  represents = unheard-Represents;
  near = omega arith;
  registered = λ e. absurd (omega arith);
  room = (0, []);
  granted = refl;
}

abbrev put_out : Request
put_out = record { type = hdr_data; rate = 4; enc = 7; seq = 0 }

put_out-Fits : Fits put_out
put_out-Fits = record { rate = omega arith; enc = omega arith; seq = omega arith }

data_carried_example :
    (s1 s2 : Kernel) × (x : Skb) × (t1 : Kernel) × (nl_recv granting
        (user_message 55 put_out (1 ∷ 2 ∷ 3 ∷ []) [])
        start
      ≡ ok s1)
    × (queuethread env s1 ≡ ok s2)
    × (s2.aired ≡ [] ++ x ∷ [])
    × (ieee80211_rx_vmac env (holding (frame 2) (x.bytes ++ (0 ∷ 0 ∷ 0 ∷ 0 ∷ []))) listening
        ≡ ok t1)
    × Delivered env 7 0 (frame 2) (1 ∷ 2 ∷ 3 ∷ []) unheard nothing listening t1
unfolding new_tx
data_carried_example =
    data_carried granting env env 55 put_out (1 ∷ 2 ∷ 3 ∷ []) [] (0 ∷ 0 ∷ 0 ∷ 0 ∷ []) (frame 2)
      (new_tx 7 garbage) unheard nothing start listening refl put_out-Fits (omega arith) refl
      resting awaiting
