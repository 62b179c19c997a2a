-- ===== src/Net/Tests.antt =====
-- A sender of encoding 7 and a receiver of it: a frame is sent and heard.
use v_mac_kernel.Prelude.{
  ℕ, ◌≡◌, refl, inl, List, [], ◌∷◌, ◌++◌, All, arith, length-replicate, replicate,
}
use v_mac_kernel.Skb.{Skb, Ptr, null, to}
use v_mac_kernel.Structs.{EncodingTx, VmacQueue}
use v_mac_kernel.Table.{find, last, update}
use v_mac_kernel.Kernel.{ok, skb_copy, kfree_skb}
use v_mac_kernel.Queue.{rate_of, enq_uqueue}
use v_mac_kernel.Queue.Priority.{queuethread_lem}
use v_mac_kernel.LowTx.{spoofed_hdr}
use v_mac_kernel.Tx.{framed, flagged, number_frame, make_tx, tx_data, tx_end, vmac_tx}
use v_mac_kernel.Tx.Steps.{copy_of}
use v_mac_kernel.Samples.{frame, entry, env, start}
use v_mac_kernel.Samples.Entries.{garbage, unheard, nothing, unheard-Represents}
use v_mac_kernel.Rx.Pending.{Distinct}
use v_mac_kernel.Net.{
  Net, send, round, hear, move, heard_number, latest_of, Allowed, Started, Reach, here, next,
}
use v_mac_kernel.Net.Receiver.{Genuine, numbers, HasPassed}
use v_mac_kernel.Net.Integrity.{reached_runs, reached-Genuine, heard-HasPassed}

abbrev fresh_tx : EncodingTx
fresh_tx = record garbage {
  seq = 0;
  timer = replicate 500 0;
  retransmission_buffer = replicate 500 null;
}

abbrev idle : Net
idle = record {
  sender = record start { tx_enc = record { chain = λ b. fresh_tx ∷ [] } };
  receiver = record start { pidt = 77; rx_enc = record { chain = λ b. unheard ∷ [] } };
  log = [];
}

idle-Started : Started env.hash 7 idle
unfolding find last
idle-Started = record {
  vmact = fresh_tx;
  sends = refl;
  new = refl;
  buffer_size = length-replicate {A = Ptr} 500 null;
  timer_size = length-replicate {A = ℕ} 500 0;
  uqueue = refl;
  mqueue = refl;
  rx_upper = refl;
  aired = refl;
  vmacr = unheard;
  awaits = refl;
  got = nothing;
  represents = unheard-Represents;
  idle = refl;
  no_data = refl;
  no_mgmt = refl;
  registered = λ e. absurd (omega arith);
  sent = refl;
  log = refl;
}

abbrev item : VmacQueue
item = record entry { frame = to (flagged (framed 7 0 (frame 5))); rate = 4; seq = 0 }

-- The frame has its headers and is queued.
abbrev queued : Net
queued = record idle {
  sender = record (idle.sender) {
    tx_enc =
        update env.hash 7
          (λ _. number_frame env (to (copy_of (framed 7 0 (frame 5)) (0, []))) fresh_tx)
          idle.sender.tx_enc;
    uqueue = item ∷ [];
    kmallocs = 1;
    skbs = 1;
  };
  log = (0, 5 ∷ []) ∷ [];
}

sent : move 7 (send env (frame 5) 4) idle ≡ ok queued
unfolding move vmac_tx make_tx tx_data tx_end enq_uqueue skb_copy kfree_skb find last
sent = refl

abbrev on_the_air : Skb
on_the_air = record (framed 7 0 (frame 5)) {
  bytes = spoofed_hdr (rate_of item) env.stack ++ (framed 7 0 (frame 5)).bytes;
  flags = [];
  priority = 261;
}

abbrev aired : Net
aired = record queued { sender = record (queued.sender) { uqueue = []; aired = on_the_air ∷ [] } }

made_round : move 7 (round env) queued ≡ ok aired
unfolding move
made_round = rw (queuethread_lem env queued.sender tt ((_, refl), tt)) refl

on_way : Reach env.hash 7 idle aired
on_way =
    next (round env) (next (send env (frame 5) 4) here (refl, ((0, []), refl)) sent) refl made_round

checksum : List ℕ
checksum = 0 ∷ 0 ∷ 0 ∷ 0 ∷ []

none_newer : latest_of env.hash 7 aired.receiver ≡ 0
unfolding find last
none_newer = refl

may_hear : Allowed env.hash 7 (hear env (frame 3) on_the_air checksum) aired
unfolding checksum
may_hear = (refl, ((0, []), refl), inl refl, refl, rw none_newer (omega arith))

heard-HasPassed_example :
    (n' : Net) × (move 7 (hear env (frame 3) on_the_air checksum) aired ≡ ok n')
    × HasPassed nothing (heard_number on_the_air) n'.receiver
    × Reach env.hash 7 idle n'
unfolding idle-Started
heard-HasPassed_example =
    heard-HasPassed env.hash 7 (omega arith) env (frame 3) on_the_air checksum idle aired
      idle-Started on_way may_hear

reached_runs_example : (n' : Net) × (move 7 (hear env (frame 3) on_the_air checksum) aired ≡ ok n')
reached_runs_example =
    reached_runs env.hash 7 (omega arith) idle aired (hear env (frame 3) on_the_air checksum)
      idle-Started on_way may_hear

-- The state in which the frame was heard.
heard :
    (n' : Net) × HasPassed nothing (heard_number on_the_air) n'.receiver × Reach env.hash 7 idle n'
unfolding idle-Started
heard =
    let (n', e, passed, reach) =
      heard-HasPassed env.hash 7 (omega arith) env (frame 3) on_the_air checksum idle aired
        idle-Started on_way may_hear in
    (n', passed, reach)

reached-Genuine_example :
    All (Genuine 7 heard.0.log) heard.0.receiver.sent × Distinct (numbers heard.0.receiver.sent)
reached-Genuine_example = reached-Genuine env.hash 7 (omega arith) idle heard.0 idle-Started heard.2
