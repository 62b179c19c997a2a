-- ===== src/Queue/Tests.antt =====
-- Runs of the queues.
use v_mac_kernel.Prelude.{◌≡◌, refl, List, [], ◌∷◌, ◌++◌, arith, length}
use v_mac_kernel.Skb.{to}
use v_mac_kernel.Kernel.{Kernel, ok}
use v_mac_kernel.Samples.{frame, entry, env, start}
use v_mac_kernel.LowTx.{on_air}
use v_mac_kernel.Queue.{queuethread, rate_of, default_rate}
use v_mac_kernel.Queue.Priority.{HasFrames, queuethread_lem, airs}
use v_mac_kernel.Queue.Drain.{rounds, rounds_drain}
use v_mac_kernel.Queue.Append.{
  Queued, Act, data_frame, retransmission, dack_frame, mgmt_frame, round, acts, acts-Queued,
}

abbrev loaded : Kernel
loaded = record start {
  uqueue =
      record entry { frame = to (frame 1); rate = 255 }
      ∷ record entry { frame = to (frame 2); rate = 4 }
      ∷ record entry { frame = to (frame 3); rate = 4 }
      ∷ [];
  mqueue = record entry { frame = to (frame 9); rate = 1 } ∷ [];
}

loaded-Queued : Queued loaded
loaded-Queued = record {
  data_frames = ((frame 1, refl), ((frame 2, refl), ((frame 3, refl), tt)));
  mgmt_frames = ((frame 9, refl), tt);
  rx_frames = tt;
}

-- Four rounds with three slots each.
rounds_drain_example :
    (s' : Kernel) × (rounds (env ∷ env ∷ env ∷ env ∷ []) loaded ≡ ok s')
    × (s'.mqueue ≡ [])
    × (s'.uqueue ≡ [])
    × (length s'.aired ≡ 4)
rounds_drain_example =
    rounds_drain (env ∷ env ∷ env ∷ env ∷ []) loaded (refl, (refl, (refl, (refl, tt))))
      loaded-Queued (omega arith)

loaded_mgmt : HasFrames loaded.mqueue
loaded_mgmt = ((frame 9, refl), tt)

loaded_data : HasFrames loaded.uqueue
loaded_data = ((frame 1, refl), ((frame 2, refl), ((frame 3, refl), tt)))

-- One management frame and two data frames go out.
queuethread_lem_example :
    queuethread env loaded
    ≡ ok (record loaded {
      aired =
          airs env (λ _. default_rate) loaded.mqueue
          ++ (on_air env default_rate (to (frame 1)) ++ on_air env 4 (to (frame 2)));
      mqueue = [];
      uqueue = record entry { frame = to (frame 3); rate = 4 } ∷ [];
    })
unfolding rate_of
queuethread_lem_example = queuethread_lem env loaded loaded_mgmt loaded_data

start-Queued : Queued start
start-Queued = record { data_frames = tt; mgmt_frames = tt; rx_frames = tt }

abbrev history : List Act
history =
    data_frame env (frame 1) 0 255
    ∷ retransmission env (frame 2) 255
    ∷ dack_frame env (frame 3)
    ∷ mgmt_frame env (frame 4)
    ∷ round env
    ∷ []

acts-Queued_example : (s' : Kernel) × (acts history start ≡ ok s') × Queued s'
acts-Queued_example = acts-Queued history start start-Queued
