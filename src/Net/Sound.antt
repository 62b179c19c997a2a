-- ===== src/Net/Sound.antt =====
-- What the moves of the two nodes keep.
use v_mac_kernel.Prelude.{
  ℕ, ◌^◌, ◌<◌, ◌≡◌, refl, sym, ap, List, [], ◌∷◌, ◌++◌, some, Bool, inl, inr, arith, All-In,
  In-append_left, In-append_right,
}
use mathlib.Core.Path.{subst}
use v_mac_kernel.Skb.{Skb}
use v_mac_kernel.Kernel.{Kernel, Env, Outcome, ok}
use v_mac_kernel.Queue.Carry.{OnAir}
use v_mac_kernel.Rx.Sending.{Sending, Sending-mono, rqueuethread-Sending}
use v_mac_kernel.Net.{
  Net, Move, send, round, report, answer, ask, timer, reply, hear, heard_number, next_number, move,
  Allowed, Started,
}
use v_mac_kernel.Net.Sender.{vmac_tx-Sending, queuethread-Sending, report-Sending}
use v_mac_kernel.Net.Hears.{hear-Hearing}
use v_mac_kernel.Net.Asks.{queuethread-Hearing, prep_dack-Hearing, send_dack-Hearing}
use v_mac_kernel.Net.Receiver.{Logged, HasPassed, Hearing, Hearing-mono}

-- Both nodes as the moves keep them.
pub record Sound (hash : ℕ → ℕ) (enc : ℕ) (got0 : ℕ → Bool) (n : Net) : Type 0 where
  pub sending : Sending (Logged enc n.log) hash enc n.sender
  pub hearing : Hearing hash enc got0 n.log n.receiver

pub Started-Sound :
    (hash : ℕ → ℕ) (enc : ℕ) (n : Net) (st : Started hash enc n) → Sound hash enc st.got n
Started-Sound hash enc n st = record {
  sending = record {
    vmact = st.vmact;
    found = st.sends;
    number = rw st.new (omega arith);
    copies = record {
      buffer_size = st.buffer_size;
      timer_size = st.timer_size;
      copies = λ i h k. absurd (omega (arith, st.new));
    };
    kept = λ i h k. absurd (omega (arith, st.new));
    carried = record {
      data_frames = rw st.uqueue tt;
      mgmt_frames = rw st.mqueue tt;
      rx_frames = rw st.rx_upper tt;
      aired = rw st.aired tt;
    };
  };
  hearing = record {
    vmacr = st.vmacr;
    found = st.awaits;
    got = st.got;
    represents = st.represents;
    registered = st.registered;
    armed = λ on. absurd (omega (arith, on, st.idle));
    data_frames = rw st.no_data tt;
    mgmt_frames = rw st.no_mgmt tt;
    genuine = rw st.sent tt;
    once = rw st.sent tt;
    received = rw st.sent tt;
    passed_on = λ j h. inr h;
  };
}

-- A move that runs, and leaves both nodes sound.
abbrev pub Moves : (ℕ → ℕ) → ℕ → (ℕ → Bool) → Outcome Net → Type 0
Moves hash enc got0 out = (n' : Net) × (out ≡ ok n') × Sound hash enc got0 n'

Logged-mono :
    (enc : ℕ) (log : List (ℕ × List ℕ)) (x : ℕ × List ℕ) (b : List ℕ)
    → Logged enc log b
    → Logged enc (log ++ x ∷ []) b
Logged-mono enc log x b k = record {
  number = k.number;
  payload = k.payload;
  there = In-append_left (k.number, k.payload) log (x ∷ []) k.there;
  small = k.small;
  bytes = k.bytes;
}

next_number-found :
    (hash : ℕ → ℕ) (enc : ℕ) (s : Kernel) (P : List ℕ → Type 0) (v : Sending P hash enc s)
    → next_number hash enc s ≡ v.vmact.seq
next_number-found hash enc s P v = rw (v.found, next_number) refl

module _ (env : Env) (enc : ℕ) (got0 : ℕ → Bool) (n : Net) (v : Sound env.hash enc got0 n)
    (he : enc < 2 ^ 64) where
  send-Sound :
      (skb : Skb) (rate : ℕ) (room : ℕ × List ℕ)
      → env.new_skb n.sender.skbs ≡ some room
      → Moves env.hash enc got0 (move enc (send env skb rate) n)
  unfolding move
  send-Sound skb rate room free =
      let x : ℕ × List ℕ = (next_number env.hash enc n.sender, skb.bytes) in
      let log = n.log ++ x ∷ [] in
      let sending =
        Sending-mono (Logged enc n.log) (Logged enc log) env.hash enc n.sender
          (Logged-mono enc n.log x) v.sending in
      let seq = sending.vmact.seq in
      let number = next_number-found env.hash enc n.sender (Logged enc log) sending in
      let (s', e, v') =
        vmac_tx-Sending (Logged enc log) env enc n.sender sending skb rate 0 room free (record {
          number = seq;
          payload = skb.bytes;
          there =
              In-append_right (seq, skb.bytes) n.log (x ∷ [])
                (inl (ap (λ j. (j, skb.bytes)) (sym number)));
          small = sending.number;
          bytes = refl;
        }) in
      (
        record n { sender = s'; log = log },
        rw e refl,
        record {
          sending = v';
          hearing =
              Hearing-mono env.hash enc got0 n.log log n.receiver
                (λ y. In-append_left y n.log (x ∷ [])) v.hearing;
        },
      )

  answer-Sound :
      Allowed env.hash enc (answer env) n → Moves env.hash enc got0 (move enc (answer env) n)
  unfolding move
  answer-Sound (same, clear) =
      let number = next_number-found env.hash enc n.sender (Logged enc n.log) v.sending in
      let (s', e, v') =
        rqueuethread-Sending (Logged enc n.log) env enc (next_number env.hash enc n.sender)
          n.sender.rx_upper n.sender v.sending he (sym number) v.sending.carried.rx_frames clear in
      (record n { sender = s' }, rw e refl, record { sending = v'; hearing = v.hearing })

  -- The receiver does something about its DACKs.
  receiver-Sound :
      (s' : Kernel)
      → Hearing env.hash enc got0 n.log s'
      → Sound env.hash enc got0 (record n { receiver = s' })
  receiver-Sound s' v' = record { sending = v.sending; hearing = v' }

  ask-Sound : (k : ℕ) → Moves env.hash enc got0 (move enc (ask env k) n)
  unfolding move
  ask-Sound k =
      let (s', e, v') = prep_dack-Hearing env enc got0 n.log n.receiver v.hearing k in
      (record n { receiver = s' }, rw e refl, receiver-Sound s' v')

  timer-Sound : Moves env.hash enc got0 (move enc (timer env) n)
  unfolding move
  timer-Sound =
      let (s', e, v') = send_dack-Hearing env enc got0 n.log n.receiver v.hearing in
      (record n { receiver = s' }, rw e refl, receiver-Sound s' v')

  hear-Sound :
      (skb x : Skb) (fcs : List ℕ)
      → Allowed env.hash enc (hear env skb x fcs) n
      → (n' : Net) × (move enc (hear env skb x fcs) n ≡ ok n')
        × HasPassed got0 (heard_number x) n'.receiver
        × Sound env.hash enc got0 n'
  unfolding move
  hear-Sound skb x fcs (same, (room, free), there, four, near) =
      let air = All-In (OnAir (Logged enc n.log)) x n.sender.aired v.sending.carried.aired there in
      let (s', e, passed, v') =
        hear-Hearing env enc got0 n.log n.receiver v.hearing skb x fcs room he air four free near in
      (record n { receiver = s' }, rw e refl, passed, record { sending = v.sending; hearing = v' })

module _ (hash : ℕ → ℕ) (enc : ℕ) (he : enc < 2 ^ 64) where
  pub heard-Sound :
      (env : Env) (skb x : Skb) (fcs : List ℕ) (got0 : ℕ → Bool) (n : Net)
      → Sound hash enc got0 n
      → Allowed hash enc (hear env skb x fcs) n
      → (n' : Net) × (move enc (hear env skb x fcs) n ≡ ok n')
        × HasPassed got0 (heard_number x) n'.receiver
        × Sound hash enc got0 n'
  heard-Sound env skb x fcs got0 n v allowed =
      subst
        (λ h.
          (n' : Net) × (move enc (hear env skb x fcs) n ≡ ok n')
          × HasPassed got0 (heard_number x) n'.receiver
          × Sound h enc got0 n')
        allowed.0
        (hear-Sound env enc got0 n (subst (λ h. Sound h enc got0 n) (sym allowed.0) v) he skb x fcs
          (subst (λ h. Allowed h enc (hear env skb x fcs) n) (sym allowed.0) allowed))

  pub move-Sound :
      (m : Move) (got0 : ℕ → Bool) (n : Net)
      → Sound hash enc got0 n
      → Allowed hash enc m n
      → Moves hash enc got0 (move enc m n)
  unfolding move
  move-Sound (send env skb rate) got0 n v (same, (room, free)) =
      subst (λ h. Moves h enc got0 (move enc (send env skb rate) n)) same
        (send-Sound env enc got0 n (subst (λ h. Sound h enc got0 n) (sym same) v) he skb rate room
          free)
  move-Sound (round env) got0 n v eight =
      let (s', e, v') =
        queuethread-Sending (Logged enc n.log) hash env enc n.sender v.sending eight in
      (record n { sender = s' }, rw e refl, record { sending = v'; hearing = v.hearing })
  move-Sound (report env skb rate stack content fcs) got0 n v eight =
      let (s', e, v') =
        report-Sending (Logged enc n.log) hash env enc n.sender v.sending skb rate stack content fcs
          he eight in
      (record n { sender = s' }, rw e refl, record { sending = v'; hearing = v.hearing })
  move-Sound (answer env) got0 n v (same, clear) =
      subst (λ h. Moves h enc got0 (move enc (answer env) n)) same
        (answer-Sound env enc got0 n (subst (λ h. Sound h enc got0 n) (sym same) v) he
          (subst (λ h. Allowed h enc (answer env) n) (sym same) (same, clear)))
  move-Sound (ask env k) got0 n v same =
      subst (λ h. Moves h enc got0 (move enc (ask env k) n)) same
        (ask-Sound env enc got0 n (subst (λ h. Sound h enc got0 n) (sym same) v) he k)
  move-Sound (timer env) got0 n v same =
      subst (λ h. Moves h enc got0 (move enc (timer env) n)) same
        (timer-Sound env enc got0 n (subst (λ h. Sound h enc got0 n) (sym same) v) he)
  move-Sound (reply env) got0 n v allowed =
      let (s', e, v') = queuethread-Hearing env hash enc got0 n.log n.receiver v.hearing in
      (record n { receiver = s' }, rw e refl, record { sending = v.sending; hearing = v' })
  move-Sound (hear env skb x fcs) got0 n v allowed =
      let (n', e, passed, v') = heard-Sound env skb x fcs got0 n v allowed in (n', e, v')
