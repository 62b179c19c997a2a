-- ===== src/Dack/Timer.antt =====
-- The way of a DACK at the receiver: it is made and stored, and when the timer fires, queued.
use v_mac_kernel.Prelude.{
  ℕ, ◌+◌, ◌*◌, ◌≡◌, refl, ap, inl, inr, List, [], Option, none, some, true, ◌==◌, arith,
  Option-cases, Bool-cases,
}
use mathlib.Core.Path.{subst}
use v_mac_kernel.Words.{u16}
use v_mac_kernel.Skb.{Skb, Ptr, null, to}
use v_mac_kernel.Structs.{EncodingRx, VmacQueue}
use v_mac_kernel.Table.{find}
use v_mac_kernel.Kernel.{Kernel, Env, ok, dev_alloc_skb}
use v_mac_kernel.Queue.{add_dack}
use v_mac_kernel.Queue.Priority.{HasFrames}
use v_mac_kernel.Queue.Append.{HasFrames-append}
use v_mac_kernel.Dack.{dack_frame, finish_dack, prep_dack, send_dack, with_rx}
use v_mac_kernel.Dack.Scan.{find_holes}
use v_mac_kernel.Dack.Delay.{Holds, queued_dack, schedule_dack-Holds, add_dack-mqueue}
use v_mac_kernel.Dack.Undisturbed.{
  IsTame, Tame, Like-dack, Finds, Calm, with_rx-Calm, Undisturbed, with_rx-Finds,
}
use v_mac_kernel.Dack.Requests.{prep_dack-Undisturbed}

-- The buffer that a DACK is made in.
abbrev pub new_buffer : ℕ × List ℕ → Skb
new_buffer (id, memory) = record { id = id; bytes = []; beyond = memory; flags = []; priority = 0 }

module _ (env : Env) (enc : ℕ) where
  dev_alloc_skb-granted :
      (room : ℕ × List ℕ) (s : Kernel)
      → env.new_skb s.skbs ≡ some room
      → dev_alloc_skb env s ≡ (to (new_buffer room), record s { skbs = s.skbs + 1 })
  unfolding dev_alloc_skb
  dev_alloc_skb-granted room s e = rw (e, dev_alloc_skb) refl

  -- `prepDACK` with a free lock and memory stores the DACK of the entry's window.
  pub prep_dack-Holds :
      (round : ℕ) (r : EncodingRx) (room : ℕ × List ℕ) (s : Kernel)
      → find env.hash enc s.rx_enc ≡ some r
      → Tame r
      → env.trylock ≡ true
      → env.new_skb s.skbs ≡ some room
      → (s' : Kernel) × (prep_dack env enc round s ≡ ok s')
        × Holds env enc
            (dack_frame enc round
              (find_holes r.before_window r.window (u16 (round * 5))).0
              (new_buffer room))
            s'
        × Undisturbed IsTame env.hash s s'
  unfolding prep_dack finish_dack
  prep_dack-Holds round r room s known tame free granted =
      let found = find_holes r.before_window r.window (u16 (round * 5)) in
      let skb = dack_frame enc round found.0 (new_buffer room) in
      let (s1, e1, h, freed) =
        schedule_dack-Holds env enc round found.1 r skb (record s { skbs = s.skbs + 1 }) known free
          tame in
      let (s2, e2, d) =
        prep_dack-Undisturbed IsTame (λ skb. λ w. cc) env enc round s (r, known, tame) in
      let alloc = dev_alloc_skb-granted room s granted in
      let made : prep_dack env enc round s ≡ ok s1 =
        rw (known, ap (λ a. a.0) alloc, ap (λ a. a.1) alloc, prep_dack, finish_dack) e1 in
      let same : s2 ≡ s1 = cc in (s1, made, h, subst (Undisturbed IsTame env.hash s) same d)

  add_dack-Calm :
      (p : Ptr) (s : Kernel) → Calm s (add_dack env p s) × ((add_dack env p s).rx_enc ≡ s.rx_enc)
  unfolding add_dack
  add_dack-Calm p s = elim (Option-cases (env.kmalloc s.kmallocs)) [
    | inl e ↦
        rw (e, add_dack)
          (
            record {
              tx_enc = refl;
              uqueue = refl;
              rx_upper = refl;
              pidt = refl;
              aired = refl;
              sent = refl;
            },
            refl,
          )
    | inr (item, e) ↦
        rw (e, add_dack)
          (
            record {
              tx_enc = refl;
              uqueue = refl;
              rx_upper = refl;
              pidt = refl;
              aired = refl;
              sent = refl;
            },
            refl,
          )
  ]

  -- The handler of the timer, with a free lock, queues the DACK that is stored.
  pub send_dack-Queued :
      (D : Ptr → Type 0) (skb : Skb) (r : EncodingRx) (s : Kernel)
      → Holds env enc skb s
      → Finds D env.hash enc r s
      → env.trylock ≡ true
      → (s' : Kernel) × (send_dack env enc s ≡ ok s')
        × (s'.mqueue ≡ queued_dack (env.kmalloc s.kmallocs) (to skb) s.mqueue)
        × Calm s s'
        × Finds D env.hash enc r s'
  unfolding send_dack
  send_dack-Queued D skb r s h found free =
      let sent = λ (r : EncodingRx). record r {
        dack_timer = none;
        dac_info = record (r.dac_info) { send = 0; dack = null };
      } in
      let s0 = with_rx env enc sent s in
      let s1 = add_dack env (to skb) s0 in
      let busy : (h.entry.dac_info.send == 1) ≡ true = rw h.armed refl in
      let (calm, same) = add_dack-Calm (to skb) s0 in
      let (r1, e1, tame, like) =
        with_rx-Finds D env enc sent s (λ r t on. absurd (omega (arith, on)))
          (λ r r' l. Like-dack r r' _ _ _ _ l) enc r found in
      (
        s1,
        rw (h.found, free, busy, h.stored, send_dack) refl,
        add_dack-mqueue env (to skb) s0,
        record {
          tx_enc = calm.tx_enc;
          uqueue = calm.uqueue;
          rx_upper = calm.rx_upper;
          pidt = calm.pidt;
          aired = calm.aired;
          sent = calm.sent;
        },
        (r1, rw same e1, tame, like),
      )

-- A buffer.
abbrev pub IsBuffer : Ptr → Type 0
IsBuffer p = (skb : Skb) × (p ≡ to skb)

queued_dack-HasFrames :
    (item : Option VmacQueue) (skb : Skb) (q : List VmacQueue)
    → HasFrames q
    → HasFrames (queued_dack item (to skb) q)
queued_dack-HasFrames none skb q h = h
queued_dack-HasFrames (some item) skb q h = HasFrames-append q _ skb h refl

-- The handler of the timer, whether or not the lock is free, and what it finds: it runs, and queues no
-- more than a buffer.
pub send_dack_runs :
    (env : Env) (enc : ℕ) (r : EncodingRx) (s : Kernel)
    → Finds IsBuffer env.hash enc r s
    → HasFrames s.mqueue
    → (s' : Kernel) × (send_dack env enc s ≡ ok s')
      × Calm s s'
      × HasFrames s'.mqueue
      × Finds IsBuffer env.hash enc r s'
unfolding send_dack
send_dack_runs env enc r s (r1, found, armed, like) frames =
    let slow =
      λ (r : EncodingRx). record r { dack_timer = some (env.jiffies + env.msecs_to_jiffies 100) } in
    let off = λ (r : EncodingRx). record r { dack_timer = none } in
    elim (Bool-cases env.trylock) [
      | inl free ↦ elim (Bool-cases (r1.dac_info.send == 1)) [
        | inl on ↦
            let (skb, stored) = armed (ground arith) in
            let h : Holds env enc skb s = record {
              entry = r1;
              found = found;
              armed = ground arith;
              stored = stored;
            } in
            let (s', e, line, calm, after) =
              send_dack-Queued env enc IsBuffer skb r s h (r1, found, armed, like) free in
            (
              s',
              e,
              calm,
              rw line (queued_dack-HasFrames (env.kmalloc s.kmallocs) skb s.mqueue frames),
              after,
            )
        | inr idle ↦ (
          with_rx env enc off s,
          rw (found, free, idle, send_dack) refl,
          with_rx-Calm env enc off s,
          frames,
          with_rx-Finds IsBuffer env enc off s (λ r t. t) (λ a b l. Like-dack a b _ _ _ _ l) enc r
              (r1, found, armed, like),
        )
      ]
      | inr busy ↦ (
        with_rx env enc slow s,
        rw (found, busy, send_dack) refl,
        with_rx-Calm env enc slow s,
        frames,
        with_rx-Finds IsBuffer env enc slow s (λ r t. t) (λ a b l. Like-dack a b _ _ _ _ l) enc r
            (r1, found, armed, like),
      )
    ]
