-- ===== src/Dack/Delay.antt =====
-- How long a DACK waits, and that the newest one is sent, once.
use v_mac_kernel.Prelude.{
  append_nil, sym, ℕ, ◌+◌, ◌-◌, ◌*◌, ◌%◌, ◌^◌, ◌≤◌, ◌<◌, ◌≡◌, ◌≢◌, refl, ◌⊎◌, inl, inr, List, [],
  ◌∷◌, ◌++◌, Option, none, some, true, false, ◌&&◌, ◌==◌, leb, if◌then◌else◌, arith, Bool-cases,
  Option-cases,
}
use native.Mathlib.Nat.{mul-le-mul}
use v_mac_kernel.Skb.{Skb, Ptr, null, to, wild, Ptr-cases}
use v_mac_kernel.Structs.{EncodingRx, VmacQueue}
use v_mac_kernel.Table.{find}
use v_mac_kernel.Table.Lookup.{find-update}
use v_mac_kernel.Kernel.{Kernel, Env, ok, kfree_skb}
use v_mac_kernel.Queue.{add_dack}
use v_mac_kernel.Dack.{
  rndm_of, duration_of, short_duration, cap_alpha, remaining, store_dack, schedule_dack, send_dack,
  with_rx,
}

-- The delay of a DACK in jiffies.
abbrev pub delay : ℕ → ℕ → ℕ → ℕ
delay alpha loss random = short_duration (duration_of (cap_alpha alpha) (remaining loss) random)

-- The noise is at most one frame either way.
rndm_cases :
    (random : ℕ) → (rndm_of random ≡ 0) ⊎ ((rndm_of random ≡ 1) ⊎ (rndm_of random ≡ 2 ^ 64 - 1))
unfolding rndm_of
rndm_cases random = ground arith

-- Without negative noise on a count of zero, the product is small.
duration_small :
    (alpha loss random : ℕ)
    → alpha ≤ 100
    → (0 < loss) ⊎ (rndm_of random ≢ 2 ^ 64 - 1)
    → loss < 256
    → (1 ≤ duration_of alpha loss random) × (duration_of alpha loss random < 2 ^ 63)
unfolding duration_of
duration_small alpha loss random ha noise hl =
    let frames = (loss + rndm_of random) % 2 ^ 64 in
    let few : frames ≤ 256 = elim (rndm_cases random) [
      | inl e ↦ rw e (omega arith)
      | inr (inl e) ↦ rw e (omega arith)
      | inr (inr e) ↦ elim noise [ inl h ↦ rw e (omega arith) | inr h ↦ absurd (h e) ]
    ] in
    let m =
      mul-le-mul {n₁ = 2 * alpha} {m₁ = frames} (let h : 2 * alpha ≤ 200 = omega arith in h) few in
    ground arith

-- With it, the sum is negative, as a bit pattern.
duration_past :
    (alpha random : ℕ)
    → alpha ≤ 100
    → rndm_of random ≡ 2 ^ 64 - 1
    → duration_of alpha 0 random ≡ (if alpha == 0 then 1 else 2 ^ 64 - 2 * alpha)
unfolding duration_of
duration_past alpha random ha e =
    let m : 2 * alpha * ((0 + (2 ^ 64 - 1)) % 2 ^ 64) ≡ alpha * (2 ^ 65 - 2) = omega arith in
    rw (e, m) (ground arith)

-- A DACK waits for 1 to 100 jiffies, whatever the spacing `alpha`, the count of the losses and the
-- random number are; or exactly 5 losses meet a noise of -1, and then the timer is set to twice the
-- capped spacing in the past.
pub delay_lem :
    (alpha loss random : ℕ)
    → loss < 256
    → ((1 ≤ delay alpha loss random) × (delay alpha loss random ≤ 100))
      ⊎ ((loss ≡ 5)
          × (rndm_of random ≡ 2 ^ 64 - 1)
          × (delay alpha loss random ≡ 2 ^ 64 - 2 * (if leb 100 alpha then 100 else alpha)))
unfolding short_duration
delay_lem alpha loss random hl = elim (Bool-cases (rndm_of random == 2 ^ 64 - 1 && loss == 5)) [
  | inl e ↦
      let n : rndm_of random ≡ 2 ^ 64 - 1 = ground arith in
      let l : loss ≡ 5 = ground arith in
      let a : cap_alpha alpha ≤ 100 = ground arith in
      let d = duration_past (cap_alpha alpha) random a n in
      let z : remaining 5 ≡ 0 = refl in rw l (ground (arith, d))
  | inr e ↦
      let a : cap_alpha alpha ≤ 100 = ground arith in
      let k : remaining loss < 256 = ground arith in
      let n : (0 < remaining loss) ⊎ (rndm_of random ≢ 2 ^ 64 - 1) = ground arith in
      let (lo, hi) = duration_small (cap_alpha alpha) (remaining loss) random a n k in
      inl (ground arith)
]

-- What `kfree_skb` of a pointer adds to the buffers freed.
abbrev pub number : Ptr → List ℕ
number null = []
number (to skb) = skb.id ∷ []
number wild = []

-- The entry of the encoding holds the DACK `skb`, which is to be sent.
pub record Holds (env : Env) (enc : ℕ) (skb : Skb) (s : Kernel) : Type 0 where
  pub entry : EncodingRx
  pub found : find env.hash enc s.rx_enc ≡ some entry
  pub armed : entry.dac_info.send ≡ 1
  pub stored : entry.dac_info.dack ≡ to skb

find-with_rx :
    (env : Env) (enc : ℕ) (f : EncodingRx → EncodingRx) (r : EncodingRx) (s : Kernel)
    → find env.hash enc s.rx_enc ≡ some r
    → find env.hash enc (with_rx env enc f s).rx_enc ≡ some (f r)
find-with_rx env enc f r s e = ground (arith, find-update env.hash enc enc f s.rx_enc, e)

-- Any change to the entry after `alpha` was capped.
changed_twice :
    (env : Env) (enc : ℕ) (f g : EncodingRx → EncodingRx) (r : EncodingRx) (s : Kernel)
    → find env.hash enc s.rx_enc ≡ some r
    → find env.hash enc (with_rx env enc g (with_rx env enc f s)).rx_enc ≡ some (g (f r))
changed_twice env enc f g r s e =
    find-with_rx env enc g (f r) (with_rx env enc f s) (find-with_rx env enc f r s e)

-- A new DACK takes the place of the one that waits: if the lock is free, and the pointer to a DACK that
-- is to be sent is not wild, then `prepDACK` stores the new one without a fault, to be sent; and what
-- is freed is the one that waited, if there is one.
pub schedule_dack-Holds :
    (env : Env) (enc round loss : ℕ) (vmac : EncodingRx) (skb : Skb) (s : Kernel)
    → find env.hash enc s.rx_enc ≡ some vmac
    → env.trylock ≡ true
    → (vmac.dac_info.send ≡ 1 → vmac.dac_info.dack ≢ wild)
    → (s' : Kernel) × (schedule_dack env enc round vmac skb loss s ≡ ok s')
      × Holds env enc skb s'
      × (s'.freed
          ≡ (if vmac.dac_info.send == 1 then s.freed ++ number vmac.dac_info.dack else s.freed))
unfolding schedule_dack store_dack kfree_skb
schedule_dack-Holds env enc round loss vmac skb s known free tame =
    let capped = λ (r : EncodingRx). record r { alpha = cap_alpha vmac.alpha } in
    let stored = changed_twice env enc capped (store_dack round (to skb)) vmac s known in
    elim (Bool-cases (vmac.dac_info.send == 1)) [
      | inl waits ↦ elim (Ptr-cases vmac.dac_info.dack) [
        | inl e ↦ (
          with_rx env enc (store_dack round (to skb)) (with_rx env enc capped s),
          rw (free, waits, e) refl,
          record {
            entry = store_dack round (to skb) (capped vmac);
            found = stored;
            armed = refl;
            stored = refl;
          },
          rw (waits, e) (sym (append_nil s.freed)),
        )
        | inr (inl (old, e)) ↦ (
          record (with_rx env enc (store_dack round (to skb)) (with_rx env enc capped s)) {
            freed = s.freed ++ old.id ∷ [];
          },
          rw (free, waits, e) refl,
          record {
            entry = store_dack round (to skb) (capped vmac);
            found = stored;
            armed = refl;
            stored = refl;
          },
          rw (waits, e) refl,
        )
        | inr (inr e) ↦ absurd (tame (ground arith) e)
      ]
      | inr idle ↦
          let duration = duration_of (cap_alpha vmac.alpha) (remaining loss) env.random in
          let timed = λ (r : EncodingRx). record (store_dack round (to skb) r) {
            dack_timer = some ((env.jiffies + short_duration duration) % 2 ^ 64);
          } in
          (
            with_rx env enc timed (with_rx env enc capped s),
            rw (free, idle) refl,
            record {
              entry = timed (capped vmac);
              found = changed_twice env enc capped timed vmac s known;
              armed = refl;
              stored = refl;
            },
            rw idle refl,
          )
    ]

add_dack-rx_enc : (env : Env) (p : Ptr) (s : Kernel) → (add_dack env p s).rx_enc ≡ s.rx_enc
unfolding add_dack
add_dack-rx_enc env p s = elim (Option-cases (env.kmalloc s.kmallocs)) [
  | inl e ↦ rw (e, add_dack) refl
  | inr (x, e) ↦ rw (e, add_dack) refl
]

-- The queue of management frames after `add_dack`, by what the allocation of its entry gives.
abbrev pub queued_dack : Option VmacQueue → Ptr → List VmacQueue → List VmacQueue
queued_dack none p q = q
queued_dack (some item) p q = q ++ record item { frame = p; rate = 1 } ∷ []

pub add_dack-mqueue :
    (env : Env) (p : Ptr) (s : Kernel)
    → (add_dack env p s).mqueue ≡ queued_dack (env.kmalloc s.kmallocs) p s.mqueue
unfolding add_dack
add_dack-mqueue env p s = elim (Option-cases (env.kmalloc s.kmallocs)) [
  | inl e ↦ rw (e, add_dack) refl
  | inr (x, e) ↦ rw (e, add_dack) refl
]

-- An entry with nothing to send sends nothing.
idle :
    (env : Env) (enc : ℕ) (r : EncodingRx) (s : Kernel)
    → find env.hash enc s.rx_enc ≡ some r
    → r.dac_info.send ≡ 0
    → (s' : Kernel) × (send_dack env enc s ≡ ok s') × (s'.mqueue ≡ s.mqueue)
unfolding send_dack
idle env enc r s found off =
    let no : (r.dac_info.send == 1) ≡ false = rw off refl in
    elim (Bool-cases env.trylock) [
      | inl e ↦ (
        with_rx env enc (λ r. record r { dack_timer = none }) s,
        rw (found, e, no, send_dack) refl,
        refl,
      )
      | inr e ↦ (
        with_rx env enc
            (λ r. record r { dack_timer = some (env.jiffies + env.msecs_to_jiffies 100) }) s,
        rw (found, e, send_dack) refl,
        refl,
      )
    ]

-- When the timer of a DACK fires, the stored frame is queued, once: if the lock is free, then the handler
-- runs without a fault and queues the frame (where an entry of the queue can be allocated), and if the
-- handler runs again, even in another state of the kernel with the same hash, it queues nothing.
pub send_dack_once :
    (env again : Env) (enc : ℕ) (skb : Skb) (s : Kernel)
    → Holds env enc skb s
    → env.trylock ≡ true
    → again.hash ≡ env.hash
    → (s1 s2 : Kernel) × (send_dack env enc s ≡ ok s1)
      × (s1.mqueue ≡ queued_dack (env.kmalloc s.kmallocs) (to skb) s.mqueue)
      × (send_dack again enc s1 ≡ ok s2)
      × (s2.mqueue ≡ s1.mqueue)
unfolding send_dack
send_dack_once env again enc skb s h free same =
    let sent = λ (r : EncodingRx). record r {
      dack_timer = none;
      dac_info = record (r.dac_info) { send = 0; dack = null };
    } in
    let s0 = with_rx env enc sent s in
    let s1 = add_dack env (to skb) s0 in
    let busy : (h.entry.dac_info.send == 1) ≡ true = rw h.armed refl in
    let found : find again.hash enc s1.rx_enc ≡ some (sent h.entry) =
      rw (same, add_dack-rx_enc env (to skb) s0) (find-with_rx env enc sent h.entry s h.found) in
    let (s2, e2, m2) = idle again enc (sent h.entry) s1 found refl in
    (
      s1,
      s2,
      rw (h.found, free, busy, h.stored, send_dack) refl,
      add_dack-mqueue env (to skb) s0,
      e2,
      m2,
    )
