-- ===== src/Dack/Requests.antt =====
-- The requests for DACKs: `dackgen` serves all of them, and `dackreqnum` counts them.
use v_mac_kernel.Prelude.{
  ℕ, ◌+◌, ◌-◌, ◌*◌, ◌%◌, ◌^◌, ◌≡◌, refl, sym, ap, ◌∙◌, inl, inr, List, [], ◌∷◌, some, ◌==◌, drop,
  length, length-append, arith, Bool-cases, Option-cases,
}
use mathlib.Core.Path.{subst}
use v_mac_kernel.Words.{u16}
use v_mac_kernel.Skb.{Skb, Ptr, to, Ptr-cases}
use v_mac_kernel.Structs.{EncodingRx, VmacQueue}
use v_mac_kernel.Wire.{VmacHole}
use v_mac_kernel.Kernel.{Kernel, Env, ok, dev_alloc_skb}
use v_mac_kernel.Dack.{
  request_dack, with_rx, store_dack, dack_frame, duration_of, short_duration, cap_alpha, remaining,
  schedule_dack, finish_dack, prep_dack, dackgen,
}
use v_mac_kernel.Dack.Scan.{find_holes}
use v_mac_kernel.Dack.Undisturbed.{
  IsTame, Tame, Serviceable, Like-dack, Undisturbed, serviceable, Undisturbed-trans,
  with_rx-Undisturbed, kfree_skb-Undisturbed, dev_alloc_skb-Undisturbed,
}

-- Every DACK that is made is one of `D`.
module _ (D : Ptr → Type 0) (every : (skb : Skb) → D (to skb)) where
  schedule_dack-Undisturbed :
      (env : Env) (enc round : ℕ) (vmac : EncodingRx) (skb : Skb) (loss : ℕ) (s : Kernel)
      → Tame vmac
      → (s' : Kernel) × (schedule_dack env enc round vmac skb loss s ≡ ok s')
        × Undisturbed D env.hash s s'
  unfolding schedule_dack store_dack
  schedule_dack-Undisturbed env enc round vmac skb loss s tame =
      let capped = λ (r : EncodingRx). record r { alpha = cap_alpha vmac.alpha } in
      let s1 = with_rx env enc capped s in
      let first =
        with_rx-Undisturbed D env enc capped s (λ r t. t) (λ r r' l. Like-dack r r' _ _ _ _ l) in
      elim (Bool-cases env.trylock) [
        | inr busy ↦
            let (s2, e, d) = kfree_skb-Undisturbed D env.hash (to skb) s1 (λ h. cc) in
            (s2, rw (busy, schedule_dack) e, Undisturbed-trans D env.hash s s1 s2 first d)
        | inl free ↦ elim (Bool-cases (vmac.dac_info.send == 1)) [
          | inl waits ↦
              let stored = store_dack round (to skb) in
              let s2 = with_rx env enc stored s1 in
              let second =
                with_rx-Undisturbed D env enc stored s1 (λ r t on. every skb)
                  (λ r r' l. Like-dack r r' _ _ _ _ l) in
              let (s3, e, d) =
                kfree_skb-Undisturbed D env.hash vmac.dac_info.dack s2 (tame (ground arith)) in
              (
                s3,
                rw (free, waits, schedule_dack) e,
                Undisturbed-trans D env.hash s s1 s3 first
                    (Undisturbed-trans D env.hash s1 s2 s3 second d),
              )
          | inr idle ↦
              let timed = λ (r : EncodingRx). record (store_dack round (to skb) r) {
                dack_timer = some (
                    (env.jiffies
                      + short_duration
                          (duration_of (cap_alpha vmac.alpha) (remaining loss) env.random))
                    % 2 ^ 64);
              } in
              let second =
                with_rx-Undisturbed D env enc timed s1 (λ r t on. every skb)
                  (λ r r' l. Like-dack r r' _ _ _ _ l) in
              (
                with_rx env enc timed s1,
                rw (free, idle, schedule_dack) refl,
                Undisturbed-trans D env.hash s s1 (with_rx env enc timed s1) first second,
              )
        ]
      ]

  finish_dack-Undisturbed :
      (env : Env) (enc round : ℕ) (vmac : EncodingRx) (hs : List VmacHole) (loss : ℕ) (s : Kernel)
      → Tame vmac
      → (s' : Kernel) × (finish_dack env enc round vmac (hs, loss) s ≡ ok s')
        × Undisturbed D env.hash s s'
  unfolding finish_dack
  finish_dack-Undisturbed env enc round vmac hs loss s tame =
      let s1 = (dev_alloc_skb env s).1 in
      let (there, first) = dev_alloc_skb-Undisturbed D env env.hash s in
      elim (Ptr-cases (dev_alloc_skb env s).0) [
        | inl e ↦ (s1, rw (e, finish_dack) refl, first)
        | inr (inl (room, e)) ↦
            let (s2, e2, second) =
              schedule_dack-Undisturbed env enc round vmac (dack_frame enc round hs room) loss s1
                tame in
            (s2, rw (e, finish_dack) e2, Undisturbed-trans D env.hash s s1 s2 first second)
        | inr (inr e) ↦ absurd (there e)
      ]

  -- The making of a DACK for an encoding that has an entry.
  pub prep_dack-Undisturbed :
      (env : Env) (enc round : ℕ) (s : Kernel)
      → Serviceable env.hash enc s
      → (s' : Kernel) × (prep_dack env enc round s ≡ ok s') × Undisturbed D env.hash s s'
  unfolding prep_dack
  prep_dack-Undisturbed env enc round s (vmac, known, tame) =
      let found = find_holes vmac.before_window vmac.window (u16 (round * 5)) in
      let (s', e, d) = finish_dack-Undisturbed env enc round vmac found.0 found.1 s tame in
      (s', rw (known, prep_dack) e, d)

-- The same under a name for the hash.
prep_dack-serves :
    (env : Env) (hash : ℕ → ℕ) (enc round : ℕ) (s : Kernel)
    → env.hash ≡ hash
    → Serviceable hash enc s
    → (s' : Kernel) × (prep_dack env enc round s ≡ ok s') × Undisturbed IsTame hash s s'
prep_dack-serves env hash enc round s h =
    subst
      (λ k.
        Serviceable k enc s
        → (s' : Kernel) × (prep_dack env enc round s ≡ ok s') × Undisturbed IsTame k s s')
      h (prep_dack-Undisturbed IsTame (λ skb. λ w. cc) env enc round s)

-- The requests of a walk, each with the kernel's answers.
abbrev pub requests : List (Env × VmacQueue) → List VmacQueue
requests [] = []
requests ((env, e) ∷ q) = e ∷ requests q

abbrev pub AllServiceable : (ℕ → ℕ) → List (Env × VmacQueue) → Kernel → Type 0
AllServiceable hash [] s = Unit
AllServiceable hash ((env, e) ∷ q) s =
    (env.hash ≡ hash) × Serviceable hash e.enc s × AllServiceable hash q s

-- `dackreqnum` is the number of the requests, as a `u16`.
abbrev pub IsCounted : Kernel → Type 0
IsCounted s = s.dackreqnum ≡ length s.dqueue % 2 ^ 16

AllServiceable-later :
    (hash : ℕ → ℕ) (q : List (Env × VmacQueue)) (s s' : Kernel)
    → ((enc : ℕ) → Serviceable hash enc s → Serviceable hash enc s')
    → AllServiceable hash q s
    → AllServiceable hash q s'
AllServiceable-later hash [] s s' f a = tt
AllServiceable-later hash ((env, e) ∷ q) s s' f (h, v, a) =
    (h, f e.enc v, AllServiceable-later hash q s s' f a)

-- One walk of `dackgen` over the requests that wait, for encodings that have entries, none with a wild DACK to send: it runs
-- without a fault whatever the kernel answers, no request is left, and if `dackreqnum` counted them, it is 0.
pub dackgen_serves :
    (hash : ℕ → ℕ) (q : List (Env × VmacQueue)) (s : Kernel)
    → requests q ≡ s.dqueue
    → AllServiceable hash q s
    → IsCounted s
    → (s' : Kernel) × (dackgen q s ≡ ok s') × (s'.dqueue ≡ []) × (s'.dackreqnum ≡ 0)
unfolding dackgen
dackgen_serves hash [] s same a c = (s, refl, sym same, c ∙ ap (λ q. length q % 2 ^ 16) (sym same))
dackgen_serves hash ((env, e) ∷ q) s same (h, v, a) c =
    let (s1, e1, d) = prep_dack-serves env hash e.enc e.seq s h v in
    let s2 = record s1 {
      dackreqnum = u16 (s1.dackreqnum + 2 ^ 16 - 1);
      dqueue = drop 1 s1.dqueue;
    } in
    let rest : requests q ≡ s2.dqueue = ap (drop 1) same ∙ ap (drop 1) (sym d.dqueue) in
    let keeps : (enc : ℕ) → Serviceable hash enc s → Serviceable hash enc s2 =
      serviceable hash s s1 d in
    let (s3, e3, none_left, zeroed) =
      dackgen_serves hash q s2 rest (AllServiceable-later hash q s s2 keeps a)
        (omega (arith, c, d.dackreqnum, ap length same, ap length rest)) in
    (s3, rw e1 e3, none_left, zeroed)

-- A request is counted, whether or not its entry can be allocated.
pub request_dack-IsCounted :
    (env : Env) (enc round : ℕ) (s : Kernel)
    → IsCounted s
    → IsCounted (request_dack env enc round s)
unfolding request_dack
request_dack-IsCounted env enc round s c = elim (Option-cases (env.kmalloc s.kmallocs)) [
  | inl e ↦ rw (e, request_dack) c
  | inr (item, e) ↦
      rw (e, request_dack)
        (omega (arith, c, length-append s.dqueue (record item { enc = enc; seq = round } ∷ [])))
]
