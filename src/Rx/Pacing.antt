-- ===== src/Rx/Pacing.antt =====
-- The pacing of retransmissions: what several receivers report missing in one round is sent once.
use v_mac_kernel.Prelude.{
  ℕ, zero, suc, ◌+◌, ◌%◌, ◌≤◌, ◌<◌, ◌≡◌, refl, ◌∙◌, sym, ◌⊎◌, inl, inr, false, ltb, leb, arith,
  length, length-set, get_or, set, get_or-set_at, get_or-set_ne, Bool-cases,
}
use native.Mathlib.Decide.{ℕ_discrete}
use v_mac_kernel.Words.{u8}
use v_mac_kernel.Skb.{Ptr, null, to, wild, Ptr-cases}
use v_mac_kernel.Structs.{window_tx}
use v_mac_kernel.Kernel.{Env, Fault, Outcome, ok, oops, ◌>>=◌}
use v_mac_kernel.Rx.Retransmit.{
  maxretx, Resend, ring_tx, ring_test, buffer_at, copy_ptr, fetch, requeue, due, resend_hole,
}

-- Frame `f` must wait for a round after `round`.
abbrev pub Waits : ℕ → Resend → ℕ → Type 0
Waits round st f = round < get_or st.vmact.timer (f % window_tx) 0

-- A copy changes neither the pacing nor, downwards, the count.
record Fetched (st st' : Resend) : Type 0 where
  timer : st'.vmact.timer ≡ st.vmact.timer
  counter : st.counter ≤ st'.counter

copy-Fetched :
    (env : Env) (p : Ptr) (st st' : Resend)
    → (copy_ptr env p st.kernel >>= λ (q, s).
        ok (record st { skb2 = q; counter = st.counter + 1; kernel = s }))
      ≡ ok st'
    → Fetched st st'
unfolding copy_ptr
copy-Fetched env null st st' e = absurd (cc)
copy-Fetched env wild st st' e = absurd (cc)
copy-Fetched env (to skb) st st' e = ground arith

fetch-Fetched : (env : Env) (le : ℕ) (st st' : Resend) → fetch env le st ≡ ok st' → Fetched st st'
unfolding fetch
fetch-Fetched env le st st' e = elim (Ptr-cases (buffer_at st.vmact (ring_test le))) [
  | inl p ↦ let h = rw (p, fetch) at e in ground arith
  | inr (inl (skb, p)) ↦ copy-Fetched env _ st st' (rw (p, fetch) at e)
  | inr (inr p) ↦ copy-Fetched env _ st st' (rw (p, fetch) at e)
]

requeue-timer :
    (env : Env) (round le : ℕ) (st : Resend)
    → (requeue env round le st).vmact.timer ≡ set st.vmact.timer (le % window_tx) (u8 (round + 6))
unfolding requeue
requeue-timer env round le st = elim (Ptr-cases st.skb2) [
  | inl e ↦ rw (e, requeue) refl
  | inr (inl (skb, e)) ↦ rw (e, requeue) refl
  | inr (inr e) ↦ rw (e, requeue) refl
]

requeue-counter :
    (env : Env) (round le : ℕ) (st : Resend) → (requeue env round le st).counter ≡ st.counter
unfolding requeue
requeue-counter env round le st = elim (Ptr-cases st.skb2) [
  | inl e ↦ rw (e, requeue) refl
  | inr (inl (skb, e)) ↦ rw (e, requeue) refl
  | inr (inr e) ↦ rw (e, requeue) refl
]

-- The pacing of a frame is read at the place that its service writes.
requeue-Waits :
    (env : Env) (round le f : ℕ) (st : Resend)
    → length st.vmact.timer ≡ window_tx
    → round + 6 < 256
    → (f % window_tx ≡ le % window_tx) ⊎ Waits round st f
    → Waits round (requeue env round le st) f
requeue-Waits env round le f st size fits h = elim (ℕ_discrete (le % window_tx) (f % window_tx)) [
  | yes e ↦
      let w =
        get_or-set_at st.vmact.timer (le % window_tx) (f % window_tx) (u8 (round + 6)) 0 e
          (omega arith) in
      rw (requeue-timer env round le st, w) (omega arith)
  | no ne ↦
      let w = get_or-set_ne st.vmact.timer (le % window_tx) (f % window_tx) (u8 (round + 6)) 0 ne in
      rw (requeue-timer env round le st, w) (elim h [ inl e ↦ absurd (ne (sym e)) | inr w ↦ w ])
]

-- What a pass over frames `le` to `le + n` leaves behind.
record Paced (round seq n le : ℕ) (st st' : Resend) : Type 0 where
  size : length st'.vmact.timer ≡ window_tx
  counter : st.counter ≤ st'.counter
  kept : (f : ℕ) → Waits round st f → Waits round st' f
  paced : (f : ℕ) → le ≤ f → f < le + n → f < seq → seq ≤ f + window_tx → Waits round st' f

-- Serving frame `le` and then the rest paces frame `le` too.
served-Paced :
    (env : Env) (round seq n le : ℕ) (st st1 st' : Resend)
    → length st.vmact.timer ≡ window_tx
    → round + 6 < 256
    → Fetched st st1
    → Paced round seq n (le + 1) (requeue env round le st1) st'
    → Paced round seq (suc n) le st st'
served-Paced env round seq n le st st1 st' size fits got rest =
    let size1 : length st1.vmact.timer ≡ window_tx = rw got.timer size in
    let here : (f : ℕ) → (f % window_tx ≡ le % window_tx) ⊎ Waits round st f → Waits round st' f =
      λ f h. rest.kept f (
        requeue-Waits env round le f st1 size1 fits
          (elim h [ inl e ↦ inl e | inr w ↦ inr (rw got.timer w) ])) in
    record {
      size = rest.size;
      counter =
          (let c = requeue-counter env round le st1 in
            let g = got.counter in let r = rest.counter in omega arith);
      kept = λ f w. here f (inr w);
      paced = λ f a b c d. elim (ℕ_discrete f le) [
        | yes e ↦ here f (inl (rw e refl))
        | no ne ↦ rest.paced f (omega arith) (omega arith) c d
      ];
    }

requeue-size :
    (env : Env) (round le : ℕ) (st st1 : Resend)
    → Fetched st st1
    → length st.vmact.timer ≡ window_tx
    → length (requeue env round le st1).vmact.timer ≡ window_tx
requeue-size env round le st st1 got size =
    let l = length-set st.vmact.timer (le % window_tx) (u8 (round + 6)) in
    rw (requeue-timer env round le st1, got.timer) (l ∙ size)

Outcome-cases :
    (out : Outcome Resend) → ((st : Resend) × (out ≡ ok st)) ⊎ ((x : Fault) × (out ≡ oops x))
Outcome-cases (ok st) = inl (st, refl)
Outcome-cases (oops x) = inr (x, refl)

-- A frame that is not due waits already, or has left the buffer.
waits_already :
    (round seq le : ℕ) (st : Resend)
    → due round seq le st.vmact ≡ false
    → le < seq
    → seq ≤ le + window_tx
    → Waits round st le
waits_already round seq le st later sent near =
    let e : ring_tx le ≡ le % window_tx = ground arith in let t = rw e at later in ground arith

module _ (env : Env) (round seq : ℕ) where
  resend_hole-Paced :
      (n le : ℕ) (st st' : Resend)
      → length st.vmact.timer ≡ window_tx
      → round + 6 < 256
      → resend_hole env round seq n le st ≡ ok st'
      → st'.counter < maxretx
      → Paced round seq n le st st'
  unfolding resend_hole
  resend_hole-Paced zero le st st' size fits e room =
      let e' : st ≡ st' = cc in
      rw (← e') (record {
        size = size;
        counter = omega arith;
        kept = λ f w. w;
        paced = λ f a b c d. absurd (omega arith);
      })
  resend_hole-Paced (suc n) le st st' size fits e room = elim (Bool-cases (ltb le seq)) [
    | inl sent ↦ elim (Bool-cases (due round seq le st.vmact)) [
      | inl now ↦ elim (Bool-cases (leb maxretx st.counter)) [
        | inl full ↦
            let e' : ok st ≡ ok st' = rw (sent, now, full) at e in
            let e2 : st ≡ st' = cc in absurd (ground arith)
        | inr free ↦ elim (Outcome-cases (fetch env le st)) [
          | inl (st1, g) ↦
              let got = fetch-Fetched env le st st1 g in
              served-Paced env round seq n le st st1 st' size fits got (
                resend_hole-Paced n (le + 1) (requeue env round le st1) st'
                  (requeue-size env round le st st1 got size) fits (rw (sent, now, free, g) at e)
                  room)
          | inr (x, g) ↦ absurd (let h = rw (sent, now, free, g) at e in cc)
        ]
      ]
      | inr later ↦
          let rest = resend_hole-Paced n (le + 1) st st' size fits (rw (sent, later) at e) room in
          record {
            size = rest.size;
            counter = rest.counter;
            kept = rest.kept;
            paced = λ f a b c d. elim (ℕ_discrete f le) [
              | yes q ↦
                  rest.kept f
                    (rw q (waits_already round seq le st later (ground arith) (omega arith)))
              | no ne ↦ rest.paced f (omega arith) (omega arith) c d
            ];
          }
    ]
    | inr unsent ↦
        let e' : ok st ≡ ok st' = rw unsent at e in
        let e2 : st ≡ st' = cc in
        rw (← e2) (record {
          size = size;
          counter = omega arith;
          kept = λ f w. w;
          paced = λ f a b c d. absurd (ground arith);
        })
  ]

  -- Frames that wait are passed over.
  skip :
      (n le : ℕ) (st : Resend)
      → ((f : ℕ) → le ≤ f → f < le + n → f < seq → seq ≤ f + window_tx → Waits round st f)
      → resend_hole env round seq n le st ≡ ok st
  unfolding resend_hole
  skip zero le st h = refl
  skip (suc n) le st h = elim (Bool-cases (ltb le seq)) [
    | inl sent ↦ elim (Bool-cases (due round seq le st.vmact)) [
      | inl now ↦
          let e : ring_tx le ≡ le % window_tx = ground arith in
          let t = rw e at now in
          let w = h le (omega arith) (omega arith) (ground arith) (ground arith) in
          absurd (ground arith)
      | inr later ↦
          rw (sent, later) (skip n (le + 1) st (λ f a b c d. h f (omega arith) (omega arith) c d))
    ]
    | inr unsent ↦ rw unsent refl
  ]

  -- What one DACK had sent again is not sent again for the next DACK of the same round: if the frames
  -- from `le` to `le + n` were served without reaching the limit of 20 copies, then a later service
  -- of a hole within that range, from any state whose entry still has the pacing, changes nothing;
  -- for a round below 250, at which the pacing fits its byte.
  pub resend_hole_again :
      (n le : ℕ) (st st' : Resend)
      → length st.vmact.timer ≡ window_tx
      → round + 6 < 256
      → resend_hole env round seq n le st ≡ ok st'
      → st'.counter < maxretx
      → (m re : ℕ) (st2 : Resend) → st2.vmact.timer ≡ st'.vmact.timer
      → le ≤ re
      → re + m ≤ le + n
      → resend_hole env round seq m re st2 ≡ ok st2
  resend_hole_again n le st st' size fits e room m re st2 same a b =
      let p = resend_hole-Paced n le st st' size fits e room in
      skip m re st2 (λ f c d g h. rw same (p.paced f (omega arith) (omega arith) g h))
