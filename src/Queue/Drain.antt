-- ===== src/Queue/Drain.antt =====
-- The queues of frames run empty, if the driver has slots.
use v_mac_kernel.Prelude.{
  ℕ, zero, suc, ◌+◌, ◌-◌, ◌≤◌, ◌≡◌, refl, ap, ◌∙◌, List, [], ◌∷◌, ◌++◌, Bool, true, length, take,
  drop, arith, length-append,
}
use v_mac_kernel.Structs.{VmacQueue}
use v_mac_kernel.Kernel.{Kernel, Env, Outcome, ok, ◌>>=◌}
use v_mac_kernel.Queue.{default_rate, rate_of, queuethread}
use v_mac_kernel.Queue.Priority.{HasFrames, served, asked, airs, queuethread_lem}
use v_mac_kernel.Queue.Append.{Queued, HasFrames-drop}

served-le : (slot : ℕ → Bool) (calls n : ℕ) → served slot calls n ≤ n
served-le slot calls zero = omega arith
served-le slot calls (suc n) = ground (arith, served-le slot (calls + 1) n)

length-drop {ℓ} : {A : Type ℓ} (n : ℕ) (xs : List A) → length (drop n xs) ≡ length xs - n
length-drop zero xs = omega arith
length-drop (suc n) [] = omega arith
length-drop (suc n) (x ∷ xs) = omega (arith, length-drop n xs)

HasFrames-take : (n : ℕ) (q : List VmacQueue) → HasFrames q → HasFrames (take n q)
HasFrames-take zero q f = tt
HasFrames-take (suc n) [] f = tt
HasFrames-take (suc n) (x ∷ q) f = (f.0, HasFrames-take n q f.1)

length-airs :
    (env : Env) (rate : VmacQueue → ℕ) (n : ℕ) (q : List VmacQueue)
    → HasFrames q
    → n ≤ length q
    → length (airs env rate (take n q)) ≡ n
length-airs env rate zero q f le = refl
length-airs env rate (suc n) [] f le = absurd (omega arith)
length-airs env rate (suc n) (e ∷ q) f le =
    rw f.0.1 (ap suc (length-airs env rate n q f.1 (omega arith)))

-- With a slot free at the start, a round sends a frame, if there is one.
some_served :
    (slot : ℕ → Bool) (m u : ℕ)
    → slot 0 ≡ true
    → m + u ≤ served slot 0 m + served slot (asked slot 0 m) u + (m + u - 1)
some_served slot zero zero h = omega arith
some_served slot zero (suc u) h = ground arith
some_served slot (suc m) u h = ground arith

-- The rounds of `queuethread`, one for each of the kernel's answers.
abbrev pub rounds : List Env → Kernel → Outcome Kernel
rounds [] s = ok s
rounds (env ∷ later) s = queuethread env s >>= rounds later

-- The frames that wait to be sent.
abbrev pub waiting : Kernel → ℕ
waiting s = length s.mqueue + length s.uqueue

-- The driver has a slot free when a round starts.
abbrev pub AllServe : List Env → Type 0
AllServe [] = Unit
AllServe (env ∷ later) = (env.slot 0 ≡ true) × AllServe later

-- What rounds leave: frames that waited and do not any more are on air.
pub record Progress (n : ℕ) (s s' : Kernel) : Type 0 where
  pub queued : Queued s'
  pub fewer : waiting s' ≤ waiting s - n
  pub conserved : length s'.aired + waiting s' ≡ length s.aired + waiting s

round-Progress :
    (env : Env) (s : Kernel)
    → env.slot 0 ≡ true
    → Queued s
    → (s' : Kernel) × (queuethread env s ≡ ok s') × Progress 1 s s'
round-Progress env s slot v =
    let m = served env.slot 0 (length s.mqueue) in
    let a = asked env.slot 0 (length s.mqueue) in
    let u = served env.slot a (length s.uqueue) in
    let first = airs env (λ _. default_rate) (take m s.mqueue) in
    let second = airs env rate_of (take u s.uqueue) in
    let m_le = served-le env.slot 0 (length s.mqueue) in
    let u_le = served-le env.slot a (length s.uqueue) in
    (
      _,
      queuethread_lem env s v.mgmt_frames v.data_frames,
      record {
        queued = record {
          data_frames = HasFrames-drop u s.uqueue v.data_frames;
          mgmt_frames = HasFrames-drop m s.mqueue v.mgmt_frames;
          rx_frames = v.rx_frames;
        };
        fewer = omega (
          arith,
          length-drop m s.mqueue,
          length-drop u s.uqueue,
          m_le,
          u_le,
          some_served env.slot (length s.mqueue) (length s.uqueue) slot,
        );
        conserved = omega (
          arith,
          length-append (s.aired ++ first) second,
          length-append s.aired first,
          length-airs env (λ _. default_rate) m s.mqueue v.mgmt_frames m_le,
          length-airs env rate_of u s.uqueue v.data_frames u_le,
          length-drop m s.mqueue,
          length-drop u s.uqueue,
          m_le,
          u_le,
        );
      },
    )

rounds-Progress :
    (later : List Env) (s : Kernel)
    → AllServe later
    → Queued s
    → (s' : Kernel) × (rounds later s ≡ ok s') × Progress (length later) s s'
rounds-Progress [] s a v = (s, refl, record { queued = v; fewer = omega arith; conserved = refl })
rounds-Progress (env ∷ later) s a v =
    let (s1, e1, p1) = round-Progress env s a.0 v in
    let (s2, e2, p2) = rounds-Progress later s1 a.1 p1.queued in
    (
      s2,
      rw e1 e2,
      record {
        queued = p2.queued;
        fewer = omega (arith, p1.fewer, p2.fewer);
        conserved = p2.conserved ∙ p1.conserved;
      },
    )

length-none {ℓ} : {A : Type ℓ} (xs : List A) → length xs ≤ 0 → xs ≡ []
length-none [] h = refl
length-none (x ∷ xs) h = absurd (omega arith)

-- If every queued entry holds a frame, and nothing is appended, then as many rounds of `queuethread` as there are
-- frames in `mqueue` and `uqueue`, or more, each of which finds a slot free at its start, run without a
-- fault and empty both queues, and as many frames have gone on air as were queued.
pub rounds_drain :
    (later : List Env) (s : Kernel)
    → AllServe later
    → Queued s
    → waiting s ≤ length later
    → (s' : Kernel) × (rounds later s ≡ ok s')
      × (s'.mqueue ≡ [])
      × (s'.uqueue ≡ [])
      × (length s'.aired ≡ length s.aired + waiting s)
rounds_drain later s a v enough =
    let (s', e, p) = rounds-Progress later s a v in
    (
      s',
      e,
      length-none s'.mqueue (omega (arith, p.fewer, enough)),
      length-none s'.uqueue (omega (arith, p.fewer, enough)),
      omega (arith, p.conserved, p.fewer, enough),
    )
