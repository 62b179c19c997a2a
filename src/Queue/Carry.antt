-- ===== src/Queue/Carry.antt =====
-- What the bytes are that the queues and the air hold, through the operations on the queues.
use v_mac_kernel.Prelude.{
  ℕ, ◌≡◌, refl, sym, List, [], ◌∷◌, ◌++◌, All, All-append, All-take, All-drop, All-map, length,
  take, drop, Option-cases, Bool, true, false, ◌⊎◌, inl, inr,
}
use mathlib.Core.Path.{subst}
use v_mac_kernel.Skb.{Skb, Ptr, to, wild}
use v_mac_kernel.Structs.{VmacQueue}
use v_mac_kernel.Kernel.{Kernel, Env, ok}
use v_mac_kernel.LowTx.{spoofed_hdr, on_air}
use v_mac_kernel.Queue.{default_rate, rate_of, enq_uqueue, retrx, add_mgmt, queuethread}
use v_mac_kernel.Queue.Priority.{served, asked, airs, HasFrames, queuethread_lem}

-- The entry holds a frame with bytes of `P`.
abbrev pub Bears : (List ℕ → Type 0) → VmacQueue → Type 0
Bears P e = (skb : Skb) × (e.frame ≡ to skb) × P skb.bytes

-- The entry holds a frame with bytes of `P`, or, where `lend` allows it, a pointer that was given away.
abbrev pub Bearing : Bool → (List ℕ → Type 0) → Ptr → Type 0
Bearing lend P p = ((skb : Skb) × (p ≡ to skb) × P skb.bytes) ⊎ ((lend ≡ true) × (p ≡ wild))

abbrev pub MayBear : Bool → (List ℕ → Type 0) → VmacQueue → Type 0
MayBear lend P e = Bearing lend P e.frame

-- A frame with a header of 802.11 in front of bytes of `P`.
pub record OnAir (P : List ℕ → Type 0) (x : Skb) : Type 0 where
  pub rate : ℕ
  pub stack : List ℕ
  pub inner : List ℕ
  pub eight : length stack ≡ 8
  pub known : P inner
  pub bytes : x.bytes ≡ spoofed_hdr rate stack ++ inner

-- The queued entries hold frames, but for pointers in `mqueue` that were given away, where `lend` allows it. The
-- frames to be sent and those on air have bytes of `P`, and those received have bytes of `Q`.
pub record Carries (lend : Bool) (P Q : List ℕ → Type 0) (s : Kernel) : Type 0 where
  pub data_frames : All (Bears P) s.uqueue
  pub mgmt_frames : All (MayBear lend P) s.mqueue
  pub rx_frames : All (Bears Q) s.rx_upper
  pub aired : All (OnAir P) s.aired

Bears-HasFrames : (P : List ℕ → Type 0) (q : List VmacQueue) → All (Bears P) q → HasFrames q
Bears-HasFrames P [] h = tt
Bears-HasFrames P (e ∷ q) h = ((h.0.0, h.0.1), Bears-HasFrames P q h.1)

pub Carries-same :
    (lend : Bool) (P Q : List ℕ → Type 0) (s s' : Kernel)
    → s'.uqueue ≡ s.uqueue
    → s'.mqueue ≡ s.mqueue
    → s'.rx_upper ≡ s.rx_upper
    → s'.aired ≡ s.aired
    → Carries lend P Q s
    → Carries lend P Q s'
Carries-same lend P Q s s' u m r a v = record {
  data_frames = subst (All (Bears P)) (sym u) v.data_frames;
  mgmt_frames = subst (All (MayBear lend P)) (sym m) v.mgmt_frames;
  rx_frames = subst (All (Bears Q)) (sym r) v.rx_frames;
  aired = subst (All (OnAir P)) (sym a) v.aired;
}

-- More bytes are known.
pub Carries-mono :
    (lend : Bool) (P P' Q : List ℕ → Type 0) (s : Kernel)
    → ((b : List ℕ) → P b → P' b)
    → Carries lend P Q s
    → Carries lend P' Q s
Carries-mono lend P P' Q s f v =
    let more : (e : VmacQueue) → Bears P e → Bears P' e = λ e h. (h.0, h.1, f h.0.bytes h.2) in
    record {
      data_frames = All-map s.uqueue v.data_frames more;
      mgmt_frames =
          All-map s.mqueue v.mgmt_frames (λ e h. elim h [ inl b ↦ inl (more e b) | inr w ↦ inr w ]);
      rx_frames = v.rx_frames;
      aired = All-map s.aired v.aired (λ x h. record {
        rate = h.rate;
        stack = h.stack;
        inner = h.inner;
        eight = h.eight;
        known = f h.inner h.known;
        bytes = h.bytes;
      });
    }

on_air-OnAir :
    (P : List ℕ → Type 0) (env : Env) (rate : ℕ) (p : Ptr) (skb : Skb)
    → length env.stack ≡ 8
    → p ≡ to skb
    → P skb.bytes
    → All (OnAir P) (on_air env rate p)
on_air-OnAir P env rate p skb eight there known = rw there (
  record {
    rate = rate;
    stack = env.stack;
    inner = skb.bytes;
    eight = eight;
    known = known;
    bytes = refl;
  },
  tt,
)

airs-OnAir :
    (P : List ℕ → Type 0) (env : Env) (rate : VmacQueue → ℕ) (q : List VmacQueue)
    → length env.stack ≡ 8
    → All (Bears P) q
    → All (OnAir P) (airs env rate q)
airs-OnAir P env rate [] eight h = tt
airs-OnAir P env rate (e ∷ q) eight ((skb, there, known), h) =
    All-append (OnAir P) (on_air env (rate e) e.frame) (airs env rate q)
      (on_air-OnAir P env (rate e) e.frame skb eight there known) (airs-OnAir P env rate q eight h)

pub retrx-tx_enc :
    (env : Env) (p : Ptr) (rate : ℕ) (s : Kernel) → (retrx env p rate s).tx_enc ≡ s.tx_enc
unfolding retrx
retrx-tx_enc env p rate s = elim (Option-cases (env.kmalloc s.kmallocs)) [
  | inl e ↦ rw (e, retrx) refl
  | inr (x, e) ↦ rw (e, retrx) refl
]

pub add_mgmt-tx_enc : (env : Env) (p : Ptr) (s : Kernel) → (add_mgmt env p s).tx_enc ≡ s.tx_enc
unfolding add_mgmt
add_mgmt-tx_enc env p s = elim (Option-cases (env.kmalloc s.kmallocs)) [
  | inl e ↦ rw (e, add_mgmt) refl
  | inr (x, e) ↦ rw (e, add_mgmt) refl
]

module _ (lend : Bool) (P Q : List ℕ → Type 0) (env : Env) (s : Kernel)
    (v : Carries lend P Q s) where
  module _ (skb : Skb) where
    pub enq_uqueue-Carries :
        (rate : ℕ) → P skb.bytes → Carries lend P Q (enq_uqueue env (to skb) 0 rate s)
    unfolding enq_uqueue
    enq_uqueue-Carries rate known = elim (Option-cases (env.kmalloc s.kmallocs)) [
      | inl e ↦ rw (e, enq_uqueue) (Carries-same lend P Q s _ refl refl refl refl v)
      | inr (x, e) ↦
          rw (e, enq_uqueue)
            (record {
              data_frames = All-append (Bears P) s.uqueue _ v.data_frames ((skb, refl, known), tt);
              mgmt_frames = v.mgmt_frames;
              rx_frames = v.rx_frames;
              aired = v.aired;
            })
    ]

    pub add_mgmt-Carries : Q skb.bytes → Carries lend P Q (add_mgmt env (to skb) s)
    unfolding add_mgmt
    add_mgmt-Carries known = elim (Option-cases (env.kmalloc s.kmallocs)) [
      | inl e ↦ rw (e, add_mgmt) (Carries-same lend P Q s _ refl refl refl refl v)
      | inr (x, e) ↦
          rw (e, add_mgmt)
            (record {
              data_frames = v.data_frames;
              mgmt_frames = v.mgmt_frames;
              rx_frames = All-append (Bears Q) s.rx_upper _ v.rx_frames ((skb, refl, known), tt);
              aired = v.aired;
            })
    ]

  pub retrx-Carries :
      (p : Ptr) (rate : ℕ) → Bearing lend P p → Carries lend P Q (retrx env p rate s)
  unfolding retrx
  retrx-Carries p rate known = elim (Option-cases (env.kmalloc s.kmallocs)) [
    | inl e ↦ rw (e, retrx) (Carries-same lend P Q s _ refl refl refl refl v)
    | inr (x, e) ↦
        rw (e, retrx)
          (record {
            data_frames = v.data_frames;
            mgmt_frames = All-append (MayBear lend P) s.mqueue _ v.mgmt_frames (known, tt);
            rx_frames = v.rx_frames;
            aired = v.aired;
          })
  ]

module _ (P Q : List ℕ → Type 0) (env : Env) (s : Kernel) (v : Carries false P Q s) where
  -- A round of `queuethread` runs without a fault and airs what the queues held.
  pub queuethread-Carries :
      length env.stack ≡ 8
      → (s' : Kernel) × (queuethread env s ≡ ok s') × (s'.tx_enc ≡ s.tx_enc) × Carries false P Q s'
  queuethread-Carries eight =
      let frames : All (Bears P) s.mqueue =
        All-map s.mqueue v.mgmt_frames (λ e h. elim h [ inl b ↦ b | inr w ↦ absurd (cc) ]) in
      let m = served env.slot 0 (length s.mqueue) in
      let u = served env.slot (asked env.slot 0 (length s.mqueue)) (length s.uqueue) in
      let mgmt = take m s.mqueue in
      let data_frames = take u s.uqueue in
      let a1 = airs env (λ _. default_rate) mgmt in
      let a2 = airs env rate_of data_frames in
      (
        record s {
          aired = (s.aired ++ a1) ++ a2;
          mqueue = drop m s.mqueue;
          uqueue = drop u s.uqueue;
        },
        queuethread_lem env s (Bears-HasFrames P s.mqueue frames)
            (Bears-HasFrames P s.uqueue v.data_frames),
        refl,
        record {
          data_frames = All-drop (Bears P) u s.uqueue v.data_frames;
          mgmt_frames =
              All-map (drop m s.mqueue) (All-drop (Bears P) m s.mqueue frames) (λ e h. inl h);
          rx_frames = v.rx_frames;
          aired =
              All-append (OnAir P) (s.aired ++ a1) a2
                (All-append (OnAir P) s.aired a1 v.aired (
                  airs-OnAir P env (λ _. default_rate) mgmt eight
                    (All-take (Bears P) m s.mqueue frames)))
                (airs-OnAir P env rate_of data_frames eight
                  (All-take (Bears P) u s.uqueue v.data_frames));
        },
      )
