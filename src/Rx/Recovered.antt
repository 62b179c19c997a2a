-- ===== src/Rx/Recovered.antt =====
-- A DACK as a whole, from the window of a receiver that has lost frames to the queue of the sender.
use v_mac_kernel.Prelude.{
  ℕ, ◌+◌, ◌-◌, ◌*◌, ◌^◌, ◌≤◌, ◌<◌, ◌≡◌, ◌≢◌, refl, sym, ap, ◌∙◌, ◌⊎◌, inl, inr, List, [], ◌∷◌, ◌++◌,
  some, arith, length, All, All-both, All-map, In,
}
use v_mac_kernel.Words.{u16}
use v_mac_kernel.Skb.{Skb, null, to}
use v_mac_kernel.Structs.{EncodingTx, VmacQueue, window_tx, holes_max}
use v_mac_kernel.Table.{find, update}
use v_mac_kernel.Wire.{VmacHole}
use v_mac_kernel.Kernel.{Kernel, Env, ok}
use v_mac_kernel.Dack.{dack_frame}
use v_mac_kernel.Dack.Scan.{slot, scan_start, find_holes}
use v_mac_kernel.Dack.Holes.{Chain, total, Fenced}
use v_mac_kernel.Dack.Complete.{find_holes_lem}
use v_mac_kernel.Rx.{vmac_rx}
use v_mac_kernel.Rx.Retransmit.{maxretx, Resend}
use v_mac_kernel.Rx.Dispatch.{holding}
use v_mac_kernel.Rx.Report.{serve, answered, report_answered}
use v_mac_kernel.Rx.Pending.{
  Grants, Holds, Ripe, Copies, Distinct, range, Pending, Requeued, Requeued-none, Requeued-append,
}
use v_mac_kernel.Rx.Recovery.{resend_hole-Requeued}
use v_mac_kernel.Rx.Reported.{
  frames, All-frames, Distinct-frames, length-frames, Covered-In, Chain-Fit, All-lost,
}

module _ (env : Env) (grants : Grants env) (content : ℕ → List ℕ) (round seq : ℕ) where
  serve-Requeued :
      (hs : List VmacHole) (st : Resend)
      → Pending content round seq (frames hs) st
      → (st' : Resend) × (serve env round seq hs st ≡ ok st')
        × Requeued content (frames hs) st.kernel st'.kernel
  serve-Requeued [] st v = (st, refl, Requeued-none content st.kernel)
  serve-Requeued (h ∷ hs) st v =
      let (st1, e1, v1, q1) =
        resend_hole-Requeued env grants content round seq (h.re - h.le) h.le (frames hs) st v in
      let (st2, e2, q2) = serve-Requeued hs st1 v1 in
      (
        st2,
        rw e1 e2,
        Requeued-append content (range (h.re - h.le) h.le) (frames hs) st.kernel st1.kernel
            st2.kernel q1 q2,
      )

-- The queue has a copy of frame `f`.
abbrev pub HasCopy : (ℕ → List ℕ) → ℕ → List VmacQueue → Type 0
HasCopy content f [] = ⊥
HasCopy content f (e ∷ q) =
    ((skb : Skb) × (e.frame ≡ to skb) × (skb.bytes ≡ content f)) ⊎ HasCopy content f q

pub HasCopy-right :
    (content : ℕ → List ℕ) (f : ℕ) (p q : List VmacQueue)
    → HasCopy content f q
    → HasCopy content f (p ++ q)
HasCopy-right content f [] q h = h
HasCopy-right content f (e ∷ p) q h = inr (HasCopy-right content f p q h)

In-HasCopy :
    (content : ℕ → List ℕ) (f : ℕ) (is : List ℕ) (q : List VmacQueue)
    → Copies content is q
    → In f is
    → HasCopy content f q
In-HasCopy content f [] q c h = absurd h
In-HasCopy content f (i ∷ is) [] c h = absurd c
In-HasCopy content f (i ∷ is) (e ∷ q) c (inl same) =
    let (skb, to_skb, bytes) = c.0 in inl (skb, to_skb, bytes ∙ ap content (sym same))
In-HasCopy content f (i ∷ is) (e ∷ q) c (inr h) = inr (In-HasCopy content f is q c.2 h)

-- A frame that the window `w` lost, of those that a DACK for the frames before `lattmp` reports.
pub record IsLost (w : List ℕ) (lattmp i : ℕ) : Type 0 where
  pub low : scan_start lattmp ≤ i
  pub high : i + 1 < lattmp
  pub gone : slot w i ≡ 0

-- The sender of an encoding, at a DACK for the frames before `lattmp`, all of them sent, from the window `w`: its buffer holds
-- its last frames, and each lost frame is one of these, is not number WINDOW_TX, and is not held back by pacing.
pub record Answers (content : ℕ → List ℕ) (round lattmp : ℕ) (w : List ℕ) (vmact : EncodingTx)
    : Type 0 where
  pub holds : Holds content vmact.seq vmact
  pub sent : lattmp ≤ vmact.seq
  pub late : (i : ℕ) → IsLost w lattmp i → vmact.seq ≤ i + window_tx
  pub edge : (i : ℕ) → IsLost w lattmp i → i ≢ window_tx
  pub ripe : (i : ℕ) → IsLost w lattmp i → Ripe round vmact i

-- What the DACK of a receiver with window `w` leaves at the sender.
pub record Recovered (content : ℕ → List ℕ) (w : List ℕ) (lattmp : ℕ) (s s' : Kernel) : Type 0 where
  pub copies : List VmacQueue
  pub mqueue : s'.mqueue ≡ s.mqueue ++ copies
  pub numbers : List ℕ
  pub frames : Copies content numbers copies
  pub lost_only : All (λ i. slot w i ≡ 0) numbers
  pub distinct : Distinct numbers
  pub within : All (λ i. (scan_start lattmp ≤ i) × (i + 1 < lattmp)) numbers
  pub complete : (f : ℕ) → scan_start lattmp ≤ f → f + 1 < lattmp → slot w f ≡ 0 → In f numbers
  pub all_lost :
      (f : ℕ) → scan_start lattmp ≤ f → f + 1 < lattmp → slot w f ≡ 0 → HasCopy content f copies
  pub uqueue : s'.uqueue ≡ s.uqueue
  pub aired : s'.aired ≡ s.aired

-- The frames of the holes of a DACK.
All-IsLost :
    (w : List ℕ) (start lattmp lo hi : ℕ) (hs : List VmacHole)
    → start ≡ scan_start lattmp
    → Chain w start lattmp lo hs hi
    → All (IsLost w lattmp) (frames hs)
All-IsLost w start lattmp lo hi hs e chain =
    All-map (frames hs)
      (All-both (λ i. slot w i ≡ 0) (λ i. (start ≤ i) × (i + 1 < lattmp)) (frames hs)
        (All-lost w start lattmp lo hi hs chain)
        (All-frames w start lattmp lo hi hs chain (λ i a st b. (st, b))))
      (λ i (gone, place). record { low = omega (arith, place.0, e); high = place.1; gone = gone })

module _ (env : Env) (grants : Grants env) (content : ℕ → List ℕ) (enc round before : ℕ)
    (w fcs : List ℕ) (vmact : EncodingTx) (room skb : Skb) (s : Kernel) where
  abbrev lattmp : ℕ
  lattmp = u16 (round * 5)

  abbrev holes : List VmacHole
  holes = (find_holes before w lattmp).0

  answered-Recovered :
      Fenced before w
      → length holes < holes_max
      → total holes ≤ maxretx
      → Answers content round lattmp w vmact
      → (s' : Kernel) × (answered env enc round holes vmact skb s ≡ ok s')
        × Recovered content w lattmp s s'
  answered-Recovered fence few short a =
      let (chain, most, complete, count) = find_holes_lem before w lattmp fence in
      let start = scan_start lattmp in
      let lost = All-IsLost w start lattmp start lattmp holes refl chain in
      let st0 : Resend = record {
        vmact = record vmact { dackcounter = u16 (vmact.dackcounter + 1) };
        counter = 0;
        skb2 = null;
        kernel = s;
      } in
      let pending : Pending content round vmact.seq (frames holes) st0 = record {
        holds = a.holds;
        asked = All-map (frames holes) lost (λ i l. record {
          sent = omega (arith, a.sent, l.high);
          late = a.late i l;
          not_edge = a.edge i l;
        });
        ripe = All-map (frames holes) lost a.ripe;
        distinct = Distinct-frames w start lattmp start lattmp holes chain;
        room = omega (arith, length-frames holes, short);
      } in
      let reported : (f : ℕ) → start ≤ f → f + 1 < lattmp → slot w f ≡ 0 → In f (frames holes) =
        λ f lo hi gone. elim complete [
          | inl full ↦ absurd (omega (arith, few, full))
          | inr all ↦ Covered-In f holes (all f lo (omega arith) hi gone)
        ] in
      let (st, e, q) = serve-Requeued env grants content round vmact.seq holes st0 pending in
      (
        record (st.kernel) {
          tx_enc = update env.hash enc (λ _. st.vmact) st.kernel.tx_enc;
          freed = st.kernel.freed ++ skb.id ∷ [];
        },
        rw e refl,
        record {
          copies = q.copies;
          mqueue = q.mqueue;
          numbers = frames holes;
          frames = q.frames;
          lost_only = All-lost w start lattmp start lattmp holes chain;
          distinct = Distinct-frames w start lattmp start lattmp holes chain;
          within = All-frames w start lattmp start lattmp holes chain (λ i lo st b. (st, b));
          complete = λ f lo hi gone. reported f lo hi gone;
          all_lost = λ f lo hi gone.
              In-HasCopy content f (frames holes) q.copies q.frames (reported f lo hi gone);
          uqueue = q.uqueue;
          aired = q.aired;
        },
      )

  -- A DACK made of a receiver's window, which is fenced and has fewer holes than a DACK holds and no more frames in them than
  -- are copied for one, comes to the sender, which has sent all frames of the round and keeps its last WINDOW_TX frames
  -- under their numbers; each frame reported lost is one of these, not paced and not number WINDOW_TX. The round has 16 and
  -- the encoding 64 bits, the sender an entry for it. If the kernel grants all memory, then `vmac_rx` runs without a fault,
  -- and what `mqueue` gets at its end are copies of frames that the receiver lost and nothing else, among
  -- them each lost frame of its window but the last of the round; nothing else is queued or aired.
  pub lost_copied :
      Fenced before w
      → length holes < holes_max
      → total holes ≤ maxretx
      → Answers content round lattmp w vmact
      → round < 2 ^ 16
      → enc < 2 ^ 64
      → room.bytes ≡ []
      → find env.hash enc s.tx_enc ≡ some vmact
      → (s' : Kernel) × (vmac_rx env
            (to (holding skb ((dack_frame enc round holes room).bytes ++ fcs)))
            s
          ≡ ok s')
        × Recovered content w lattmp s s'
  lost_copied fence few short a hr he empty known =
      let (chain, most, complete, count) = find_holes_lem before w lattmp fence in
      let start = scan_start lattmp in
      let (s', e, r) = answered-Recovered fence few short a in
      (
        s',
        report_answered env enc round holes fcs vmact room skb s
              (Chain-Fit w start lattmp start lattmp holes (omega arith) chain) (omega (arith, few))
              hr he empty known
            ∙ e,
        r,
      )
