-- ===== src/Rx/Sending.antt =====
-- The sender of an encoding at the DACKs that it gets, through `vmac_rx` and `rqueuethread`: what its buffer, its queues
-- and the air hold.
use v_mac_kernel.Prelude.{
  ℕ, ◌+◌, ◌^◌, ◌<◌, ◌≡◌, refl, sym, ◌∙◌, inl, inr, false, List, [], ◌∷◌, ◌++◌, some, arith, All,
  All-drop, drop,
}
use mathlib.Core.Path.{subst}
use v_mac_kernel.Words.{u16}
use v_mac_kernel.Skb.{Skb, Ptr, null, to, wild, memory, pull}
use v_mac_kernel.Structs.{EncodingTx, VmacQueue}
use v_mac_kernel.Table.{find, update}
use v_mac_kernel.Table.Lookup.{find-update}
use v_mac_kernel.Wire.{VmacHdr, VmacHole, hdr_dack, hdr_size, hdr_bytes, read_dack, dack_size}
use v_mac_kernel.Wire.RoundTrip.{read_hdr-memory, length-hdr_bytes}
use v_mac_kernel.Kernel.{Kernel, Env, Outcome, ok, kfree_skb}
use v_mac_kernel.Queue.{rqueuethread}
use v_mac_kernel.Queue.Carry.{Bears, Carries, Carries-same, Carries-mono}
use v_mac_kernel.Rx.{rx_dack, vmac_rx}
use v_mac_kernel.Rx.Dispatch.{holding, pull-append}
use v_mac_kernel.Rx.Serving.{HasCopies, Keeps, IsClear, holes_of, resend_holes-Serves}

-- The bytes of a DACK of the encoding.
abbrev pub IsDack : ℕ → List ℕ → Type 0
IsDack enc b = (rest : List ℕ) × (b ≡ hdr_bytes (record { enc = enc; type = hdr_dack }) ++ rest)

-- The holes of a DACK that is received.
abbrev pub dack_body : Skb → List VmacHole
dack_body rest = holes_of (read_dack (memory rest)).holes (pull dack_size rest)

abbrev pub IsClearDack : ℕ → Ptr → Type 0
IsClearDack seq null = Unit
IsClearDack seq wild = Unit
IsClearDack seq (to skb) = All (IsClear seq) (dack_body (pull hdr_size skb))

-- The sender's entry has copies of the last frames, all frames sent have bytes of `P`, and those received are DACKs.
pub record Sending (P : List ℕ → Type 0) (hash : ℕ → ℕ) (enc : ℕ) (s : Kernel) : Type 0 where
  pub vmact : EncodingTx
  pub found : find hash enc s.tx_enc ≡ some vmact
  pub number : vmact.seq < 2 ^ 16
  pub copies : HasCopies vmact vmact.seq
  pub kept : Keeps P vmact vmact.seq
  pub carried : Carries false P (IsDack enc) s

-- An outcome without a fault that leaves the sender so.
abbrev pub KeepsSending : (List ℕ → Type 0) → (ℕ → ℕ) → ℕ → Outcome Kernel → Type 0
KeepsSending P hash enc out = (s' : Kernel) × (out ≡ ok s') × Sending P hash enc s'

-- The same, and the number of frames sent is `seq`.
abbrev KeepsNumber : (List ℕ → Type 0) → (ℕ → ℕ) → ℕ → ℕ → Outcome Kernel → Type 0
KeepsNumber P hash enc seq out =
    (s' : Kernel) × (out ≡ ok s') × (v : Sending P hash enc s') × (v.vmact.seq ≡ seq)

pub Sending-mono :
    (P P' : List ℕ → Type 0) (hash : ℕ → ℕ) (enc : ℕ) (s : Kernel)
    → ((b : List ℕ) → P b → P' b)
    → Sending P hash enc s
    → Sending P' hash enc s
Sending-mono P P' hash enc s f v = record {
  vmact = v.vmact;
  found = v.found;
  number = v.number;
  copies = v.copies;
  kept = λ i h k. let (skb, e, known) = v.kept i h k in (skb, e, f skb.bytes known);
  carried = Carries-mono false P P' (IsDack enc) s f v.carried;
}

module _ (P : List ℕ → Type 0) (env : Env) (enc : ℕ) where
  rx_dack-Sending :
      (skb : Skb) (s : Kernel) (v : Sending P env.hash enc s)
      → All (IsClear v.vmact.seq) (dack_body skb)
      → KeepsNumber P env.hash enc v.vmact.seq (rx_dack env enc skb s)
  unfolding rx_dack kfree_skb
  rx_dack-Sending skb s v clear =
      let ddr = read_dack (memory skb) in
      let (st, e, served) =
        resend_holes-Serves false P (IsDack enc) s.tx_enc env ddr.round v.vmact.seq ddr.holes
          (pull dack_size skb)
          (record {
            vmact = record (v.vmact) { dackcounter = u16 (v.vmact.dackcounter + 1) };
            counter = 0;
            skb2 = null;
            kernel = s;
          })
          (inr clear)
          (record {
            entry = record {
              buffer_size = v.copies.buffer_size;
              timer_size = v.copies.timer_size;
              copies = v.copies.copies;
            };
            kept = v.kept;
            sent = refl;
            held = inl refl;
            bounded = omega arith;
            carried = v.carried;
            same = refl;
          }) in
      let s' = record (st.kernel) {
        tx_enc = update env.hash enc (λ _. st.vmact) st.kernel.tx_enc;
        freed = st.kernel.freed ++ skb.id ∷ [];
      } in
      (
        s',
        rw (v.found, e, rx_dack) refl,
        record {
          vmact = st.vmact;
          found =
              rw served.same
                (ground (arith, find-update env.hash enc enc (λ _. st.vmact) s.tx_enc, v.found));
          number = rw served.sent v.number;
          copies = rw served.sent served.entry;
          kept = rw served.sent served.kept;
          carried =
              Carries-same false P (IsDack enc) st.kernel s' refl refl refl refl served.carried;
        },
        served.sent,
      )

  vmac_rx-Sending :
      (skb : Skb) (s : Kernel) (v : Sending P env.hash enc s)
      → enc < 2 ^ 64
      → IsDack enc skb.bytes
      → IsClearDack v.vmact.seq (to skb)
      → KeepsNumber P env.hash enc v.vmact.seq (vmac_rx env (to skb) s)
  unfolding vmac_rx
  vmac_rx-Sending skb s v he (rest, e) clear =
      let h : VmacHdr = record { enc = enc; type = hdr_dack } in
      let q = read_hdr-memory h rest skb.beyond he (omega arith) in
      let p = pull-append skb (hdr_bytes h) rest 9 (length-hdr_bytes h) in
      let seq = v.vmact.seq in
      let there : IsClearDack seq (to (holding skb (hdr_bytes h ++ rest))) =
        subst (λ b. IsClearDack seq (to (holding skb b))) e clear in
      let body : All (IsClear seq) (dack_body (holding skb rest)) =
        subst (λ y. All (IsClear seq) (dack_body y)) p there in
      subst (λ b. KeepsNumber P env.hash enc seq (vmac_rx env (to (holding skb b)) s)) (sym e)
        (rw (q, p) (rx_dack-Sending (holding skb rest) s v body))

  pub rqueuethread-Sending :
      (seq : ℕ) (q : List VmacQueue) (s : Kernel) (v : Sending P env.hash enc s)
      → enc < 2 ^ 64
      → v.vmact.seq ≡ seq
      → All (Bears (IsDack enc)) q
      → All (λ e. IsClearDack seq e.frame) q
      → KeepsSending P env.hash enc (rqueuethread (vmac_rx env) q s)
  unfolding rqueuethread
  rqueuethread-Sending seq [] s v he number h c = (s, refl, v)
  rqueuethread-Sending seq (e ∷ q) s v he number ((skb, there, dack), h) (clear, c) =
      let now : IsClearDack v.vmact.seq (to skb) =
        subst (λ j. IsClearDack j (to skb)) (sym number)
          (subst (λ p. IsClearDack seq p) there clear) in
      let (s1, e1, v1, number1) = vmac_rx-Sending skb s v he dack now in
      let s2 = record s1 { rx_upper = drop 1 s1.rx_upper } in
      let v2 : Sending P env.hash enc s2 = record {
        vmact = v1.vmact;
        found = v1.found;
        number = v1.number;
        copies = v1.copies;
        kept = v1.kept;
        carried = record {
          data_frames = v1.carried.data_frames;
          mgmt_frames = v1.carried.mgmt_frames;
          rx_frames = All-drop (Bears (IsDack enc)) 1 s1.rx_upper v1.carried.rx_frames;
          aired = v1.carried.aired;
        };
      } in
      let (s', e', v') = rqueuethread-Sending seq q s2 v2 he (number1 ∙ number) h c in
      (s', rw (there, e1) e', v')
