-- ===== src/Rx/Report.antt =====
-- What a DACK says is what it was made of: the frame of `prepDACK` through the branch of `vmac_rx`.
use v_mac_kernel.Prelude.{
  append_assoc, ℕ, ◌+◌, ◌-◌, ◌^◌, ◌<◌, ◌≡◌, refl, List, [], ◌∷◌, ◌++◌, some, arith, length,
}
use v_mac_kernel.Words.{u16}
use v_mac_kernel.Skb.{Skb, null, to}
use v_mac_kernel.Structs.{EncodingTx}
use v_mac_kernel.Table.{find, update}
use v_mac_kernel.Wire.{VmacHdr, VmacDack, VmacHole, hdr_dack, hole_bytes, hdr_bytes, dack_bytes}
use v_mac_kernel.Wire.RoundTrip.{
  length-hdr_bytes, read_hdr-memory, length-dack_bytes, read_dack-memory, length-hole_bytes,
  read_hole-memory,
}
use v_mac_kernel.Kernel.{Kernel, Env, Outcome, ok, oops, ◌>>=◌, kfree_skb}
use v_mac_kernel.Dack.{holes_bytes, dack_frame}
use v_mac_kernel.Rx.{rx_dack, vmac_rx}
use v_mac_kernel.Rx.Retransmit.{Resend, resend_hole, resend_holes}
use v_mac_kernel.Rx.Dispatch.{holding, pull-append}

-- The holes served one after the other.
abbrev pub serve : Env → ℕ → ℕ → List VmacHole → Resend → Outcome Resend
serve env round seq [] st = ok st
serve env round seq (h ∷ hs) st =
    resend_hole env round seq (h.re - h.le) h.le st >>= serve env round seq hs

-- The edges of a hole fit their fields.
abbrev pub Fit : List VmacHole → Type 0
Fit [] = Unit
Fit (h ∷ hs) = (h.le < 2 ^ 16) × (h.re < 2 ^ 16) × Fit hs

bind-cong :
    (m : Outcome Resend) (f g : Resend → Outcome Resend)
    → ((st : Resend) → f st ≡ g st)
    → (m >>= f) ≡ (m >>= g)
bind-cong (ok st) f g h = h st
bind-cong (oops x) f g h = refl

resend_holes-serve :
    (env : Env) (round seq : ℕ) (hs : List VmacHole) (rest : List ℕ) (skb : Skb) (st : Resend)
    → Fit hs
    → resend_holes env round seq (length hs) (holding skb (holes_bytes hs ++ rest)) st
      ≡ serve env round seq hs st
unfolding resend_holes holes_bytes
resend_holes-serve env round seq [] rest skb st f = refl
resend_holes-serve env round seq (h ∷ hs) rest skb st f =
    let a = append_assoc (hole_bytes h) (holes_bytes hs) rest in
    let q = read_hole-memory h (holes_bytes hs ++ rest) skb.beyond f.0 f.1 in
    let p = pull-append skb (hole_bytes h) (holes_bytes hs ++ rest) 4 (length-hole_bytes h) in
    rw (a, q, p)
      (bind-cong (resend_hole env round seq (h.re - h.le) h.le st)
        (resend_holes env round seq (length hs) (holding skb (holes_bytes hs ++ rest)))
        (serve env round seq hs) (λ st. resend_holes-serve env round seq hs rest skb st f.2))

-- What a DACK of a round leaves at the sender of the encoding, for the holes in their order.
abbrev pub answered : Env → ℕ → ℕ → List VmacHole → EncodingTx → Skb → Kernel → Outcome Kernel
answered env enc round hs vmact skb s =
    serve env round vmact.seq hs (record {
      vmact = record vmact { dackcounter = u16 (vmact.dackcounter + 1) };
      counter = 0;
      skb2 = null;
      kernel = s;
    })
    >>= λ st. ok (record (st.kernel) {
      tx_enc = update env.hash enc (λ _. st.vmact) st.kernel.tx_enc;
      freed = st.kernel.freed ++ skb.id ∷ [];
    })

rx_dack-answered :
    (env : Env) (enc round : ℕ) (hs : List VmacHole) (fcs : List ℕ) (vmact : EncodingTx) (skb : Skb)
    (s : Kernel)
    → Fit hs
    → length hs < 2 ^ 16
    → round < 2 ^ 16
    → find env.hash enc s.tx_enc ≡ some vmact
    → rx_dack env enc
        (holding skb
          (dack_bytes (record { holes = length hs; round = round }) ++ (holes_bytes hs ++ fcs)))
        s
      ≡ answered env enc round hs vmact skb s
unfolding rx_dack kfree_skb
rx_dack-answered env enc round hs fcs vmact skb s f few hr known =
    let d : VmacDack = record { holes = length hs; round = round } in
    let q = read_dack-memory d (holes_bytes hs ++ fcs) skb.beyond few hr in
    let p = pull-append skb (dack_bytes d) (holes_bytes hs ++ fcs) 4 (length-dack_bytes d) in
    let st : Resend = record {
      vmact = record vmact { dackcounter = u16 (vmact.dackcounter + 1) };
      counter = 0;
      skb2 = null;
      kernel = s;
    } in
    rw (known, p, q, resend_holes-serve env round vmact.seq hs fcs skb st f, rx_dack) refl

-- The frame that `prepDACK` makes of a list of holes, in an empty buffer, comes to the branch
-- for a DACK as this list: where the edges, the count and the round fit 16 bits, the encoding
-- fits 64, and it has an entry in the transmit table, `vmac_rx` serves just these holes, in
-- their order, for just this round, stores the entry and frees the buffer.
pub report_answered :
    (env : Env) (enc round : ℕ) (hs : List VmacHole) (fcs : List ℕ) (vmact : EncodingTx)
    (room skb : Skb) (s : Kernel)
    → Fit hs
    → length hs < 2 ^ 16
    → round < 2 ^ 16
    → enc < 2 ^ 64
    → room.bytes ≡ []
    → find env.hash enc s.tx_enc ≡ some vmact
    → vmac_rx env (to (holding skb ((dack_frame enc round hs room).bytes ++ fcs))) s
      ≡ answered env enc round hs vmact skb s
unfolding vmac_rx dack_frame
report_answered env enc round hs fcs vmact room skb s f few hr he empty known =
    let h : VmacHdr = record { enc = enc; type = hdr_dack } in
    let d : VmacDack = record { holes = length hs; round = round } in
    let rest = dack_bytes d ++ (holes_bytes hs ++ fcs) in
    let a = append_assoc (hdr_bytes h) (dack_bytes d ++ holes_bytes hs) fcs in
    let b = append_assoc (dack_bytes d) (holes_bytes hs) fcs in
    let q = read_hdr-memory h rest skb.beyond he (omega arith) in
    let p = pull-append skb (hdr_bytes h) rest 9 (length-hdr_bytes h) in
    rw (empty, a, b, q, p) (rx_dack-answered env enc round hs fcs vmact skb s f few hr known)
