-- ===== src/Net/Hears.antt =====
-- The receiver's move at a frame on air: what user space gets of it, and what it got before.
use v_mac_kernel.Prelude.{
  ℕ, ◌+◌, ◌^◌, ◌≤◌, ◌<◌, ◌≡◌, ◌≢◌, refl, sym, ap, ◌∙◌, inl, inr, List, [], ◌∷◌, ◌++◌, some, Bool,
  true, false, arith, length, All, All-append, All-map, In, In-append_left, In-append_right, ◌⊎◌,
}
use mathlib.Core.Path.{subst}
use v_mac_kernel.Skb.{Skb, memory, pull}
use v_mac_kernel.Structs.{EncodingRx, window_size}
use v_mac_kernel.Table.{find}
use v_mac_kernel.Wire.{VmacHdr, VmacData, hdr_data, hdr_size, read_data, hdr_bytes, data_bytes}
use v_mac_kernel.Wire.RoundTrip.{read_data-memory, length-hdr_bytes}
use v_mac_kernel.Kernel.{Kernel, Env, Message, ok}
use v_mac_kernel.LowTx.{spoofed_hdr, length-spoofed_hdr}
use v_mac_kernel.Queue.Carry.{OnAir}
use v_mac_kernel.Dack.Undisturbed.{Armed}
use v_mac_kernel.Dack.Timer.{IsBuffer}
use v_mac_kernel.Rx.{ieee80211_rx_vmac}
use v_mac_kernel.Rx.Sliding.{Represents}
use v_mac_kernel.Rx.Dispatch.{holding, pull-append, message}
use v_mac_kernel.Rx.Data.{fresh, gets}
use v_mac_kernel.Rx.Fresh.{keeping, fresh-apart, keeping-old, keeping-seq, keeping-cases}
use v_mac_kernel.Rx.Heard.{data_frame, heard-Delivered}
use v_mac_kernel.Rx.Pending.{Distinct}
use v_mac_kernel.Net.{heard_number, latest_of}
use v_mac_kernel.Net.Receiver.{Logged, Genuine, numbers, HasPassed, Hearing}

numbers-append : (p q : List Message) → numbers (p ++ q) ≡ numbers p ++ numbers q
numbers-append [] q = refl
numbers-append (m ∷ p) q = ap (λ is. m.control.seq ∷ is) (numbers-append p q)

Distinct-append_one :
    (is : List ℕ) (j : ℕ) → Distinct is → All (λ i. i ≢ j) is → Distinct (is ++ j ∷ [])
Distinct-append_one [] j d a = (tt, tt)
Distinct-append_one (i ∷ is) j d a =
    (All-append (λ k. i ≢ k) is (j ∷ []) d.0 (a.0, tt), Distinct-append_one is j d.1 a.1)

heard_number-data_frame :
    (x : Skb) (enc seq rate : ℕ) (stack payload : List ℕ)
    → length stack ≡ 8
    → seq < 2 ^ 16
    → x.bytes ≡ spoofed_hdr rate stack ++ data_frame enc seq payload
    → heard_number x ≡ seq
heard_number-data_frame x enc seq rate stack payload eight hs e =
    let h : VmacHdr = record { enc = enc; type = hdr_data } in
    let d : VmacData = record { seq = seq } in
    let l = length-spoofed_hdr rate stack in
    let p = pull-append x (spoofed_hdr rate stack) (data_frame enc seq payload) 30 (omega arith) in
    let p2 = pull-append x (hdr_bytes h) (data_bytes d ++ payload) 9 (length-hdr_bytes h) in
    let q = read_data-memory d payload x.beyond hs in
    subst (λ b. heard_number (holding x b) ≡ seq) (sym e)
      (ap (λ y. (read_data (memory (pull hdr_size y))).seq) p
        ∙ ap (λ y. (read_data (memory y)).seq) p2
        ∙ ap (λ d. d.seq) q)

latest_of-found :
    (hash : ℕ → ℕ) (enc : ℕ) (s : Kernel) (r : EncodingRx)
    → find hash enc s.rx_enc ≡ some r
    → latest_of hash enc s ≡ r.latest
latest_of-found hash enc s r e = rw (e, latest_of) refl

module _ (env : Env) (enc : ℕ) (got0 : ℕ → Bool) (log : List (ℕ × List ℕ)) (s : Kernel)
    (v : Hearing env.hash enc got0 log s) where
  -- What user space gets of a frame, new or not, from a state in which it has got no number over the newest.
  got-Hearing :
      (b : Bool) (seq : ℕ) (payload : List ℕ) (s' : Kernel) (entry : EncodingRx) (got : ℕ → Bool)
      → In (seq, payload) log
      → (b ≡ true → All (λ j. j ≢ seq) (numbers s.sent))
      → s'.sent ≡ gets env s b enc seq payload
      → find env.hash enc s'.rx_enc ≡ some entry
      → Represents entry got
      → s'.pidt ≡ s.pidt
      → s'.uqueue ≡ s.uqueue
      → s'.mqueue ≡ s.mqueue
      → Armed IsBuffer entry
      → (b ≡ true → (got seq ≡ true) × (seq ≤ entry.latest))
      → All (λ j. (got j ≡ true) × (j ≤ entry.latest)) (numbers s.sent)
      → ((j : ℕ) → got j ≡ true → ((b ≡ true) × (j ≡ seq)) ⊎ (v.got j ≡ true))
      → (v' : Hearing env.hash enc got0 log s') × (v'.got ≡ got)
  got-Hearing false seq payload s' entry got there new sent found rep pid uq mq arm now old from = (
    record {
      vmacr = entry;
      found = found;
      got = got;
      represents = rep;
      registered = rw pid v.registered;
      armed = arm;
      data_frames = rw uq v.data_frames;
      mgmt_frames = rw mq v.mgmt_frames;
      genuine = rw sent v.genuine;
      once = rw sent v.once;
      received = rw sent old;
      passed_on = λ j h. elim (from j h) [
        | inl (e, same) ↦ absurd (cc)
        | inr was ↦ rw sent (v.passed_on j was)
      ];
    },
    refl,
  )
  got-Hearing true seq payload s' entry got there new sent found rep pid uq mq arm now old from =
      let m = message env s enc hdr_data seq payload in
      let is = numbers-append s.sent (m ∷ []) in
      (
        record {
          vmacr = entry;
          found = found;
          got = got;
          represents = rep;
          registered = rw pid v.registered;
          armed = arm;
          data_frames = rw uq v.data_frames;
          mgmt_frames = rw mq v.mgmt_frames;
          genuine = rw sent (
              All-append (Genuine enc log) s.sent (m ∷ []) v.genuine
                (record { there = there; encoding = refl; type = refl }, tt));
          once = rw (sent, is) (Distinct-append_one (numbers s.sent) seq v.once (new refl));
          received =
              rw (sent, is)
                (All-append (λ j. (got j ≡ true) × (j ≤ entry.latest)) (numbers s.sent) (seq ∷ [])
                  old (now refl, tt));
          passed_on = λ j h.
              rw (sent, is)
                (elim (from j h) [
                  | inl (e, same) ↦ inl (In-append_right j (numbers s.sent) (seq ∷ []) (inl same))
                  | inr was ↦ elim (v.passed_on j was) [
                    | inl before ↦ inl (In-append_left j (numbers s.sent) (seq ∷ []) before)
                    | inr first ↦ inr first
                  ]
                ]);
        },
        refl,
      )

  -- A frame on air that is allowed to be heard.
  pub hear-Hearing :
      (skb x : Skb) (fcs : List ℕ) (room : ℕ × List ℕ)
      → enc < 2 ^ 64
      → OnAir (Logged enc log) x
      → length fcs ≡ 4
      → env.new_skb s.skbs ≡ some room
      → latest_of env.hash enc s < heard_number x + window_size
      → (s' : Kernel) × (ieee80211_rx_vmac env (holding skb (x.bytes ++ fcs)) s ≡ ok s')
        × HasPassed got0 (heard_number x) s'
        × Hearing env.hash enc got0 log s'
  hear-Hearing skb x fcs room he air four free near =
      let k = air.known in
      let bytes : x.bytes ≡ spoofed_hdr air.rate air.stack ++ data_frame enc k.number k.payload =
        air.bytes ∙ ap (λ b. spoofed_hdr air.rate air.stack ++ b) k.bytes in
      let heard =
        heard_number-data_frame x enc k.number air.rate air.stack k.payload air.eight k.small
          bytes in
      let newest = latest_of-found env.hash enc s v.vmacr v.found in
      let close : v.vmacr.latest < k.number + window_size = omega arith in
      let (s', e, d) =
        heard-Delivered env skb enc k.number air.rate air.stack k.payload fcs s v.vmacr v.got room
          air.eight four v.registered free v.found v.represents he k.small close in
      let latest = v.vmacr.latest in
      let new = fresh latest k.number v.got in
      let kept = keeping latest k.number v.got in
      let (v', same) =
        got-Hearing new k.number k.payload s' d.entry kept k.there
          (λ e.
            All-map (numbers s.sent) v.received (λ j h. fresh-apart latest k.number v.got j h e))
          d.sent d.found d.represents d.pidt d.uqueue d.mqueue
          (subst (λ i. i.send ≡ 1 → IsBuffer i.dack) (sym d.dac_info) v.armed)
          (λ e. (keeping-seq latest k.number v.got, ground (arith, d.newest)))
          (All-map (numbers s.sent) v.received
            (λ j h. (keeping-old latest k.number v.got j h.0 h.1, ground (arith, d.newest, h.1))))
          (keeping-cases latest k.number v.got) in
      (
        s',
        subst (λ b. ieee80211_rx_vmac env (holding skb (b ++ fcs)) s ≡ ok s') (sym bytes) e,
        subst (λ j. HasPassed got0 j s') (sym heard)
            (v'.passed_on k.number (ap (λ f. f k.number) same ∙ keeping-seq latest k.number v.got)),
        v',
      )
