-- ===== src/Rx/Dispatch.antt =====
-- Reception from the driver to user space: what a frame on the air comes to, by its type.
use v_mac_kernel.Prelude.{
  ℕ, ◌+◌, ◌-◌, ◌^◌, ◌<◌, ◌≡◌, ◌≢◌, refl, ◌⊎◌, inl, inr, List, [], ◌∷◌, ◌++◌, some, Bool, false,
  ◌||◌, ◌==◌, ltb, if◌then◌else◌, arith, length, length-append, drop-append, take-append,
}
use v_mac_kernel.Skb.{Skb, to, pull}
use v_mac_kernel.Wire.{
  VmacHdr, VmacData, hdr_interest, hdr_data, hdr_dack, hdr_announcement, hdr_injected, hdr_bytes,
  data_bytes,
}
use v_mac_kernel.Wire.RoundTrip.{
  read_hdr-memory, read_data-memory, length-hdr_bytes, length-data_bytes,
}
use v_mac_kernel.Kernel.{Kernel, Env, Message, no_pid, ok, kfree_skb}
use v_mac_kernel.LowTx.{length-spoofed_hdr, marked, spoofed_hdr}
use v_mac_kernel.Queue.{add_mgmt}
use v_mac_kernel.Rx.{bwsg_of, rate_idx_of, nlmsg_len, nl_send, vmac_rx, ieee80211_rx_vmac}

-- The buffer `skb` with other bytes.
abbrev pub holding : Skb → List ℕ → Skb
holding skb bytes = record skb { bytes = bytes }

pub pull-append :
    (skb : Skb) (xs ys : List ℕ) (n : ℕ)
    → length xs ≡ n
    → pull n (holding skb (xs ++ ys)) ≡ holding skb ys
pull-append skb xs ys n e =
    let long : ltb (length (xs ++ ys)) (length xs) ≡ false = ground (arith, length-append xs ys) in
    rw (← e, long, drop-append xs ys) refl

-- The message that `nl_send` makes of a buffer that holds `payload` and the four bytes of the checksum.
abbrev pub message : Env → Kernel → ℕ → ℕ → ℕ → List ℕ → Message
message env s enc type seq payload = record {
  pid = s.pidt;
  len = nlmsg_len (length payload + 4);
  control = record {
    enc = enc;
    seq = seq;
    type = type;
    bwsg = bwsg_of env;
    rate_idx = rate_idx_of env;
    signal = env.status.signal;
  };
  payload = payload;
}

-- The state after the message went out and the buffer was freed.
abbrev pub passed : Env → Kernel → Skb → Message → Kernel
passed env s skb m = record s {
  skbs = s.skbs + 1;
  sent = s.sent ++ m ∷ [];
  freed = s.freed ++ skb.id ∷ [];
}

pub nl_send-passed :
    (env : Env) (skb : Skb) (payload fcs : List ℕ) (enc type seq : ℕ) (s : Kernel)
    (room : ℕ × List ℕ)
    → length fcs ≡ 4
    → s.pidt ≢ no_pid
    → env.new_skb s.skbs ≡ some room
    → nl_send env (holding skb (payload ++ fcs)) enc type seq s
      ≡ ok (passed env s skb (message env s enc type seq payload))
unfolding nl_send kfree_skb
nl_send-passed env skb payload fcs enc type seq s room four pid e =
    let opened : (s.pidt == no_pid) ≡ false = ground arith in
    let total : length (payload ++ fcs) ≡ length payload + 4 =
      omega (arith, length-append payload fcs) in
    let long : ltb (length payload + 4) 4 ≡ false = ground arith in
    let rest : length payload + 4 - 4 ≡ length payload = omega arith in
    rw (opened, e, total, long, rest, take-append payload fcs) refl

-- A frame as it arrives: the 802.11 header of `vmac_low_tx`, the V-MAC header, what follows, and the
-- checksum.
abbrev pub arriving : Skb → ℕ → List ℕ → VmacHdr → List ℕ → List ℕ → Skb
arriving skb rate stack h content fcs =
    holding skb (spoofed_hdr rate stack ++ (hdr_bytes h ++ (content ++ fcs)))

pub vmac_rx-passed :
    (env : Env) (skb : Skb) (h : VmacHdr) (payload fcs : List ℕ) (s : Kernel) (room : ℕ × List ℕ)
    → h.enc < 2 ^ 64
    → (h.type ≡ hdr_interest) ⊎ (h.type ≡ hdr_announcement)
    → length fcs ≡ 4
    → s.pidt ≢ no_pid
    → env.new_skb s.skbs ≡ some room
    → vmac_rx env (to (holding skb (hdr_bytes h ++ (payload ++ fcs)))) s
      ≡ ok (passed env s skb (message env s h.enc h.type 0 payload))
unfolding vmac_rx
vmac_rx-passed env skb h payload fcs s room he ht four pid e =
    let q = read_hdr-memory h (payload ++ fcs) skb.beyond he (ground arith) in
    let p = pull-append skb (hdr_bytes h) (payload ++ fcs) 9 (length-hdr_bytes h) in
    let n = nl_send-passed env skb payload fcs h.enc h.type 0 s room four pid e in
    elim ht [ inl t ↦ rw (q, p, t) (rw t at n) | inr t ↦ rw (q, p, t) (rw t at n) ]

pub vmac_rx-injected :
    (env : Env) (skb : Skb) (enc seq : ℕ) (payload fcs : List ℕ) (s : Kernel) (room : ℕ × List ℕ)
    → enc < 2 ^ 64
    → seq < 2 ^ 16
    → length fcs ≡ 4
    → s.pidt ≢ no_pid
    → env.new_skb s.skbs ≡ some room
    → vmac_rx env
        (to (
          holding skb (
            hdr_bytes (record { enc = enc; type = hdr_injected })
            ++ (data_bytes (record { seq = seq }) ++ (payload ++ fcs)))))
        s
      ≡ ok (passed env s skb (message env s enc hdr_injected seq payload))
unfolding vmac_rx
vmac_rx-injected env skb enc seq payload fcs s room he hs four pid e =
    let h : VmacHdr = record { enc = enc; type = hdr_injected } in
    let d : VmacData = record { seq = seq } in
    let rest = data_bytes d ++ (payload ++ fcs) in
    let q = read_hdr-memory h rest skb.beyond he (omega arith) in
    let p = pull-append skb (hdr_bytes h) rest 9 (length-hdr_bytes h) in
    let q2 = read_data-memory d (payload ++ fcs) skb.beyond hs in
    let p2 = pull-append skb (data_bytes d) (payload ++ fcs) 2 (length-data_bytes d) in
    rw (q, p, q2, p2) (nl_send-passed env skb payload fcs enc hdr_injected seq s room four pid e)

-- The types that are processed at once.
abbrev pub direct : ℕ → Bool
direct type =
    type == hdr_interest || (type == hdr_data || (type == hdr_announcement || type == hdr_injected))

module _ (env : Env) (skb : Skb) (rate : ℕ) (stack : List ℕ) (h : VmacHdr) (content fcs : List ℕ)
    (s : Kernel) (eight : length stack ≡ 8) (he : h.enc < 2 ^ 64) (ht : h.type < 2 ^ 8) where
  abbrev pub arrived : Skb
  arrived = arriving skb rate stack h content fcs

  -- What is left once the header of 802.11 is off.
  abbrev pub inner : Skb
  inner = holding skb (hdr_bytes h ++ (content ++ fcs))

  pub at_driver : ieee80211_rx_vmac env arrived s ≡ (
      if direct h.type
      then vmac_rx env (to inner) s
      else if h.type == hdr_dack
      then ok (add_mgmt env (to inner) s)
      else kfree_skb (to inner) s)
  unfolding ieee80211_rx_vmac
  at_driver =
      let (m, n) = marked rate stack (hdr_bytes h ++ (content ++ fcs)) skb.beyond in
      let l = length-spoofed_hdr rate stack in
      let p =
        pull-append skb (spoofed_hdr rate stack) (hdr_bytes h ++ (content ++ fcs)) 30
          (omega arith) in
      let q = read_hdr-memory h (content ++ fcs) skb.beyond he ht in rw (m, n, p, q) refl
