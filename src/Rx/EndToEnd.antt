-- ===== src/Rx/EndToEnd.antt =====
-- From `vmac_low_tx` of one node to user space of another: a frame is aired, arrives with a checksum
-- behind it, and is passed on.
use v_mac_kernel.Prelude.{
  append_assoc, ℕ, ◌+◌, ◌^◌, ◌<◌, ◌≡◌, ◌≢◌, refl, ◌∙◌, ◌⊎◌, inl, inr, List, [], ◌∷◌, ◌++◌, some,
  true, arith, length,
}
use v_mac_kernel.Skb.{Skb, to}
use v_mac_kernel.Wire.{
  VmacHdr, VmacData, hdr_interest, hdr_dack, hdr_announcement, hdr_injected, hdr_bytes, data_bytes,
}
use v_mac_kernel.Kernel.{Kernel, Env, no_pid, ok}
use v_mac_kernel.Queue.{add_mgmt}
use v_mac_kernel.LowTx.{vmac_low_tx, spoofed_hdr, vmac_low_tx-to}
use v_mac_kernel.Rx.{ieee80211_rx_vmac}
use v_mac_kernel.Rx.Dispatch.{
  holding, message, passed, arriving, direct, at_driver, vmac_rx-passed, vmac_rx-injected,
}

-- The sender `tx` airs `frame` at `rate`, and the receiver `rx` comes to `after` for it, in the buffer
-- `skb` and with the checksum `fcs`.
abbrev Delivers : Env → Env → Kernel → Kernel → ℕ → Skb → Skb → List ℕ → Kernel → Type 0
Delivers tx rx s1 s rate frame skb fcs after =
    (x : Skb) × (vmac_low_tx tx (to frame) rate s1 ≡ ok (record s1 { aired = s1.aired ++ x ∷ [] }))
    × (ieee80211_rx_vmac rx (holding skb (x.bytes ++ fcs)) s ≡ ok after)

delivers :
    (tx rx : Env) (s1 s after : Kernel) (rate : ℕ) (frame skb : Skb) (h : VmacHdr)
    (content fcs : List ℕ)
    → ieee80211_rx_vmac rx (arriving skb rate tx.stack h content fcs) s ≡ ok after
    → Delivers tx rx s1 s rate (holding frame (hdr_bytes h ++ content)) skb fcs after
delivers tx rx s1 s after rate frame skb h content fcs e =
    let sent = holding frame (hdr_bytes h ++ content) in
    let a = append_assoc (spoofed_hdr rate tx.stack) (hdr_bytes h ++ content) fcs in
    let b = append_assoc (hdr_bytes h) content fcs in
    (
      record sent {
        bytes = spoofed_hdr rate tx.stack ++ sent.bytes;
        flags = [];
        priority = 256 + 5;
      },
      vmac_low_tx-to tx sent rate s1,
      rw (a, b) e,
    )

-- An interest or an announcement that one node gives to the driver arrives at user space of
-- another, with its encoding, its type and its payload, whatever the rate and the four bytes of
-- the checksum: if the stack holds the last eight bytes of the 802.11 header, the encoding is of
-- 64 bits, user space has registered, and the message can be allocated.
pub interest_delivered :
    (tx rx : Env) (s1 s : Kernel) (rate : ℕ) (frame skb : Skb) (h : VmacHdr) (payload fcs : List ℕ)
    (room : ℕ × List ℕ)
    → (h.type ≡ hdr_interest) ⊎ (h.type ≡ hdr_announcement)
    → h.enc < 2 ^ 64
    → length tx.stack ≡ 8
    → length fcs ≡ 4
    → s.pidt ≢ no_pid
    → rx.new_skb s.skbs ≡ some room
    → (x : Skb) × (vmac_low_tx tx (to (holding frame (hdr_bytes h ++ payload))) rate s1
        ≡ ok (record s1 { aired = s1.aired ++ x ∷ [] }))
      × (ieee80211_rx_vmac rx (holding skb (x.bytes ++ fcs)) s
          ≡ ok (passed rx s skb (message rx s h.enc h.type 0 payload)))
interest_delivered tx rx s1 s rate frame skb h payload fcs room ht he eight four pid e =
    let d : direct h.type ≡ true = elim ht [ inl t ↦ rw t refl | inr t ↦ rw t refl ] in
    let small : h.type < 2 ^ 8 = ground arith in
    let up = vmac_rx-passed rx skb h payload fcs s room he ht four pid e in
    delivers tx rx s1 s (passed rx s skb (message rx s h.enc h.type 0 payload)) rate frame skb h
      payload fcs (rw (at_driver rx skb rate tx.stack h payload fcs s eight he small, d) up)

-- An injected frame that one node gives to the driver arrives at user space of another, with its
-- encoding, its sequence number and its payload, whatever the rate and the four bytes of the
-- checksum: if the stack holds the last eight bytes of the 802.11 header, the encoding is of 64
-- bits and the number of 16, user space has registered, and the message can be allocated.
pub injected_delivered :
    (tx rx : Env) (s1 s : Kernel) (rate : ℕ) (frame skb : Skb) (enc seq : ℕ) (payload fcs : List ℕ)
    (room : ℕ × List ℕ)
    → enc < 2 ^ 64
    → seq < 2 ^ 16
    → length tx.stack ≡ 8
    → length fcs ≡ 4
    → s.pidt ≢ no_pid
    → rx.new_skb s.skbs ≡ some room
    → (x : Skb) × (vmac_low_tx tx
          (to (
            holding frame (
              hdr_bytes (record { enc = enc; type = hdr_injected })
              ++ (data_bytes (record { seq = seq }) ++ payload))))
          rate
          s1
        ≡ ok (record s1 { aired = s1.aired ++ x ∷ [] }))
      × (ieee80211_rx_vmac rx (holding skb (x.bytes ++ fcs)) s
          ≡ ok (passed rx s skb (message rx s enc hdr_injected seq payload)))
injected_delivered tx rx s1 s rate frame skb enc seq payload fcs room he hs eight four pid e =
    let h : VmacHdr = record { enc = enc; type = hdr_injected } in
    let d : VmacData = record { seq = seq } in
    let up = vmac_rx-injected rx skb enc seq payload fcs s room he hs four pid e in
    let a = append_assoc (data_bytes d) payload fcs in
    delivers tx rx s1 s (passed rx s skb (message rx s enc hdr_injected seq payload)) rate frame skb
      h (data_bytes d ++ payload) fcs
      (at_driver rx skb rate tx.stack h (data_bytes d ++ payload) fcs s eight he (omega arith)
        ∙ rw a up)

-- A DACK that one node gives to the driver comes to `add_mgmt` of another, its V-MAC header in
-- front, to wait in `rx_upper` for `rqueuethread`: if the stack holds the last eight bytes of
-- the 802.11 header and the encoding is of 64 bits.
pub dack_waits :
    (tx rx : Env) (s1 s : Kernel) (rate : ℕ) (frame skb : Skb) (enc : ℕ) (content fcs : List ℕ)
    → enc < 2 ^ 64
    → length tx.stack ≡ 8
    → (x : Skb) × (vmac_low_tx tx
          (to (holding frame (hdr_bytes (record { enc = enc; type = hdr_dack }) ++ content)))
          rate
          s1
        ≡ ok (record s1 { aired = s1.aired ++ x ∷ [] }))
      × (ieee80211_rx_vmac rx (holding skb (x.bytes ++ fcs)) s
          ≡ ok (
              add_mgmt rx
                (to (
                  holding skb
                    (hdr_bytes (record { enc = enc; type = hdr_dack }) ++ (content ++ fcs))))
                s))
dack_waits tx rx s1 s rate frame skb enc content fcs he eight =
    let h : VmacHdr = record { enc = enc; type = hdr_dack } in
    delivers tx rx s1 s (add_mgmt rx (to (holding skb (hdr_bytes h ++ (content ++ fcs)))) s) rate
      frame skb h content fcs
      (at_driver rx skb rate tx.stack h content fcs s eight he (omega arith))
