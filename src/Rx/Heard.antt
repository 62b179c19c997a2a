-- ===== src/Rx/Heard.antt =====
-- A data frame from the air at the driver of a node that awaits it.
use v_mac_kernel.Prelude.{
  ℕ, ◌+◌, ◌^◌, ◌<◌, ◌≡◌, ◌≢◌, ◌∙◌, List, ◌++◌, some, Bool, arith, length, append_assoc,
}
use v_mac_kernel.Skb.{Skb}
use v_mac_kernel.Structs.{EncodingRx, window_size}
use v_mac_kernel.Table.{find}
use v_mac_kernel.Wire.{VmacHdr, VmacData, hdr_data, hdr_bytes, data_bytes}
use v_mac_kernel.Kernel.{Kernel, Env, no_pid, ok}
use v_mac_kernel.LowTx.{spoofed_hdr}
use v_mac_kernel.Dack.Undisturbed.{Like}
use v_mac_kernel.Rx.{ieee80211_rx_vmac}
use v_mac_kernel.Rx.Sliding.{Represents}
use v_mac_kernel.Rx.Dispatch.{holding, at_driver}
use v_mac_kernel.Rx.Data.{Delivered, vmac_rx-Delivered}

-- The bytes of a data frame with its headers.
abbrev pub data_frame : ℕ → ℕ → List ℕ → List ℕ
data_frame enc seq payload =
    hdr_bytes (record { enc = enc; type = hdr_data })
    ++ (data_bytes (record { seq = seq }) ++ payload)

pub heard-Delivered :
    (env : Env) (skb : Skb) (enc seq rate : ℕ) (stack payload fcs : List ℕ) (s : Kernel)
    (r : EncodingRx) (got : ℕ → Bool) (room : ℕ × List ℕ)
    → length stack ≡ 8
    → length fcs ≡ 4
    → s.pidt ≢ no_pid
    → env.new_skb s.skbs ≡ some room
    → find env.hash enc s.rx_enc ≡ some r
    → Represents r got
    → enc < 2 ^ 64
    → seq < 2 ^ 16
    → r.latest < seq + window_size
    → (s' : Kernel) × (ieee80211_rx_vmac env
          (holding skb ((spoofed_hdr rate stack ++ data_frame enc seq payload) ++ fcs))
          s
        ≡ ok s')
      × Delivered env enc seq skb payload r got s s'
heard-Delivered env skb enc seq rate stack payload fcs s r got room eight four pid free known v he
      hs near =
    let h : VmacHdr = record { enc = enc; type = hdr_data } in
    let d : VmacData = record { seq = seq } in
    let (s', e, delivered) =
      vmac_rx-Delivered env skb enc seq payload fcs s r got room four pid free known v he hs near in
    let as1 =
      append_assoc (spoofed_hdr rate stack) (hdr_bytes h ++ (data_bytes d ++ payload)) fcs in
    let as2 = append_assoc (hdr_bytes h) (data_bytes d ++ payload) fcs in
    let as3 = append_assoc (data_bytes d) payload fcs in
    let driver =
      at_driver env skb rate stack h (data_bytes d ++ payload) fcs s eight he (omega arith) in
    (s', rw (as1, as2) (driver ∙ rw as3 e), delivered)

-- An entry that the making of DACKs changed keeps its set.
pub Like-Represents :
    (r r' : EncodingRx) (got : ℕ → Bool) → Like r r' → Represents r got → Represents r' got
Like-Represents r r' got l v = record {
  size = rw l.window v.size;
  slots = rw (l.window, l.latest) v.slots;
  timed = rw (l.first_frame, l.lastin, l.latest) v.timed;
}
