-- ===== src/LowTx.antt =====
-- `vmac_low_tx` of vmac/tx.c: the frame gets its 802.11 header and goes to the driver.
use v_mac_kernel.Prelude.{arith, ℕ, ◌+◌, length, get_or, ◌≡◌, refl, List, [], ◌∷◌, ◌++◌, replicate}
use v_mac_kernel.Words.{to_bytes}
use v_mac_kernel.Skb.{Skb, Ptr, null, to, wild, push}
use v_mac_kernel.Kernel.{Kernel, Env, null_dereference, wild_pointer, Outcome, ok, oops}

-- `struct ieee80211_hdr`: frame control, duration, three addresses, and the sequence control and
-- the fourth address, which the code leaves as the stack has them.
pub spoofed_hdr : ℕ → List ℕ → List ℕ
spoofed_hdr rate stack =
    to_bytes 2 0x0008
    ++ (to_bytes 2 rate ++ (replicate 6 0xff ++ (replicate 6 0xfe ++ (replicate 6 0xfe ++ stack))))

abbrev pub hdr80211_size : ℕ
hdr80211_size = 30

-- The flags of the control block are cleared; `control.vif` is the one interface there is.
unfoldable pub vmac_low_tx : Env → Ptr → ℕ → Kernel → Outcome Kernel
unfolding spoofed_hdr
vmac_low_tx env null rate s = oops null_dereference
vmac_low_tx env wild rate s = oops wild_pointer
vmac_low_tx env (to skb) rate s = ok (record s {
  aired =
      s.aired
      ++ record (push (spoofed_hdr rate env.stack) skb) { flags = []; priority = 256 + 5 } ∷ [];
})

-- What a frame adds to the air.
abbrev pub on_air : Env → ℕ → Ptr → List Skb
on_air env rate null = []
on_air env rate wild = []
on_air env rate (to skb) =
    record (push (spoofed_hdr rate env.stack) skb) { flags = []; priority = 256 + 5 } ∷ []

pub vmac_low_tx-to :
    (env : Env) (skb : Skb) (rate : ℕ) (s : Kernel)
    → vmac_low_tx env (to skb) rate s
      ≡ ok (record s { aired = s.aired ++ on_air env rate (to skb) })
unfolding vmac_low_tx
vmac_low_tx-to env skb rate s = refl

pub length-spoofed_hdr :
    (rate : ℕ) (stack : List ℕ) → length (spoofed_hdr rate stack) ≡ 22 + length stack
unfolding spoofed_hdr to_bytes
length-spoofed_hdr rate stack = omega arith

-- The second address begins with the two bytes that reception asks for.
pub marked :
    (rate : ℕ) (stack rest beyond : List ℕ)
    → (get_or ((spoofed_hdr rate stack ++ rest) ++ beyond) 10 0 ≡ 0xfe)
      × (get_or ((spoofed_hdr rate stack ++ rest) ++ beyond) 11 0 ≡ 0xfe)
unfolding spoofed_hdr to_bytes
marked rate stack rest beyond = (refl, refl)
