-- ===== src/Hooks/Bands.antt =====
-- The loops of `ieee80211_register_hw` over the bands.
use v_mac_kernel.Prelude.{
  ℕ, ◌+◌, ◌-◌, ◌^◌, List, [], ◌∷◌, Option, none, some, Bool, true, false, not, ◌&&◌, ◌||◌, ltb,
  if◌then◌else◌,
}
use v_mac_kernel.Hooks.{ChannelPtr, no_channel, Chandef, Band, Local, Platform}

abbrev pub is_null : ChannelPtr → Bool
is_null no_channel = true
is_null _ = false

-- The locals of the loop, with the struct that it changes.
pub record Scan : Type 0 where
  pub dflt_chandef : Chandef
  pub channels : ℕ
  pub max_bitrates : ℕ
  pub supp_ht : Bool
  pub supp_vht : Bool
  pub local : Local

-- The channel that the hardware starts on, taken from the first band.
unfoldable pub choose_channel : Platform → Band → Scan → Scan
choose_channel p b s =
    if is_null s.dflt_chandef.chan
    then (let def = p.chandef_create b.channel in
        let l = s.local in
        let l1 =
          if not l.use_chanctx && is_null l.oper_chandef.chan
          then record l { chandef = def; oper_chandef = def }
          else l in
        record s { dflt_chandef = def; local = record l1 { monitor_chandef = def } })
    else s

-- What a band adds to the counts.
unfoldable pub count_band : Band → Scan → Scan
count_band b s = record s {
  channels = s.channels + b.n_channels;
  max_bitrates = if ltb s.max_bitrates b.n_bitrates then b.n_bitrates else s.max_bitrates;
  supp_ht = s.supp_ht || b.ht_supported;
  supp_vht = s.supp_vht || b.vht_supported;
}

unfoldable pub mark_band : Band → Band
mark_band b = if b.ht_supported then record b { sm_ps_disabled = true } else b

-- The loop: the bands as it leaves them, and its locals.
unfoldable pub scan_bands : Platform → List (Option Band) → Scan → List (Option Band) × Scan
scan_bands p [] s = ([], s)
scan_bands p (none ∷ bs) s = let (bs', s') = scan_bands p bs s in (none ∷ bs', s')
scan_bands p (some b ∷ bs) s =
    let (bs', s') = scan_bands p bs (count_band b (choose_channel p b s)) in
    (some (mark_band b) ∷ bs', s')

-- `int_scan_req->rates` and `sta.supp_rates`: (u32)-1 for each band that there is.
unfoldable pub all_rates : List (Option Band) → List ℕ
all_rates [] = []
all_rates (none ∷ bs) = 0 ∷ all_rates bs
all_rates (some b ∷ bs) = (2 ^ 32 - 1) ∷ all_rates bs
