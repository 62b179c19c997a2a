-- ===== src/Hooks/Older.antt =====
-- The branch of `ieee80211_alloc_hw_nm` for kernels before 4.10, and that it takes the same drivers.
use v_mac_kernel.Prelude.{
  ◌≡◌, refl, ap, ◌∙◌, ◌↔◌, Option, none, some, true, false, not, ◌&&◌, ◌||◌, ◌==◌, if◌then◌else◌,
  arith, Bool-cases, Option-cases, inl, inr,
}
use mathlib.Core.Option
use v_mac_kernel.Hooks.{Ops, Wiphy, Local, Platform}
use v_mac_kernel.Hooks.Alloc.{incomplete, chanctx_ops, new_hw, alloc_hw}

unfoldable pub with_older_flags : Ops → Wiphy → Wiphy
with_older_flags o w = record w {
  flags = record (w.flags) {
    netns_ok = true;
    ap_4addr = true;
    station_4addr = true;
    reports_obss = true;
    offchan_tx = true;
    has_remain_on_channel = w.flags.has_remain_on_channel || o.remain_on_channel;
    ibss_rsn = w.flags.ibss_rsn || not o.set_key;
  };
  features = record (w.features) {
    sk_tx_status = true;
    sae = true;
    ht_ibss = true;
    vif_txpower = true;
    mac_on_create = true;
    userspace_mpm = true;
    full_ap_client_state = true;
    rrm = true;
    low_priority_scan = w.features.low_priority_scan || not o.hw_scan;
    ap_scan = w.features.ap_scan || not o.hw_scan;
  };
  extended_capabilities = true;
}

-- The hardware in its new memory: one rate, the counts of retries of the `wiphy`, and no power level.
unfoldable pub new_older_hw : Platform → Ops → Local → Local
new_older_hw p o l = record l {
  wiphy = record (with_older_flags o l.wiphy) { bss_priv_size = p.bss_size };
  ops = o;
  use_chanctx = chanctx_ops o == 5;
  queues = 1;
  max_rates = 1;
  max_report_rates = 0;
  max_rx_aggregation_subframes = p.max_ampdu_buf;
  max_tx_aggregation_subframes = p.max_ampdu_buf;
  offchannel_tx_hw_queue = p.inval_hw_queue;
  long_frame_max_tx_count = l.wiphy.retry_long;
  short_frame_max_tx_count = l.wiphy.retry_short;
  uapsd_queues = 0;
  uapsd_max_sp_len = p.max_sp_len;
  user_power_level = p.unset_power_level;
  privid = true;
  radiotap_details = true;
  radiotap_timestamp = false;
  opmode_notif = true;
}

-- `ieee80211_alloc_hw_nm` of an older kernel.
unfoldable pub alloc_older_hw : Platform → Ops → Option Local
alloc_older_hw p o =
    if incomplete o
    then none
    else if o.sta_state && (o.sta_add || o.sta_remove)
    then none
    else if not (chanctx_ops o == 0) && not (chanctx_ops o == 5)
    then none
    else Option.map (new_older_hw p o) p.wiphy_new_nm

-- What both branches do with a driver.
pub record Alike (p : Platform) (o : Ops) : Type 0 where
  pub refused : (alloc_hw p o ≡ none) ↔ (alloc_older_hw p o ≡ none)
  pub taken :
      (l : Local)
      → alloc_hw p o ≡ some l
      → (m : Local) × (alloc_older_hw p o ≡ some m)
        × (m.ops ≡ l.ops)
        × (m.use_chanctx ≡ l.use_chanctx)

both_refuse : (p : Platform) (o : Ops) → alloc_hw p o ≡ none → alloc_older_hw p o ≡ none → Alike p o
both_refuse p o a b = record {
  refused = ((λ _. b), (λ _. a));
  taken = λ l h. absurd (ground (arith, a, h));
}

-- The memory for the driver decides for both.
both_take :
    (p : Platform) (o : Ops)
    → alloc_hw p o ≡ Option.map (new_hw p o) p.wiphy_new_nm
    → alloc_older_hw p o ≡ Option.map (new_older_hw p o) p.wiphy_new_nm
    → Alike p o
unfolding new_hw new_older_hw
both_take p o a b = elim (Option-cases p.wiphy_new_nm) [
  | inl e ↦ both_refuse p o (a ∙ rw e refl) (b ∙ rw e refl)
  | inr (memory, e) ↦
      let taken : alloc_hw p o ≡ some (new_hw p o memory) = a ∙ rw e refl in
      let older : alloc_older_hw p o ≡ some (new_older_hw p o memory) = b ∙ rw e refl in
      record {
        refused =
            ((λ h. absurd (ground (arith, taken, h))), (λ h. absurd (ground (arith, older, h))));
        taken = λ l h.
            let same : new_hw p o memory ≡ l = ground (arith, taken, h) in
            (new_older_hw p o memory, older, ap (λ x. x.ops) same, ap (λ x. x.use_chanctx) same);
      }
]

-- Older and newer kernels take the same drivers: `ieee80211_alloc_hw_nm` gives NULL in both or in none, and
-- what it gives otherwise has the same functions and the same use of channel contexts.
pub alloc_hw-alloc_older_hw : (p : Platform) (o : Ops) → Alike p o
unfolding alloc_hw alloc_older_hw
alloc_hw-alloc_older_hw p o = elim (Bool-cases (incomplete o)) [
  | inl c ↦ both_refuse p o (rw c refl) (rw c refl)
  | inr c ↦ elim (Bool-cases (o.sta_state && (o.sta_add || o.sta_remove))) [
    | inl x ↦ both_refuse p o (rw (c, x) refl) (rw (c, x) refl)
    | inr x ↦ elim (Bool-cases (not (chanctx_ops o == 0) && not (chanctx_ops o == 5))) [
      | inl n ↦ both_refuse p o (rw (c, x, n) refl) (rw (c, x, n) refl)
      | inr n ↦ both_take p o (rw (c, x, n) refl) (rw (c, x, n) refl)
    ]
  ]
]
