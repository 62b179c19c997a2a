-- ===== src/Hooks/Alloc.antt =====
-- `ieee80211_alloc_hw_nm` of vmac/hooks.c.
use v_mac_kernel.Prelude.{
  ℕ, ◌+◌, Option, none, Bool, true, false, not, ◌&&◌, ◌||◌, ◌==◌, if◌then◌else◌,
}
use mathlib.Core.Option
use v_mac_kernel.Hooks.{Ops, Wiphy, Local, Platform}

-- A driver without one of the functions that every driver has.
abbrev pub incomplete : Ops → Bool
incomplete o =
    not o.tx
    || (not o.start
        || (not o.stop
            || (not o.config
                || (not o.add_interface || (not o.remove_interface || not o.configure_filter)))))

abbrev pub one_if : Bool → ℕ
one_if b = if b then 1 else 0

-- `i`, the count of the functions for channel contexts.
abbrev pub chanctx_ops : Ops → ℕ
chanctx_ops o =
    one_if o.add_chanctx
    + one_if o.remove_chanctx
    + one_if o.change_chanctx
    + one_if o.assign_vif_chanctx
    + one_if o.unassign_vif_chanctx

unfoldable pub with_flags : Ops → Wiphy → Wiphy
with_flags o w = record w {
  flags = record (w.flags) {
    netns_ok = true;
    ap_4addr = true;
    station_4addr = true;
    reports_obss = true;
    offchan_tx = true;
    has_remain_on_channel = w.flags.has_remain_on_channel || o.remain_on_channel;
    ibss_rsn = w.flags.ibss_rsn || not o.set_key;
  };
  features = record (w.features) {
    sk_tx_status = true;
    sae = true;
    ht_ibss = true;
    vif_txpower = true;
    mac_on_create = true;
    userspace_mpm = true;
    full_ap_client_state = true;
    fils_sta = true;
    rrm = true;
    low_priority_scan = w.features.low_priority_scan || not o.hw_scan;
    ap_scan = w.features.ap_scan || not o.hw_scan;
  };
}

-- The hardware in its new memory, with its defaults.
unfoldable pub new_hw : Platform → Ops → Local → Local
new_hw p o l = record l {
  wiphy = record (with_flags o l.wiphy) { bss_priv_size = p.bss_size };
  ops = o;
  use_chanctx = chanctx_ops o == 5;
  queues = 1;
  max_report_rates = 0;
  max_rx_aggregation_subframes = p.max_ampdu_buf;
  max_tx_aggregation_subframes = p.max_ampdu_buf;
  offchannel_tx_hw_queue = p.inval_hw_queue;
  long_frame_max_tx_count = 1;
  short_frame_max_tx_count = 1;
  uapsd_queues = 0;
  uapsd_max_sp_len = p.max_sp_len;
  user_power_level = 20;
  privid = true;
  radiotap_details = true;
  radiotap_timestamp = false;
  opmode_notif = true;
}

-- `ieee80211_alloc_hw_nm`: `none` for NULL.
unfoldable pub alloc_hw : Platform → Ops → Option Local
alloc_hw p o =
    if incomplete o
    then none
    else if o.sta_state && (o.sta_add || o.sta_remove)
    then none
    else if not (chanctx_ops o == 0) && not (chanctx_ops o == 5)
    then none
    else Option.map (new_hw p o) p.wiphy_new_nm
