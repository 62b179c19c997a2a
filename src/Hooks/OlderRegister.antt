-- ===== src/Hooks/OlderRegister.antt =====
-- The branch of `ieee80211_register_hw` for kernels before 4.10.
use v_mac_kernel.Prelude.{
  ℕ, List, [], ◌∷◌, Option, none, some, Bool, true, false, not, ◌&&◌, ◌||◌, ltb, leb, ◌==◌,
  if◌then◌else◌,
}
use v_mac_kernel.Kernel.{Outcome, ok, ◌>>=◌}
use v_mac_kernel.Hooks.{
  Band, Chandef, mbm, unspec, Local, Errno, einval, eopnotsupp, enomem, Platform, Registry,
}
use v_mac_kernel.Hooks.Bands.{scan_bands, all_rates}
use v_mac_kernel.Hooks.Checks.{many_channels, many_radar_channels, many_adhoc}
use v_mac_kernel.Hooks.Register.{with_rates, with_modes, with_mesh, with_scan, scan_from, bring_up}

-- What an older kernel answers besides: whether what the stack holds for `result` is negative, whether `wiphy_register`
-- fails, whether there is a work queue, and `cfg80211_chandef_create` for a channel without HT.
pub record Older : Type 0 where
  pub stale_result : Bool
  pub register_fails : Bool
  pub workqueue : Bool
  pub no_ht : ℕ → Chandef

-- The tests before anything is changed: none of fragments, one of waking up.
unfoldable pub early_older_error : Platform → Local → Option Errno
early_older_error p l =
    if l.queue_control
      && (l.offchannel_tx_hw_queue == p.inval_hw_queue || leb l.queues l.offchannel_tx_hw_queue)
    then some einval
    else if l.wiphy.features.tdls_channel_switch
        && (not l.ops.tdls_channel_switch
            || (not l.ops.tdls_cancel_channel_switch || not l.ops.tdls_recv_channel_switch))
    then some eopnotsupp
    else if l.wiphy.interface_modes.nan && (not l.ops.start_nan || not l.ops.stop_nan)
    then some einval
    else if not l.can_wake
    then some einval
    else if not l.use_chanctx && many_channels l.wiphy.combinations
    then some einval
    else if l.use_chanctx && l.wiphy.interface_modes.wds
    then some einval
    else if l.use_chanctx && many_radar_channels l.wiphy.combinations
    then some einval
    else if l.alien_features
    then some einval
    else none

unfoldable pub with_signal : Local → Local
with_signal l = record l {
  wiphy = record (l.wiphy) {
    signal_type =
        if l.signal_dbm then mbm else if l.signal_unspec then unspec else l.wiphy.signal_type;
  };
}

-- Whether `result` is negative at its first test: it is stored for an unspecified signal without a maximum only.
abbrev pub negative : Older → Local → Bool
negative k l =
    if not l.signal_dbm && (l.signal_unspec && not l.has_signals) then true else k.stale_result

-- The first `if (result < 0)` takes the test of `remain_on_channel` for its body.
unfoldable pub with_older_limits : Platform → Bool → Local → Local
with_older_limits p negative l =
    let w = l.wiphy in
    record l {
      ext_channel_switching = l.ext_channel_switching || l.chanctx_sta_csa;
      wiphy = record w {
        max_remain_on_channel_duration =
            if negative && not l.ops.remain_on_channel
            then 5000
            else w.max_remain_on_channel_duration;
        flags = record (w.flags) {
          tdls_external_setup = w.flags.tdls_external_setup || w.flags.supports_tdls;
        };
        max_num_csa_counters = p.max_csa_counters;
      };
    }

-- The second one takes the restriction of the queues.
unfoldable pub with_older_defaults : Platform → Older → Local → Local
with_older_defaults p k l =
    let listen = if l.max_listen_interval == 0 then 5 else l.max_listen_interval in
    record l {
      wiphy = p.wiphy_register l.wiphy;
      queues = if k.register_fails && ltb p.max_queues l.queues then p.max_queues else l.queues;
      workqueue = k.workqueue;
      tx_headroom =
          if ltb l.extra_tx_headroom p.tx_status_headroom
          then p.tx_status_headroom
          else l.extra_tx_headroom;
      max_listen_interval = listen;
      listen_interval = listen;
      ps_timeout = false;
      max_nan_de_entries = if l.max_nan_de_entries == 0 then 255 else l.max_nan_de_entries;
      conf_idle = true;
      started = true;
    }

-- The peer has no rates here, as on a hardware without bands.
abbrev pub without : List (Option Band) → List (Option Band)
without [] = []
without (b ∷ bs) = none ∷ without bs

unfoldable pub set_up_older : Platform → Older → Registry → Outcome (Option Errno × Registry)
set_up_older p k r =
    let q = record p { chandef_create = k.no_ht } in
    let (bands, s) = scan_bands q r.local.wiphy.bands (scan_from (with_rates r.local)) in
    let scanned = record (s.local) { wiphy = record (s.local.wiphy) { bands = bands } } in
    let l = with_modes scanned in
    if many_adhoc l.wiphy.combinations
    then ok (some einval, record r { local = l })
    else if p.kzalloc 0
    then (let l1 = with_signal (with_mesh p (record l { int_scan_req = some (all_rates bands) })) in
        let l2 = with_older_limits p (negative k l1) (with_scan p s l1) in
        bring_up p (without bands) (record r { local = with_older_defaults p k l2 }) >>= λ r'.
        ok (none, r'))
    else ok (some enomem, record r { local = record l { int_scan_req = none } })

-- `ieee80211_register_hw` of an older kernel.
unfoldable pub register_older_hw : Platform → Older → Registry → Outcome (Option Errno × Registry)
register_older_hw p k r0 =
    let r = record r0 { vhw = true } in
    elim (early_older_error p r.local) [ some e ↦ ok (some e, r) | none ↦ set_up_older p k r ]
