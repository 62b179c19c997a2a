-- ===== src/Samples/Drivers.antt =====
-- Drivers, and the hardware that they allocate and register.
use v_mac_kernel.Prelude.{ℕ, [], ◌∷◌, none, some, true, false}
use v_mac_kernel.Hooks.{
  Ops, Modes, WiphyFlags, Features, no_channel, of_band, no_signal, Chandef, Band, Wiphy, Local,
  Platform, Registry,
}
use v_mac_kernel.Hooks.Alloc.{new_hw}

abbrev pub no_modes : Modes
no_modes = record {
  adhoc = false;
  ap = false;
  ap_vlan = false;
  wds = false;
  monitor = false;
  mesh_point = false;
  nan = false;
}

abbrev pub no_flags : WiphyFlags
no_flags = record {
  netns_ok = false;
  ap_4addr = false;
  station_4addr = false;
  reports_obss = false;
  offchan_tx = false;
  has_remain_on_channel = false;
  ibss_rsn = false;
  mesh_auth = false;
  control_port_protocol = false;
  supports_tdls = false;
  tdls_external_setup = false;
}

abbrev pub no_features : Features
no_features = record {
  sk_tx_status = false;
  sae = false;
  ht_ibss = false;
  vif_txpower = false;
  mac_on_create = false;
  userspace_mpm = false;
  full_ap_client_state = false;
  low_priority_scan = false;
  ap_scan = false;
  tdls_channel_switch = false;
  fils_sta = false;
  rrm = false;
}

abbrev pub nowhere : Chandef
nowhere = record { chan = no_channel; center_freq1 = 0; width_40 = false }

abbrev pub zeroed_wiphy : Wiphy
zeroed_wiphy = record {
  interface_modes = no_modes;
  software_iftypes = no_modes;
  flags = no_flags;
  features = no_features;
  combinations = [];
  bands = [];
  max_scan_ssids = 0;
  max_scan_ie_len = 0;
  max_remain_on_channel_duration = 0;
  max_num_csa_counters = 0;
  bss_priv_size = 0;
  retry_long = 0;
  retry_short = 0;
  extended_capabilities = false;
  signal_type = no_signal;
}

abbrev pub no_ops : Ops
no_ops = record {
  tx = false;
  start = false;
  stop = false;
  config = false;
  add_interface = false;
  remove_interface = false;
  configure_filter = false;
  bss_info_changed = false;
  conf_tx = false;
  sta_state = false;
  sta_add = false;
  sta_remove = false;
  add_chanctx = false;
  remove_chanctx = false;
  change_chanctx = false;
  assign_vif_chanctx = false;
  unassign_vif_chanctx = false;
  remain_on_channel = false;
  hw_scan = false;
  set_key = false;
  set_frag_threshold = false;
  start_nan = false;
  stop_nan = false;
  tdls_channel_switch = false;
  tdls_cancel_channel_switch = false;
  tdls_recv_channel_switch = false;
}

abbrev pub zeroed : Local
zeroed = record {
  wiphy = zeroed_wiphy;
  ops = no_ops;
  use_chanctx = false;
  queue_control = false;
  supports_tx_frag = false;
  chanctx_sta_csa = false;
  alien_features = false;
  offchannel_tx_hw_queue = 0;
  queues = 0;
  max_rates = 0;
  max_report_rates = 0;
  max_rx_aggregation_subframes = 0;
  max_tx_aggregation_subframes = 0;
  uapsd_queues = 0;
  uapsd_max_sp_len = 0;
  extra_tx_headroom = 0;
  tx_headroom = 0;
  max_listen_interval = 0;
  max_nan_de_entries = 0;
  rx_chains = 0;
  scan_ies_len = 0;
  int_scan_req = none;
  ext_channel_switching = false;
  opmode_notif = false;
  user_power_level = 0;
  privid = false;
  radiotap_details = false;
  radiotap_timestamp = false;
  signal_dbm = false;
  signal_unspec = false;
  has_signals = false;
  can_wake = true;
  listen_interval = 0;
  ps_timeout = true;
  workqueue = false;
  started = false;
  chandef = nowhere;
  oper_chandef = nowhere;
  monitor_chandef = nowhere;
  power_level = 0;
  conf_idle = false;
  long_frame_max_tx_count = 0;
  short_frame_max_tx_count = 0;
}

-- A driver with what is asked for, and one with `sta_state` in the place of `sta_add`.
abbrev pub ath : Ops
ath = record no_ops {
  tx = true;
  start = true;
  stop = true;
  config = true;
  add_interface = true;
  remove_interface = true;
  configure_filter = true;
  bss_info_changed = true;
  conf_tx = true;
  sta_add = true;
  sta_remove = true;
}

abbrev pub stateful : Ops
stateful = record ath { sta_state = true; sta_add = false; sta_remove = false }

abbrev pub platform : Platform
platform = record {
  max_queues = 16;
  inval_hw_queue = 255;
  max_data_len = 2304;
  max_csa_counters = 2;
  tx_status_headroom = 14;
  max_ampdu_buf = 64;
  max_sp_len = 0;
  ht_cap_size = 26;
  vht_cap_size = 12;
  bss_size = 200;
  unset_power_level = 2147483648;
  mesh = false;
  kzalloc = λ n. true;
  chandef_create = λ n. record { chan = of_band n; center_freq1 = 2412; width_40 = true };
  wiphy_register = λ w. w;
  wiphy_new_nm = some zeroed;
  driver = λ c l. l;
}

-- The hardware that is allocated, with the bands and the combination that the driver gives it.
abbrev pub band : Band
band = record {
  channel = 7;
  n_channels = 14;
  n_bitrates = 12;
  ht_supported = true;
  vht_supported = false;
  sm_ps_disabled = false;
}

abbrev pub given : ℕ → Local → Local
given channels l = record l {
  wiphy = record (l.wiphy) {
    bands =
        some band ∷ none ∷ some (record band { channel = 8; n_channels = 24; n_bitrates = 8 }) ∷ [];
    combinations =
        record {
          num_different_channels = channels;
          radar_detect_widths = 0;
          limits = record { adhoc = true; max = 1 } ∷ [];
        }
        ∷ [];
  };
}

abbrev pub registry : ℕ → Ops → Registry
registry channels o = record {
  vhw = false;
  vmon = none;
  local = given channels (new_hw platform o zeroed);
  calls = [];
}
