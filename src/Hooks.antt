-- ===== src/Hooks.antt =====
-- vmac/hooks.c: what V-MAC puts in the place of mac80211 for a driver. The
-- driver allocates its hardware (`ieee80211_alloc_hw_nm`, in Hooks/Alloc) and registers it
-- (`ieee80211_register_hw`, in Hooks/Register). Here stand the structs, as far as the code uses them.
-- A mask of flags is the record of those flags that the code reads or sets; `hw` and `local->hw` are
-- the same struct, and `wiphy` is the only one.
pub mod Bands
pub mod Checks
pub mod Register
pub mod Alloc
pub mod Older
pub mod Accept
pub mod Registered
pub mod OlderRegister
pub mod OlderRegistered
pub mod Missing
pub mod Counted
pub mod Refusal
pub mod Status
pub mod Support
mod Tests
use v_mac_kernel.Prelude.{ℕ, List, Option, Bool}

-- `struct ieee80211_ops`: which of the driver's functions there are.
pub record Ops : Type 0 where
  pub tx : Bool
  pub start : Bool
  pub stop : Bool
  pub config : Bool
  pub add_interface : Bool
  pub remove_interface : Bool
  pub configure_filter : Bool
  pub bss_info_changed : Bool
  pub conf_tx : Bool
  pub sta_state : Bool
  pub sta_add : Bool
  pub sta_remove : Bool
  pub add_chanctx : Bool
  pub remove_chanctx : Bool
  pub change_chanctx : Bool
  pub assign_vif_chanctx : Bool
  pub unassign_vif_chanctx : Bool
  pub remain_on_channel : Bool
  pub hw_scan : Bool
  pub set_key : Bool
  pub set_frag_threshold : Bool
  pub start_nan : Bool
  pub stop_nan : Bool
  pub tdls_channel_switch : Bool
  pub tdls_cancel_channel_switch : Bool
  pub tdls_recv_channel_switch : Bool

-- `interface_modes` and `software_iftypes`, masks of NL80211_IFTYPE_*
pub record Modes : Type 0 where
  pub adhoc : Bool
  pub ap : Bool
  pub ap_vlan : Bool
  pub wds : Bool
  pub monitor : Bool
  pub mesh_point : Bool
  pub nan : Bool

-- WIPHY_FLAG_*
pub record WiphyFlags : Type 0 where
  pub netns_ok : Bool
  pub ap_4addr : Bool
  pub station_4addr : Bool
  pub reports_obss : Bool
  pub offchan_tx : Bool
  pub has_remain_on_channel : Bool
  pub ibss_rsn : Bool
  pub mesh_auth : Bool
  pub control_port_protocol : Bool
  pub supports_tdls : Bool
  pub tdls_external_setup : Bool

-- NL80211_FEATURE_* and, of NL80211_EXT_FEATURE_*, the last two.
pub record Features : Type 0 where
  pub sk_tx_status : Bool
  pub sae : Bool
  pub ht_ibss : Bool
  pub vif_txpower : Bool
  pub mac_on_create : Bool
  pub userspace_mpm : Bool
  pub full_ap_client_state : Bool
  pub low_priority_scan : Bool
  pub ap_scan : Bool
  pub tdls_channel_switch : Bool
  pub fils_sta : Bool
  pub rrm : Bool

-- `struct ieee80211_iface_limit`: whether its `types` have NL80211_IFTYPE_ADHOC.
pub record Limit : Type 0 where
  pub adhoc : Bool
  pub max : ℕ

-- `struct ieee80211_iface_combination`
pub record Combination : Type 0 where
  pub num_different_channels : ℕ
  pub radar_detect_widths : ℕ
  pub limits : List Limit

-- `struct ieee80211_channel`, of those that the code makes.
pub record Channel : Type 0 where
  pub hw_value : ℕ
  pub flags : ℕ
  pub center_freq : ℕ
  pub max_power : ℕ
  pub max_antenna_gain : ℕ
  pub orig_mpwr : ℕ
  pub orig_mag : ℕ

-- A pointer to a channel: into a band of the driver, which a number tells apart, or to one of the code's own.
pub data ChannelPtr : Type 0 where
  no_channel : ChannelPtr
  of_band : ℕ → ChannelPtr
  own : Channel → ChannelPtr

-- `struct cfg80211_chan_def`; `width_40` is NL80211_CHAN_WIDTH_40.
pub record Chandef : Type 0 where
  pub chan : ChannelPtr
  pub center_freq1 : ℕ
  pub width_40 : Bool

-- `struct ieee80211_supported_band`: `channel` tells its first channel apart; `sm_ps_disabled` is whether `cap` has
-- the bits of WLAN_HT_CAP_SM_PS_DISABLED.
pub record Band : Type 0 where
  pub channel : ℕ
  pub n_channels : ℕ
  pub n_bitrates : ℕ
  pub ht_supported : Bool
  pub vht_supported : Bool
  pub sm_ps_disabled : Bool

-- `enum cfg80211_signal_type`
pub data SignalType : Type 0 where
  no_signal mbm unspec : SignalType

-- `struct wiphy`; `bands` has NUM_NL80211_BANDS pointers, and `extended_capabilities` is whether the capabilities and their
-- mask are `ext_capa`.
pub record Wiphy : Type 0 where
  pub interface_modes : Modes
  pub software_iftypes : Modes
  pub flags : WiphyFlags
  pub features : Features
  pub combinations : List Combination
  pub bands : List (Option Band)
  pub max_scan_ssids : ℕ
  pub max_scan_ie_len : ℕ
  pub max_remain_on_channel_duration : ℕ
  pub max_num_csa_counters : ℕ
  pub bss_priv_size : ℕ
  pub retry_long : ℕ
  pub retry_short : ℕ
  pub extended_capabilities : Bool
  pub signal_type : SignalType

-- `struct ieee80211_local` with its `hw` and `conf`. `queue_control`, `supports_tx_frag` and `chanctx_sta_csa` are
-- flags of `hw`; `alien_features` is whether `netdev_features` has any but the checksum features
-- that the code lists; `int_scan_req` has the rates of each band; `ext_channel_switching` and `opmode_notif` are
-- bits of `ext_capa`; `privid` is whether `wiphy->privid` is the module's, `radiotap_details` whether the three flags
-- of `radiotap_mcs_details` and the two of `radiotap_vht_details` are set, `radiotap_timestamp` whether the `units_pos` or
-- the `accuracy` of the time stamp is anything but -1. `has_signals` is `max_signal > 0`; `can_wake` is false if CONFIG_PM is set and
-- the hardware has `wowlan` but no `suspend` or `resume`; `ps_timeout` is whether `dynamic_ps_forced_timeout` is anything but
-- -1, and `workqueue` whether there is one. Lists and locks are left out.
pub record Local : Type 0 where
  pub wiphy : Wiphy
  pub ops : Ops
  pub use_chanctx : Bool
  pub queue_control : Bool
  pub supports_tx_frag : Bool
  pub chanctx_sta_csa : Bool
  pub alien_features : Bool
  pub offchannel_tx_hw_queue : ℕ
  pub queues : ℕ
  pub max_rates : ℕ
  pub max_report_rates : ℕ
  pub max_rx_aggregation_subframes : ℕ
  pub max_tx_aggregation_subframes : ℕ
  pub uapsd_queues : ℕ
  pub uapsd_max_sp_len : ℕ
  pub extra_tx_headroom : ℕ
  pub tx_headroom : ℕ
  pub max_listen_interval : ℕ
  pub max_nan_de_entries : ℕ
  pub rx_chains : ℕ
  pub scan_ies_len : ℕ
  pub int_scan_req : Option (List ℕ)
  pub ext_channel_switching : Bool
  pub opmode_notif : Bool
  pub user_power_level : ℕ
  pub privid : Bool
  pub radiotap_details : Bool
  pub radiotap_timestamp : Bool
  pub signal_dbm : Bool
  pub signal_unspec : Bool
  pub has_signals : Bool
  pub can_wake : Bool
  pub listen_interval : ℕ
  pub ps_timeout : Bool
  pub workqueue : Bool
  pub started : Bool
  pub chandef : Chandef
  pub oper_chandef : Chandef
  pub monitor_chandef : Chandef
  pub power_level : ℕ
  pub conf_idle : Bool
  pub long_frame_max_tx_count : ℕ
  pub short_frame_max_tx_count : ℕ

-- `struct ieee80211_vif` of the one interface.
pub record Vif : Type 0 where
  pub adhoc : Bool
  pub addr : List ℕ
  pub basic_rates : ℕ
  pub txpower : ℕ

-- `struct ieee80211_sta` of the one peer, which stands for all: the capabilities are RX_STBC, SUP_WIDTH_20_40, SGI_40
-- and SGI_20.
pub record Sta : Type 0 where
  pub addr : List ℕ
  pub supp_rates : List ℕ
  pub ht_supported : Bool
  pub rx_mask : List ℕ

-- `struct ieee80211_tx_queue_params`
pub record QueueParams : Type 0 where
  pub aifs : ℕ
  pub cw_min : ℕ
  pub cw_max : ℕ

-- A call of the driver with its arguments.
pub data Call : Type 0 where
  start : Call
  add_interface : Vif → Call
  sta_add : Vif → Sta → Call
  bss_info_changed : Vif → Call
  conf_tx : Vif → ℕ → QueueParams → Call
  configure_filter : Call

pub data Errno : Type 0 where
  einval eopnotsupp enomem : Errno

-- The kernel and the driver: constants and sizes of the kernel's headers, its answers to calls, and
-- what the driver does to the hardware at a call of it.
pub record Platform : Type 0 where
  pub max_queues : ℕ
  pub inval_hw_queue : ℕ
  pub max_data_len : ℕ
  pub max_csa_counters : ℕ
  pub tx_status_headroom : ℕ
  pub max_ampdu_buf : ℕ
  pub max_sp_len : ℕ
  pub ht_cap_size : ℕ
  pub vht_cap_size : ℕ
  pub bss_size : ℕ
  pub unset_power_level : ℕ
  -- CONFIG_MAC80211_MESH
  pub mesh : Bool
  -- whether the n-th `kzalloc` of a registration succeeds
  pub kzalloc : ℕ → Bool
  -- `cfg80211_chandef_create` for a channel of a band
  pub chandef_create : ℕ → Chandef
  pub wiphy_register : Wiphy → Wiphy
  -- the zeroed memory of `wiphy_new_nm`
  pub wiphy_new_nm : Option Local
  pub driver : Call → Local → Local

-- The hardware with the module's variables: whether `vhw` points to it, the interface that `vmon` points to, and
-- the calls of the driver so far, the newest last.
pub record Registry : Type 0 where
  pub vhw : Bool
  pub vmon : Option Vif
  pub local : Local
  pub calls : List Call
