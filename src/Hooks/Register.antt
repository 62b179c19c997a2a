-- ===== src/Hooks/Register.antt =====
-- `ieee80211_register_hw` of vmac/hooks.c, from top to bottom.
use v_mac_kernel.Prelude.{
  ℕ, zero, suc, ◌+◌, ◌-◌, ◌/◌, ◌%◌, ◌^◌, List, [], ◌∷◌, ◌++◌, Option, none, some, Bool, true, false,
  ◌&&◌, ◌||◌, ltb, ◌==◌, if◌then◌else◌, get_or, set, replicate,
}
use Prim.Native.Nat.{bit_or}
use v_mac_kernel.Words.{u16}
use v_mac_kernel.Kernel.{null_dereference, Outcome, ok, oops, ◌>>=◌}
use v_mac_kernel.Hooks.{
  no_channel, own, Chandef, Band, Local, Vif, Sta, QueueParams, Call, start, add_interface, sta_add,
  bss_info_changed, conf_tx, configure_filter, Errno, einval, enomem, Platform, Registry,
}
use v_mac_kernel.Hooks.Bands.{Scan, scan_bands, all_rates}
use v_mac_kernel.Hooks.Checks.{many_adhoc, early_error}

-- `max_report_rates` and `rx_chains`.
unfoldable pub with_rates : Local → Local
with_rates l = record l {
  max_report_rates = if l.max_report_rates == 0 then l.max_rates else l.max_report_rates;
  rx_chains = 1;
}

-- The modes that are added to those of the driver: VLAN to an access point, and always monitor.
unfoldable pub with_modes : Local → Local
with_modes l =
    let w = l.wiphy in
    let vlan = w.interface_modes.ap in
    record l {
      wiphy = record w {
        interface_modes = record (w.interface_modes) {
          ap_vlan = w.interface_modes.ap_vlan || vlan;
          monitor = true;
        };
        software_iftypes = record (w.software_iftypes) {
          ap_vlan = w.software_iftypes.ap_vlan || vlan;
          monitor = true;
        };
      };
    }

-- Mesh is taken away unless the kernel is built with it.
unfoldable pub with_mesh : Platform → Local → Local
with_mesh p l =
    let w = l.wiphy in
    let mesh = w.interface_modes.mesh_point && p.mesh in
    record l {
      wiphy = record w {
        interface_modes = record (w.interface_modes) { mesh_point = mesh };
        flags = record (w.flags) {
          mesh_auth = w.flags.mesh_auth || mesh;
          control_port_protocol = true;
        };
      };
    }

-- The length of the elements that a scan adds.
unfoldable pub scan_length : Platform → Scan → ℕ
scan_length p s =
    4
    + s.max_bitrates
    + 3
    + (if s.supp_ht then 2 + p.ht_cap_size else 0)
    + (if s.supp_vht then 2 + p.vht_cap_size else 0)

-- `max_scan_ie_len` is a `u16`: a driver's own limit under the length of the elements wraps.
unfoldable pub with_scan : Platform → Scan → Local → Local
with_scan p s l =
    let w = l.wiphy in
    let len = scan_length p s in
    let given = if l.ops.hw_scan then w.max_scan_ie_len else p.max_data_len in
    record l {
      scan_ies_len = len;
      wiphy = record w {
        max_scan_ssids = if l.ops.hw_scan then w.max_scan_ssids else 4;
        max_scan_ie_len = if given == 0 then 0 else u16 (given + 2 ^ 32 - len);
      };
    }

-- The limits from remaining on a channel to the counters of channel switches.
unfoldable pub with_limits : Platform → Local → Local
with_limits p l =
    let w = l.wiphy in
    record l {
      ext_channel_switching = l.ext_channel_switching || l.chanctx_sta_csa;
      wiphy = record w {
        max_remain_on_channel_duration =
            if l.ops.remain_on_channel then w.max_remain_on_channel_duration else 5000;
        flags = record (w.flags) {
          tdls_external_setup = w.flags.tdls_external_setup || w.flags.supports_tdls;
        };
        max_num_csa_counters = p.max_csa_counters;
      };
    }

-- The defaults that are set after `wiphy_register`, whose result is not looked at.
unfoldable pub with_defaults : Platform → Local → Local
with_defaults p l = record l {
  wiphy = p.wiphy_register l.wiphy;
  queues = if ltb p.max_queues l.queues then p.max_queues else l.queues;
  tx_headroom =
      if ltb l.extra_tx_headroom p.tx_status_headroom
      then p.tx_status_headroom
      else l.extra_tx_headroom;
  max_listen_interval = if l.max_listen_interval == 0 then 5 else l.max_listen_interval;
  max_nan_de_entries = if l.max_nan_de_entries == 0 then 255 else l.max_nan_de_entries;
  conf_idle = true;
  started = true;
}

-- Channel 8, 2447 MHz, 40 MHz wide.
abbrev pub fixed_channel : Chandef
fixed_channel = record {
  chan = own (record {
    hw_value = 0;
    flags = 384;
    center_freq = 2447;
    max_power = 20;
    max_antenna_gain = 1;
    orig_mpwr = 20;
    orig_mag = 20;
  });
  center_freq1 = 2457;
  width_40 = true;
}

abbrev pub vif : Vif
vif = record { adhoc = true; addr = replicate 6 0xfe; basic_rates = 2 ^ 32 - 1; txpower = 20 }

-- The loop over the 77 rates of `rx_mask`, of ten bytes, with `n` to go from rate `i` on.
unfoldable pub mask_rates : ℕ → ℕ → List ℕ → List ℕ
mask_rates zero i mask = mask
mask_rates (suc n) i mask =
    mask_rates n (i + 1) (set mask (i / 8) (bit_or (get_or mask (i / 8) 0) (2 ^ (i % 8))))

unfoldable pub sta : List (Option Band) → Sta
sta bands = record {
  addr = replicate 6 0xff;
  supp_rates = all_rates bands;
  ht_supported = true;
  rx_mask = mask_rates 77 0 (replicate 10 0);
}

abbrev pub params : QueueParams
params = record { aifs = 0; cw_min = 1; cw_max = 7 }

-- A call of a function of the driver, which the code does not test for.
unfoldable pub call : Platform → Bool → Call → Registry → Outcome Registry
call p there c r =
    if there
    then ok (record r { local = p.driver c r.local; calls = r.calls ++ c ∷ [] })
    else oops null_dereference

-- The part behind the tests: the channel, and the calls of the driver.
unfoldable pub bring_up : Platform → List (Option Band) → Registry → Outcome Registry
bring_up p bands r0 =
    if p.kzalloc 1 && p.kzalloc 2
    then (let r1 = record r0 { local = record (r0.local) { chandef = fixed_channel } } in
        call p r1.local.ops.start start r1 >>= λ r2.
        let r3 = record r2 { local = record (r2.local) { power_level = 20 }; vmon = some vif } in
        call p r3.local.ops.add_interface (add_interface vif) r3 >>= λ r4.
        call p r4.local.ops.sta_add (sta_add vif (sta bands)) r4 >>= λ r5.
        call p r5.local.ops.bss_info_changed (bss_info_changed vif) r5 >>= λ r6.
        call p r6.local.ops.conf_tx (conf_tx vif 0 params) r6 >>= λ r7.
        call p r7.local.ops.conf_tx (conf_tx vif 1 params) r7 >>= λ r8.
        call p r8.local.ops.conf_tx (conf_tx vif 2 params) r8 >>= λ r9.
        call p r9.local.ops.configure_filter configure_filter r9)
    else oops null_dereference

-- The loop over the bands starts with nothing counted.
abbrev pub scan_from : Local → Scan
scan_from l = record {
  dflt_chandef = record { chan = no_channel; center_freq1 = 0; width_40 = false };
  channels = 0;
  max_bitrates = 0;
  supp_ht = false;
  supp_vht = false;
  local = l;
}

-- `ieee80211_register_hw` from the loop over the bands on.
unfoldable pub set_up : Platform → Registry → Outcome (Option Errno × Registry)
set_up p r =
    let (bands, s) = scan_bands p r.local.wiphy.bands (scan_from (with_rates r.local)) in
    let scanned = record (s.local) { wiphy = record (s.local.wiphy) { bands = bands } } in
    let l = with_modes scanned in
    if many_adhoc l.wiphy.combinations
    then ok (some einval, record r { local = l })
    else if p.kzalloc 0
    then (let l1 = record l { int_scan_req = some (all_rates bands) } in
        let l2 = with_defaults p (with_limits p (with_scan p s (with_mesh p l1))) in
        bring_up p bands (record r { local = l2 }) >>= λ r'. ok (none, r'))
    else ok (some enomem, record r { local = record l { int_scan_req = none } })

-- `ieee80211_register_hw`: its result, `none` for 0, and what it leaves.
unfoldable pub register_hw : Platform → Registry → Outcome (Option Errno × Registry)
register_hw p r0 =
    let r = record r0 { vhw = true } in
    elim (early_error p r.local) [ some e ↦ ok (some e, r) | none ↦ set_up p r ]
