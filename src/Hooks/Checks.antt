-- ===== src/Hooks/Checks.antt =====
-- The tests of `ieee80211_register_hw` that refuse a hardware.
use v_mac_kernel.Prelude.{
  List, [], ◌∷◌, Option, none, some, Bool, false, not, ◌&&◌, ◌||◌, ltb, leb, ◌==◌, if◌then◌else◌,
}
use v_mac_kernel.Hooks.{Limit, Combination, Local, Errno, einval, eopnotsupp, Platform}

-- A combination of interfaces on more than one channel.
abbrev pub many_channels : List Combination → Bool
many_channels [] = false
many_channels (c ∷ cs) = ltb 1 c.num_different_channels || many_channels cs

-- The same with a width for radar detection.
abbrev pub many_radar_channels : List Combination → Bool
many_radar_channels [] = false
many_radar_channels (c ∷ cs) =
    (not (c.radar_detect_widths == 0) && ltb 1 c.num_different_channels) || many_radar_channels cs

-- A limit that allows more than one ad-hoc interface.
abbrev pub many_adhoc_limits : List Limit → Bool
many_adhoc_limits [] = false
many_adhoc_limits (l ∷ ls) = (l.adhoc && ltb 1 l.max) || many_adhoc_limits ls

abbrev pub many_adhoc : List Combination → Bool
many_adhoc [] = false
many_adhoc (c ∷ cs) = many_adhoc_limits c.limits || many_adhoc cs

-- The tests before anything is changed.
unfoldable pub early_error : Platform → Local → Option Errno
early_error p l =
    if l.queue_control
      && (l.offchannel_tx_hw_queue == p.inval_hw_queue || leb l.queues l.offchannel_tx_hw_queue)
    then some einval
    else if l.wiphy.features.tdls_channel_switch
        && (not l.ops.tdls_channel_switch
            || (not l.ops.tdls_cancel_channel_switch || not l.ops.tdls_recv_channel_switch))
    then some eopnotsupp
    else if l.supports_tx_frag && not l.ops.set_frag_threshold
    then some einval
    else if l.wiphy.interface_modes.nan && (not l.ops.start_nan || not l.ops.stop_nan)
    then some einval
    else if not l.use_chanctx && many_channels l.wiphy.combinations
    then some einval
    else if l.use_chanctx && l.wiphy.interface_modes.wds
    then some einval
    else if l.use_chanctx && many_radar_channels l.wiphy.combinations
    then some einval
    else if l.alien_features
    then some einval
    else none
