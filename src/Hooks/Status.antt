-- ===== src/Hooks/Status.antt =====
-- `ieee80211_tx_status` of vmac/hooks.c, by which the driver gives back a buffer that it has aired.
use v_mac_kernel.Skb.{Ptr}
use v_mac_kernel.Kernel.{Kernel, Outcome, kfree_skb}

unfoldable pub ieee80211_tx_status : Ptr → Kernel → Outcome Kernel
ieee80211_tx_status skb s = kfree_skb skb s
