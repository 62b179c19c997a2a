-- ===== src/Hooks/Support.antt =====
-- What a hardware must be like to be registered, and that the tests of `ieee80211_register_hw` say just this.
use v_mac_kernel.Prelude.{
  All, ◌≤◌, ◌<◌, ◌≡◌, ◌≢◌, refl, ◌⊎◌, inl, inr, List, [], ◌∷◌, none, true, false, not, ◌&&◌, ◌||◌,
  ◌==◌, leb, arith, Bool-cases,
}
use v_mac_kernel.Hooks.{Limit, Combination, Local, Platform}
use v_mac_kernel.Hooks.Checks.{
  many_channels, many_radar_channels, many_adhoc_limits, many_adhoc, early_error,
}

-- At most one ad-hoc interface by this limit.
abbrev pub OneAdhoc : Limit → Type 0
OneAdhoc l = (l.adhoc ≡ false) ⊎ (l.max ≤ 1)

-- A hardware that asks for nothing its driver or V-MAC cannot do.
pub record Supported (p : Platform) (l : Local) : Type 0 where
  pub queues :
      (l.queue_control ≡ false)
      ⊎ ((l.offchannel_tx_hw_queue ≢ p.inval_hw_queue) × (l.offchannel_tx_hw_queue < l.queues))
  pub tdls :
      (l.wiphy.features.tdls_channel_switch ≡ false)
      ⊎ ((l.ops.tdls_channel_switch ≡ true)
          × (l.ops.tdls_cancel_channel_switch ≡ true)
          × (l.ops.tdls_recv_channel_switch ≡ true))
  pub fragments : (l.supports_tx_frag ≡ false) ⊎ (l.ops.set_frag_threshold ≡ true)
  pub nan :
      (l.wiphy.interface_modes.nan ≡ false) ⊎ ((l.ops.start_nan ≡ true) × (l.ops.stop_nan ≡ true))
  pub channels :
      ((l.use_chanctx ≡ false) × All (λ c. c.num_different_channels ≤ 1) l.wiphy.combinations)
      ⊎ ((l.use_chanctx ≡ true)
          × (l.wiphy.interface_modes.wds ≡ false)
          × All
              (λ c. (c.radar_detect_widths ≡ 0) ⊎ (c.num_different_channels ≤ 1))
              l.wiphy.combinations)
  pub checksums : l.alien_features ≡ false
  pub one_adhoc : All (λ c. All OneAdhoc c.limits) l.wiphy.combinations

many_channels-one :
    (cs : List Combination) → All (λ c. c.num_different_channels ≤ 1) cs → many_channels cs ≡ false
many_channels-one [] h = refl
many_channels-one (c ∷ cs) h = ground (arith, many_channels-one cs h.1)

many_radar_channels-one :
    (cs : List Combination)
    → All (λ c. (c.radar_detect_widths ≡ 0) ⊎ (c.num_different_channels ≤ 1)) cs
    → many_radar_channels cs ≡ false
many_radar_channels-one [] h = refl
many_radar_channels-one (c ∷ cs) h = elim h.0 [
  | inl e ↦ ground (arith, many_radar_channels-one cs h.1)
  | inr e ↦ ground (arith, many_radar_channels-one cs h.1)
]

many_adhoc_limits-one : (ls : List Limit) → All OneAdhoc ls → many_adhoc_limits ls ≡ false
many_adhoc_limits-one [] h = refl
many_adhoc_limits-one (l ∷ ls) h = elim h.0 [
  | inl e ↦ rw e (many_adhoc_limits-one ls h.1)
  | inr e ↦ ground (arith, many_adhoc_limits-one ls h.1)
]

pub many_adhoc-one :
    (cs : List Combination) → All (λ c. All OneAdhoc c.limits) cs → many_adhoc cs ≡ false
many_adhoc-one [] h = refl
many_adhoc-one (c ∷ cs) h =
    ground (arith, many_adhoc_limits-one c.limits h.0, many_adhoc-one cs h.1)

pub early_error-none : (p : Platform) (l : Local) → Supported p l → early_error p l ≡ none
unfolding early_error
early_error-none p l v =
    let q : (l.queue_control
          && (l.offchannel_tx_hw_queue == p.inval_hw_queue
              || leb l.queues l.offchannel_tx_hw_queue))
        ≡ false =
      elim v.queues [ inl e ↦ rw e refl | inr (ne, lt) ↦ ground arith ] in
    let t : (l.wiphy.features.tdls_channel_switch
          && (not l.ops.tdls_channel_switch
              || (not l.ops.tdls_cancel_channel_switch || not l.ops.tdls_recv_channel_switch)))
        ≡ false =
      elim v.tdls [ inl e ↦ rw e refl | inr (a, b, c) ↦ ground (arith, a, b, c) ] in
    let f : (l.supports_tx_frag && not l.ops.set_frag_threshold) ≡ false = elim v.fragments [
      | inl e ↦ rw e refl
      | inr a ↦ ground (arith, a)
    ] in
    let n : (l.wiphy.interface_modes.nan && (not l.ops.start_nan || not l.ops.stop_nan)) ≡ false =
      elim v.nan [ inl e ↦ rw e refl | inr (a, b) ↦ ground (arith, a, b) ] in
    elim v.channels [
      | inl (e, one) ↦
          rw (q, t, f, n, e, many_channels-one l.wiphy.combinations one, v.checksums) refl
      | inr (e, w, one) ↦
          rw (q, t, f, n, e, w, many_radar_channels-one l.wiphy.combinations one, v.checksums) refl
    ]

one-many_channels :
    (cs : List Combination) → many_channels cs ≡ false → All (λ c. c.num_different_channels ≤ 1) cs
one-many_channels [] h = tt
one-many_channels (c ∷ cs) h = (ground arith, one-many_channels cs (ground arith))

one-many_radar_channels :
    (cs : List Combination)
    → many_radar_channels cs ≡ false
    → All (λ c. (c.radar_detect_widths ≡ 0) ⊎ (c.num_different_channels ≤ 1)) cs
one-many_radar_channels [] h = tt
one-many_radar_channels (c ∷ cs) h = (ground arith, one-many_radar_channels cs (ground arith))

one-many_adhoc_limits : (ls : List Limit) → many_adhoc_limits ls ≡ false → All OneAdhoc ls
one-many_adhoc_limits [] h = tt
one-many_adhoc_limits (l ∷ ls) h = (ground arith, one-many_adhoc_limits ls (ground arith))

one-many_adhoc :
    (cs : List Combination) → many_adhoc cs ≡ false → All (λ c. All OneAdhoc c.limits) cs
one-many_adhoc [] h = tt
one-many_adhoc (c ∷ cs) h =
    (one-many_adhoc_limits c.limits (ground arith), one-many_adhoc cs (ground arith))

pub none-early_error :
    (p : Platform) (l : Local)
    → early_error p l ≡ none
    → many_adhoc l.wiphy.combinations ≡ false
    → Supported p l
unfolding early_error
none-early_error p l h a = record {
  queues = ground arith;
  tdls = ground arith;
  fragments = ground arith;
  nan = ground arith;
  channels = elim (Bool-cases l.use_chanctx) [
    | inl e ↦ inr (e, ground arith, one-many_radar_channels l.wiphy.combinations (ground arith))
    | inr e ↦ inl (e, one-many_channels l.wiphy.combinations (ground arith))
  ];
  checksums = ground arith;
  one_adhoc = one-many_adhoc l.wiphy.combinations a;
}
