-- ===== src/Hooks/Refusal.antt =====
-- A hardware that is refused: its driver is not called.
use v_mac_kernel.Prelude.{
  ◌≡◌, refl, ap, ◌∙◌, ◌&&◌, not, ◌⊎◌, inl, inr, List, [], ◌∷◌, Option, none, some, true, false,
  arith, Bool-cases, Option-cases,
}
use v_mac_kernel.Kernel.{ok}
use v_mac_kernel.Hooks.{Local, Band, Errno, einval, enomem, Platform, Registry}
use v_mac_kernel.Hooks.Bands.{is_null, Scan, scan_bands, choose_channel, count_band}
use v_mac_kernel.Hooks.Support.{Supported, early_error-none, none-early_error, many_adhoc-one}
use v_mac_kernel.Hooks.Checks.{early_error, many_adhoc}
use v_mac_kernel.Hooks.Register.{with_rates, with_modes, scan_from, set_up, register_hw}

-- The loop over the bands changes channels only.
abbrev pub on_channels : Local → Local → Local
on_channels l l' = record l {
  chandef = l'.chandef;
  oper_chandef = l'.oper_chandef;
  monitor_chandef = l'.monitor_chandef;
}

choose_channel-kept :
    (p : Platform) (b : Band) (s : Scan)
    → (choose_channel p b s).local ≡ on_channels s.local (choose_channel p b s).local
unfolding choose_channel
choose_channel-kept p b s = elim (Bool-cases (is_null s.dflt_chandef.chan)) [
  | inl first ↦ elim (Bool-cases (not s.local.use_chanctx && is_null s.local.oper_chandef.chan)) [
    | inl idle ↦ rw (first, idle, choose_channel) refl
    | inr busy ↦ rw (first, busy, choose_channel) refl
  ]
  | inr later ↦ rw (later, choose_channel) refl
]

pub scan_bands-kept :
    (p : Platform) (bs : List (Option Band)) (s : Scan)
    → (scan_bands p bs s).1.local ≡ on_channels s.local (scan_bands p bs s).1.local
unfolding scan_bands count_band
scan_bands-kept p [] s = refl
scan_bands-kept p (none ∷ bs) s = scan_bands-kept p bs s
scan_bands-kept p (some b ∷ bs) s =
    let last = (scan_bands p bs (count_band b (choose_channel p b s))).1.local in
    scan_bands-kept p bs (count_band b (choose_channel p b s))
    ∙ ap (λ l. on_channels l last) (choose_channel-kept p b s)

-- What a refusal leaves: nothing started, and no call of the driver made.
pub record Untouched (r r' : Registry) : Type 0 where
  pub calls : r'.calls ≡ r.calls
  pub vmon : r'.vmon ≡ r.vmon
  pub started : r'.local.started ≡ r.local.started
  pub ops : r'.local.ops ≡ r.local.ops

-- The hardware after the loop over the bands.
abbrev pub scanned : Platform → Local → Local
scanned p l = (scan_bands p l.wiphy.bands (scan_from (with_rates l))).1.local

pub scanned-kept :
    (p : Platform) (l : Local) → scanned p l ≡ on_channels (with_rates l) (scanned p l)
scanned-kept p l = scan_bands-kept p l.wiphy.bands (scan_from (with_rates l))

-- The hardware when the limits on ad-hoc interfaces are tested.
abbrev pub tested : Platform → Local → Local
tested p l = with_modes (record (scanned p l) {
  wiphy = record ((scanned p l).wiphy) {
    bands = (scan_bands p l.wiphy.bands (scan_from (with_rates l))).0;
  };
})

pub tested-combinations :
    (p : Platform) (l : Local) → (tested p l).wiphy.combinations ≡ l.wiphy.combinations
unfolding with_modes with_rates
tested-combinations p l = ap (λ x. x.wiphy.combinations) (scanned-kept p l)

tested-Untouched :
    (p : Platform) (r r' : Registry)
    → r'.calls ≡ r.calls
    → r'.vmon ≡ r.vmon
    → r'.local.started ≡ (tested p r.local).started
    → r'.local.ops ≡ (tested p r.local).ops
    → Untouched r r'
unfolding with_modes with_rates
tested-Untouched p r r' c v s o = record {
  calls = c;
  vmon = v;
  started = s ∙ ap (λ x. x.started) (scanned-kept p r.local);
  ops = o ∙ ap (λ x. x.ops) (scanned-kept p r.local);
}

-- A registration that ends with an error.
pub record Refused (p : Platform) (r : Registry) : Type 0 where
  pub error : Errno
  pub after : Registry
  pub result : register_hw p r ≡ ok (some error, after)
  pub reason : ((error ≡ enomem) × (p.kzalloc 0 ≡ false)) ⊎ ¬ (Supported p r.local)
  pub untouched : Untouched r after

register_hw-early :
    (p : Platform) (r : Registry) (e : Errno) → early_error p r.local ≡ some e → Refused p r
unfolding register_hw
register_hw-early p r e h = record {
  error = e;
  after = record r { vhw = true };
  result = rw (h, register_hw) refl;
  reason = inr (λ v. ground (arith, h, early_error-none p r.local v));
  untouched = record { calls = refl; vmon = refl; started = refl; ops = refl };
}

pub register_hw-set_up :
    (p : Platform) (r : Registry)
    → early_error p r.local ≡ none
    → register_hw p r ≡ set_up p (record r { vhw = true })
unfolding register_hw
register_hw-set_up p r e = rw (e, register_hw) refl

set_up-adhoc :
    (p : Platform) (r : Registry)
    → many_adhoc (tested p r.local).wiphy.combinations ≡ true
    → set_up p r ≡ ok (some einval, record r { local = tested p r.local })
unfolding set_up
set_up-adhoc p r a = rw (a, set_up) refl

set_up-memory :
    (p : Platform) (r : Registry)
    → many_adhoc (tested p r.local).wiphy.combinations ≡ false
    → p.kzalloc 0 ≡ false
    → set_up p r
      ≡ ok (some enomem, record r { local = record (tested p r.local) { int_scan_req = none } })
unfolding set_up
set_up-memory p r a k = rw (a, k, set_up) refl

module _ (p : Platform) (r : Registry) (e : early_error p r.local ≡ none) where
  register_hw-adhoc : many_adhoc r.local.wiphy.combinations ≡ true → Refused p r
  register_hw-adhoc a = record {
    error = einval;
    after = record r { vhw = true; local = tested p r.local };
    result =
        register_hw-set_up p r e
        ∙ set_up-adhoc p (record r { vhw = true })
            (ap many_adhoc (tested-combinations p r.local) ∙ a);
    reason = inr (λ v. ground (arith, a, many_adhoc-one r.local.wiphy.combinations v.one_adhoc));
    untouched = tested-Untouched p r _ refl refl refl refl;
  }

  register_hw-memory :
      many_adhoc r.local.wiphy.combinations ≡ false → p.kzalloc 0 ≡ false → Refused p r
  register_hw-memory a k = record {
    error = enomem;
    after = record r { vhw = true; local = record (tested p r.local) { int_scan_req = none } };
    result =
        register_hw-set_up p r e
        ∙ set_up-memory p (record r { vhw = true })
            (ap many_adhoc (tested-combinations p r.local) ∙ a) k;
    reason = inl (refl, k);
    untouched = tested-Untouched p r _ refl refl refl refl;
  }

-- A hardware that is not supported, or for which the first `kzalloc` fails, is refused: the registration ends with an
-- error, which is ENOMEM after that `kzalloc` has failed, or else the hardware is not supported. No function of
-- the driver has been called, and the hardware's functions, whether it is marked as started, and `vmon` are as before.
pub register_hw-Refused :
    (p : Platform) (r : Registry) → (¬ (Supported p r.local)) ⊎ (p.kzalloc 0 ≡ false) → Refused p r
register_hw-Refused p r h = elim (Option-cases (early_error p r.local)) [
  | inl e ↦ elim (Bool-cases (many_adhoc r.local.wiphy.combinations)) [
    | inl a ↦ register_hw-adhoc p r e a
    | inr a ↦ elim h [
      | inl not_supported ↦ absurd (not_supported (none-early_error p r.local e a))
      | inr k ↦ register_hw-memory p r e a k
    ]
  ]
  | inr (x, e) ↦ register_hw-early p r x e
]
