-- ===== src/Hooks/Tests.antt =====
-- Drivers that are allocated and registered, and refused.
use v_mac_kernel.Prelude.{
  ◌≡◌, refl, inl, inr, [], ◌∷◌, ◌++◌, none, true, false, some, arith, replicate,
}
use v_mac_kernel.Kernel.{null_dereference, ok, oops}
use v_mac_kernel.Hooks.{of_band, Registry}
use v_mac_kernel.Hooks.Bands.{scan_bands, mark_band}
use v_mac_kernel.Hooks.Register.{scan_from, mask_rates, register_hw}
use v_mac_kernel.Hooks.Alloc.{with_flags, alloc_hw, new_hw}
use v_mac_kernel.Hooks.Older.{Alike, alloc_hw-alloc_older_hw}
use v_mac_kernel.Hooks.OlderRegister.{Older, register_older_hw}
use v_mac_kernel.Hooks.OlderRegistered.{OlderRegistered, register_older_hw-OlderRegistered}
use v_mac_kernel.Hooks.Support.{Supported}
use v_mac_kernel.Hooks.Refusal.{Refused, register_hw-Refused}
use v_mac_kernel.Hooks.Accept.{Keeps, Called}
use v_mac_kernel.Hooks.Registered.{Registered, register_hw-Registered}
use v_mac_kernel.Hooks.Missing.{register_hw-alloc_hw}
use v_mac_kernel.Hooks.Counted.{map_present, present, Scanned, scan_bands_lem}
use v_mac_kernel.Samples.Drivers.{zeroed, ath, stateful, platform, given, registry}

-- The 77 rates fill nine bytes and five bits.
test_rx_mask : mask_rates 77 0 (replicate 10 0) ≡ replicate 9 0xff ++ 0x1f ∷ []
unfolding mask_rates
test_rx_mask = refl

registry-Supported : Supported platform (registry 1 ath).local
unfolding new_hw with_flags
registry-Supported = record {
  queues = inl refl;
  tdls = inl refl;
  fragments = inl refl;
  nan = inl refl;
  channels = inl (refl, (omega arith, tt));
  checksums = refl;
  one_adhoc = ((inr (omega arith), tt), tt);
}

stateful-Supported : Supported platform (registry 1 stateful).local
unfolding new_hw with_flags
stateful-Supported = record {
  queues = inl refl;
  tdls = inl refl;
  fragments = inl refl;
  nan = inl refl;
  channels = inl (refl, (omega arith, tt));
  checksums = refl;
  one_adhoc = ((inr (omega arith), tt), tt);
}

platform-Keeps : Keeps platform
platform-Keeps c l = record { ops = refl; started = refl; chandef = refl; queues = refl }

ath-Called : Called (registry 1 ath).local.ops
unfolding new_hw with_flags
ath-Called = record {
  start = refl;
  add_interface = refl;
  sta_add = refl;
  bss_info_changed = refl;
  conf_tx = refl;
  configure_filter = refl;
}

not_on_two_channels : ¬ (Supported platform (registry 2 ath).local)
unfolding new_hw with_flags
not_on_two_channels v = elim v.channels [
  | inl (e, one) ↦ absurd (omega (arith, one.0))
  | inr (e, w, one) ↦ absurd (ground (arith, e))
]

register_hw-Refused_example : Refused platform (registry 2 ath)
register_hw-Refused_example =
    register_hw-Refused platform (registry 2 ath) (inl not_on_two_channels)

register_hw-Registered_example :
    (r' : Registry) × (register_hw platform (registry 1 ath) ≡ ok (none, r'))
    × Registered platform (registry 1 ath) r'
register_hw-Registered_example =
    register_hw-Registered platform (registry 1 ath) registry-Supported refl refl refl
      platform-Keeps ath-Called

stateful-allocated : alloc_hw platform stateful ≡ some (new_hw platform stateful zeroed)
unfolding alloc_hw
stateful-allocated = refl

stateful-ops : (registry 1 stateful).local.ops ≡ (new_hw platform stateful zeroed).ops
unfolding new_hw with_flags
stateful-ops = refl

register_hw-alloc_hw_example : register_hw platform (registry 1 stateful) ≡ oops null_dereference
register_hw-alloc_hw_example =
    register_hw-alloc_hw platform stateful (new_hw platform stateful zeroed) (registry 1 stateful)
      stateful-allocated refl stateful-ops stateful-Supported refl refl refl platform-Keeps

scan_bands_lem_example :
    ((scan_bands platform (given 1 zeroed).wiphy.bands (scan_from (given 1 zeroed))).0
      ≡ map_present mark_band (given 1 zeroed).wiphy.bands)
    × Scanned platform
        (given 1 zeroed)
        (present (given 1 zeroed).wiphy.bands)
        (scan_bands platform (given 1 zeroed).wiphy.bands (scan_from (given 1 zeroed))).1
scan_bands_lem_example = scan_bands_lem platform (given 1 zeroed) (λ n. refl)

alloc_hw-alloc_older_hw_example : Alike platform ath
alloc_hw-alloc_older_hw_example = alloc_hw-alloc_older_hw platform ath

-- An older kernel, with a negative value on the stack.
abbrev older : Older
older = record {
  stale_result = true;
  register_fails = false;
  workqueue = true;
  no_ht = λ n. record { chan = of_band n; center_freq1 = 2412; width_40 = false };
}

ath-wakes : (registry 1 ath).local.can_wake ≡ true
unfolding new_hw
ath-wakes = refl

register_older_hw-OlderRegistered_example :
    (r' : Registry) × (register_older_hw platform older (registry 1 ath) ≡ ok (none, r'))
    × OlderRegistered platform older (registry 1 ath) r'
register_older_hw-OlderRegistered_example =
    register_older_hw-OlderRegistered platform older (registry 1 ath) registry-Supported ath-wakes
      refl refl refl platform-Keeps ath-Called
