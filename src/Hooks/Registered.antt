-- ===== src/Hooks/Registered.antt =====
-- A hardware that is supported, with memory and a driver that has what is called: it is registered.
use v_mac_kernel.Prelude.{
  ◌≡◌, refl, ap, sym, ◌∙◌, List, [], ◌∷◌, ◌++◌, Option, none, some, true, false, ◌≤◌, append_assoc,
  arith,
}
use mathlib.Core.Path.{subst}
use v_mac_kernel.Kernel.{ok, ◌>>=◌}
use v_mac_kernel.Hooks.{Band, Local, start, Platform, Registry}
use v_mac_kernel.Hooks.Bands.{Scan, scan_bands, choose_channel, count_band, all_rates}
use v_mac_kernel.Hooks.Checks.{many_adhoc}
use v_mac_kernel.Hooks.Register.{
  with_rates, with_modes, with_mesh, with_scan, with_limits, with_defaults, scan_from, set_up,
  bring_up, register_hw, fixed_channel, vif, sta,
}
use v_mac_kernel.Hooks.Support.{Supported, early_error-none, many_adhoc-one}
use v_mac_kernel.Hooks.Refusal.{scanned-kept, tested, tested-combinations, register_hw-set_up}
use v_mac_kernel.Hooks.Accept.{
  Keeps, Called, make, make-Kept, make-calls, make-vmon, make-vhw, later_calls, tuned, powered,
  bring_up-make,
}

-- The bands and the counts that the loop leaves.
abbrev pub scan : Platform → Local → List (Option Band) × Scan
scan p l = scan_bands p l.wiphy.bands (scan_from (with_rates l))

-- The hardware when the driver is started.
abbrev pub readied : Platform → Local → Local
readied p l = with_defaults p (
    with_limits p (
      with_scan p (scan p l).1
        (with_mesh p (record (tested p l) { int_scan_req = some (all_rates (scan p l).0) }))))

pub readied-ops : (p : Platform) (l : Local) → (readied p l).ops ≡ l.ops
unfolding with_defaults with_limits with_scan with_mesh with_modes with_rates
readied-ops p l = ap (λ x. x.ops) (scanned-kept p l)

readied-started : (p : Platform) (l : Local) → (readied p l).started ≡ true
unfolding with_defaults
readied-started p l = refl

readied-queues : (p : Platform) (l : Local) → (readied p l).queues ≤ p.max_queues
unfolding with_defaults
readied-queues p l = ground arith

all_rates-scan_bands :
    (p : Platform) (bs : List (Option Band)) (s : Scan)
    → all_rates (scan_bands p bs s).0 ≡ all_rates bs
unfolding scan_bands all_rates
all_rates-scan_bands p [] s = refl
all_rates-scan_bands p (none ∷ bs) s = ap (λ x. 0 ∷ x) (all_rates-scan_bands p bs s)
all_rates-scan_bands p (some b ∷ bs) s =
    ap (λ x. 4294967295 ∷ x) (all_rates-scan_bands p bs (count_band b (choose_channel p b s)))

sta-scan : (p : Platform) (l : Local) → sta (scan p l).0 ≡ sta l.wiphy.bands
unfolding sta
sta-scan p l = rw (all_rates-scan_bands p l.wiphy.bands (scan_from (with_rates l))) refl

pub set_up-bring_up :
    (p : Platform) (r : Registry)
    → many_adhoc (tested p r.local).wiphy.combinations ≡ false
    → p.kzalloc 0 ≡ true
    → set_up p r ≡ (
        bring_up p (scan p r.local).0 (record r { local = readied p r.local }) >>= λ r'.
        ok (none, r'))
unfolding set_up
set_up-bring_up p r a k = rw (a, k, set_up) refl

-- What a registration leaves: one start of the driver, on the fixed channel, with the one interface and the one peer.
pub record Registered (p : Platform) (r r' : Registry) : Type 0 where
  pub calls : r'.calls ≡ r.calls ++ start ∷ later_calls r.local.wiphy.bands
  pub vmon : r'.vmon ≡ some vif
  pub vhw : r'.vhw ≡ true
  pub started : r'.local.started ≡ true
  pub chandef : r'.local.chandef ≡ fixed_channel
  pub queues : r'.local.queues ≤ p.max_queues
  pub ops : r'.local.ops ≡ r.local.ops

-- The driver is started, powered, and called for the rest.
bring_up-Registered :
    (p : Platform) (r r0 : Registry) (bands : List (Option Band))
    → Keeps p
    → sta bands ≡ sta r.local.wiphy.bands
    → r0.vhw ≡ true
    → r0.calls ≡ r.calls
    → r0.local ≡ readied p r.local
    → Registered p r (make p (later_calls bands) (powered (make p (start ∷ []) (tuned r0))))
bring_up-Registered p r r0 bands keeps same h c l =
    let r1 = make p (start ∷ []) (tuned r0) in
    let last = make-Kept p keeps (later_calls bands) (powered r1) in
    let first = keeps start (tuned r0).local in
    record {
      calls =
          make-calls p (later_calls bands) (powered r1)
          ∙ rw (c, same) (append_assoc r.calls (start ∷ []) (later_calls r.local.wiphy.bands));
      vmon = make-vmon p (later_calls bands) (powered r1);
      vhw = make-vhw p (later_calls bands) (powered r1) ∙ h;
      started = last.started ∙ first.started ∙ ap (λ x. x.started) l ∙ readied-started p r.local;
      chandef = last.chandef ∙ first.chandef;
      queues =
          subst (λ n. n ≤ p.max_queues) (sym (last.queues ∙ first.queues ∙ ap (λ x. x.queues) l))
            (readied-queues p r.local);
      ops = last.ops ∙ first.ops ∙ ap (λ x. x.ops) l ∙ readied-ops p r.local;
    }

-- A supported hardware is registered, if the three `kzalloc` succeed and the driver has the functions that are called
-- and leaves its functions and what V-MAC has set up: the result is 0, the driver has been called to start, to add
-- the one interface and the one peer, for its settings, for the parameters of the queues 0, 1 and 2 and for
-- the filter, in this order and nothing else, and the hardware is marked as started, on the fixed channel, with no
-- more queues than there can be.
pub register_hw-Registered :
    (p : Platform) (r : Registry)
    → Supported p r.local
    → p.kzalloc 0 ≡ true
    → p.kzalloc 1 ≡ true
    → p.kzalloc 2 ≡ true
    → Keeps p
    → Called r.local.ops
    → (r' : Registry) × (register_hw p r ≡ ok (none, r')) × Registered p r r'
register_hw-Registered p r v k0 k1 k2 keeps o =
    let started = record r { vhw = true } in
    let readied = record started { local = readied p r.local } in
    (
      _,
      register_hw-set_up p r (early_error-none p r.local v)
          ∙ set_up-bring_up p started
              (ap many_adhoc (tested-combinations p r.local)
                ∙ many_adhoc-one r.local.wiphy.combinations v.one_adhoc)
              k0
          ∙ ap (λ m. m >>= λ r'. ok (none, r'))
              (bring_up-make p (scan p r.local).0 readied k1 k2 keeps
                (subst Called (sym (readied-ops p r.local)) o)),
      bring_up-Registered p r readied (scan p r.local).0 keeps (sta-scan p r.local) refl refl refl,
    )
