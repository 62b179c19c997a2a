-- ===== src/Hooks/OlderRegistered.antt =====
-- What the registration of an older kernel leaves.
use v_mac_kernel.Prelude.{
  ℕ, ◌≡◌, refl, ap, sym, ◌∙◌, List, [], ◌∷◌, ◌++◌, Option, none, some, true, false, ◌&&◌, ltb,
  if◌then◌else◌, append_assoc, arith,
}
use mathlib.Core.Path.{subst}
use v_mac_kernel.Kernel.{ok, ◌>>=◌}
use v_mac_kernel.Hooks.{Band, Local, start, Platform, Registry}
use v_mac_kernel.Hooks.Bands.{Scan, scan_bands, choose_channel, count_band, all_rates}
use v_mac_kernel.Hooks.Checks.{many_adhoc, early_error}
use v_mac_kernel.Hooks.Register.{
  with_rates, with_modes, with_mesh, with_scan, scan_from, bring_up, fixed_channel,
}
use v_mac_kernel.Hooks.OlderRegister.{
  Older, early_older_error, with_signal, negative, with_older_limits, with_older_defaults, without,
  set_up_older, register_older_hw,
}
use v_mac_kernel.Hooks.Support.{Supported, early_error-none, many_adhoc-one}
use v_mac_kernel.Hooks.Refusal.{scanned-kept, tested, tested-combinations}
use v_mac_kernel.Hooks.Accept.{
  Keeps, Called, make, make-Kept, make-calls, later_calls, tuned, powered, bring_up-make,
}

early_older_error-none :
    (p : Platform) (l : Local)
    → early_error p l ≡ none
    → l.can_wake ≡ true
    → early_older_error p l ≡ none
unfolding early_error early_older_error
early_older_error-none p l h w = ground arith

module _ (p : Platform) (k : Older) where
  -- The kernel with its other choice of a channel's width.
  abbrev no_ht : Platform
  no_ht = record p { chandef_create = k.no_ht }

  abbrev scan : Local → List (Option Band) × Scan
  scan l = scan_bands no_ht l.wiphy.bands (scan_from (with_rates l))

  -- The hardware when the driver is started.
  abbrev readied : Local → Local
  readied l =
      let l1 =
        with_signal
          (with_mesh p (record (tested no_ht l) { int_scan_req = some (all_rates (scan l).0) })) in
      with_older_defaults p k (with_older_limits p (negative k l1) (with_scan p (scan l).1 l1))

  readied-ops : (l : Local) → (readied l).ops ≡ l.ops
  unfolding with_older_defaults with_older_limits with_scan with_signal with_mesh with_modes
      with_rates
  readied-ops l = ap (λ x. x.ops) (scanned-kept no_ht l)

  -- The number of queues, which only a failed registration restricts.
  abbrev restricted : Local → ℕ
  restricted l = if k.register_fails && ltb p.max_queues l.queues then p.max_queues else l.queues

  readied-queues : (l : Local) → (readied l).queues ≡ restricted l
  unfolding with_older_defaults with_older_limits with_scan with_signal with_mesh with_modes
      with_rates
  readied-queues l = ap restricted (scanned-kept no_ht l)

  set_up_older-bring_up :
      (r : Registry)
      → many_adhoc (tested no_ht r.local).wiphy.combinations ≡ false
      → p.kzalloc 0 ≡ true
      → set_up_older p k r ≡ (
          bring_up p (without (scan r.local).0) (record r { local = readied r.local }) >>= λ r'.
          ok (none, r'))
  unfolding set_up_older
  set_up_older-bring_up r a z = rw (a, z, set_up_older) refl

without-scan_bands :
    (p : Platform) (bs : List (Option Band)) (s : Scan) → without (scan_bands p bs s).0 ≡ without bs
unfolding scan_bands
without-scan_bands p [] s = refl
without-scan_bands p (none ∷ bs) s = ap (λ x. none ∷ x) (without-scan_bands p bs s)
without-scan_bands p (some b ∷ bs) s =
    ap (λ x. none ∷ x) (without-scan_bands p bs (count_band b (choose_channel p b s)))

-- What the registration of an older kernel leaves of a supported hardware.
pub record OlderRegistered (p : Platform) (k : Older) (r r' : Registry) : Type 0 where
  pub calls : r'.calls ≡ r.calls ++ start ∷ later_calls (without r.local.wiphy.bands)
  pub chandef : r'.local.chandef ≡ fixed_channel
  pub ops : r'.local.ops ≡ r.local.ops
  pub queues : r'.local.queues ≡ restricted p k r.local

bring_up-OlderRegistered :
    (p : Platform) (k : Older) (r r0 : Registry) (bands : List (Option Band))
    → Keeps p
    → bands ≡ without r.local.wiphy.bands
    → r0.calls ≡ r.calls
    → r0.local ≡ readied p k r.local
    → OlderRegistered p k r (make p (later_calls bands) (powered (make p (start ∷ []) (tuned r0))))
bring_up-OlderRegistered p k r r0 bands keeps same c l =
    let r1 = make p (start ∷ []) (tuned r0) in
    let last = make-Kept p keeps (later_calls bands) (powered r1) in
    let first = keeps start (tuned r0).local in
    record {
      calls =
          make-calls p (later_calls bands) (powered r1)
          ∙ ap (λ b. (r0.calls ++ start ∷ []) ++ later_calls b) same
          ∙ rw c (append_assoc r.calls (start ∷ []) (later_calls (without r.local.wiphy.bands)));
      chandef = last.chandef ∙ first.chandef;
      ops = last.ops ∙ first.ops ∙ ap (λ x. x.ops) l ∙ readied-ops p k r.local;
      queues = last.queues ∙ first.queues ∙ ap (λ x. x.queues) l ∙ readied-queues p k r.local;
    }

register_older_hw-set_up :
    (p : Platform) (k : Older) (r : Registry)
    → early_older_error p r.local ≡ none
    → register_older_hw p k r ≡ set_up_older p k (record r { vhw = true })
unfolding register_older_hw
register_older_hw-set_up p k r e = rw (e, register_older_hw) refl

-- An older kernel registers a supported hardware that can be woken up, under the conditions of a newer one, and
-- whatever `result` holds: the result is 0, and the driver has got the same calls, but for the rates of the peer, of which
-- there are none. The number of queues is restricted only if `wiphy_register` fails.
pub register_older_hw-OlderRegistered :
    (p : Platform) (k : Older) (r : Registry)
    → Supported p r.local
    → r.local.can_wake ≡ true
    → p.kzalloc 0 ≡ true
    → p.kzalloc 1 ≡ true
    → p.kzalloc 2 ≡ true
    → Keeps p
    → Called r.local.ops
    → (r' : Registry) × (register_older_hw p k r ≡ ok (none, r')) × OlderRegistered p k r r'
register_older_hw-OlderRegistered p k r v w k0 k1 k2 keeps o =
    let on = record r { vhw = true } in
    let ready = record on { local = readied p k r.local } in
    (
      _,
      register_older_hw-set_up p k r
            (early_older_error-none p r.local (early_error-none p r.local v) w)
          ∙ set_up_older-bring_up p k on
              (ap many_adhoc (tested-combinations (no_ht p k) r.local)
                ∙ many_adhoc-one r.local.wiphy.combinations v.one_adhoc)
              k0
          ∙ ap (λ m. m >>= λ r'. ok (none, r'))
              (bring_up-make p (without (scan p k r.local).0) ready k1 k2 keeps
                (subst Called (sym (readied-ops p k r.local)) o)),
      bring_up-OlderRegistered p k r ready (without (scan p k r.local).0) keeps
          (without-scan_bands (no_ht p k) r.local.wiphy.bands (scan_from (with_rates r.local))) refl
          refl,
    )
