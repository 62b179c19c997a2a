-- ===== src/Hooks/Missing.antt =====
-- A driver that keeps the state of its stations itself: `ieee80211_alloc_hw_nm` takes it only without `sta_add`, which
-- `ieee80211_register_hw` calls.
use v_mac_kernel.Prelude.{
  ◌≡◌, refl, ap, sym, ◌∙◌, inl, inr, List, [], ◌∷◌, Option, none, some, Bool, true, false, ◌&&◌,
  ◌||◌, ◌==◌, arith, Bool-cases, Option-cases,
}
use v_mac_kernel.Kernel.{null_dereference, Outcome, ok, oops, ◌>>=◌}
use v_mac_kernel.Hooks.{Ops, Band, Local, start, add_interface, sta_add, Call, Platform, Registry}
use v_mac_kernel.Hooks.Checks.{many_adhoc}
use v_mac_kernel.Hooks.Register.{call, bring_up, register_hw, vif, sta}
use v_mac_kernel.Hooks.Alloc.{incomplete, chanctx_ops, new_hw, alloc_hw}
use v_mac_kernel.Hooks.Support.{Supported, early_error-none, many_adhoc-one}
use v_mac_kernel.Hooks.Refusal.{tested-combinations, register_hw-set_up}
use v_mac_kernel.Hooks.Accept.{Keeps, make, call-there, tuned, powered}
use v_mac_kernel.Hooks.Registered.{scan, readied, readied-ops, set_up-bring_up}

call-missing :
    (p : Platform) (there : Bool) (c : Call) (r : Registry) (k : Registry → Outcome Registry)
    → there ≡ false
    → (call p there c r >>= k) ≡ oops null_dereference
unfolding call
call-missing p there c r k h = rw (h, call) refl

-- Without `sta_add`, the kernel stops.
bring_up-missing :
    (p : Platform) (bands : List (Option Band)) (r : Registry)
    → p.kzalloc 1 ≡ true
    → p.kzalloc 2 ≡ true
    → Keeps p
    → r.local.ops.start ≡ true
    → r.local.ops.add_interface ≡ true
    → r.local.ops.sta_add ≡ false
    → bring_up p bands r ≡ oops null_dereference
unfolding bring_up
bring_up-missing p bands r k1 k2 keeps s a n =
    let r1 = tuned r in
    let r3 = powered (make p (start ∷ []) r1) in
    let e = (keeps start r1.local).ops in
    rw (k1, k2, bring_up)
      (call-there p _ start r1 _ s
        ∙ call-there p _ (add_interface vif) r3 _ (ap (λ o. o.add_interface) e ∙ a)
        ∙ call-missing p _ (sta_add vif (sta bands)) (make p (add_interface vif ∷ []) r3) _
            (ap (λ o. o.sta_add) ((keeps (add_interface vif) r3.local).ops ∙ e) ∙ n))

-- What `alloc_hw` demands of the functions of a driver.
pub record Allocated (o : Ops) (l : Local) : Type 0 where
  pub ops : l.ops ≡ o
  pub start : o.start ≡ true
  pub add_interface : o.add_interface ≡ true
  pub stations : (o.sta_state && o.sta_add) ≡ false
  pub contexts : l.use_chanctx ≡ (chanctx_ops o == 5)

new_hw-Allocated :
    (p : Platform) (o : Ops) (l m : Local)
    → incomplete o ≡ false
    → (o.sta_state && (o.sta_add || o.sta_remove)) ≡ false
    → new_hw p o m ≡ l
    → Allocated o l
unfolding new_hw
new_hw-Allocated p o l m c e h = record {
  ops = sym (ap (λ x. x.ops) h);
  start = ground arith;
  add_interface = ground arith;
  stations = ground arith;
  contexts = sym (ap (λ x. x.use_chanctx) h);
}

alloc_hw-Allocated : (p : Platform) (o : Ops) (l : Local) → alloc_hw p o ≡ some l → Allocated o l
unfolding alloc_hw
alloc_hw-Allocated p o l h = elim (Bool-cases (incomplete o)) [
  | inl e ↦ absurd (ground (arith, e, h))
  | inr c ↦ elim (Bool-cases (o.sta_state && (o.sta_add || o.sta_remove))) [
    | inl e ↦ absurd (ground (arith, c, e, h))
    | inr e ↦ elim (Option-cases p.wiphy_new_nm) [
      | inl n ↦ absurd (ground (arith, n, c, e, h))
      | inr (m, n) ↦ new_hw-Allocated p o l m c e (ground (arith, c, e, n, h))
    ]
  ]
]

-- With the functions of a driver that has `sta_state` and for which a hardware could be allocated, no supported
-- hardware can be registered, if the three `kzalloc` succeed and the driver leaves its functions and what
-- V-MAC has set up: the kernel stops at a call of a function that is not there.
pub register_hw-alloc_hw :
    (p : Platform) (o : Ops) (l : Local) (r : Registry)
    → alloc_hw p o ≡ some l
    → o.sta_state ≡ true
    → r.local.ops ≡ l.ops
    → Supported p r.local
    → p.kzalloc 0 ≡ true
    → p.kzalloc 1 ≡ true
    → p.kzalloc 2 ≡ true
    → Keeps p
    → register_hw p r ≡ oops null_dereference
register_hw-alloc_hw p o l r h state same v k0 k1 k2 keeps =
    let a = alloc_hw-Allocated p o l h in
    let there = readied-ops p r.local ∙ same ∙ a.ops in
    let none_there : o.sta_add ≡ false = ground (arith, state, a.stations) in
    let on = record r { vhw = true } in
    register_hw-set_up p r (early_error-none p r.local v)
    ∙ set_up-bring_up p on
        (ap many_adhoc (tested-combinations p r.local)
          ∙ many_adhoc-one r.local.wiphy.combinations v.one_adhoc)
        k0
    ∙ ap (λ m. m >>= λ r'. ok (none, r'))
        (bring_up-missing p (scan p r.local).0 (record on { local = readied p r.local }) k1 k2 keeps
          (ap (λ x. x.start) there ∙ a.start) (ap (λ x. x.add_interface) there ∙ a.add_interface)
          (ap (λ x. x.sta_add) there ∙ none_there))
