-- ===== src/Hooks/Accept.antt =====
-- A hardware that is registered: what it is set to, and the calls of its driver.
use v_mac_kernel.Prelude.{
  ◌≡◌, refl, sym, ◌∙◌, List, [], ◌∷◌, ◌++◌, Option, some, Bool, true, append_assoc, append_nil,
}
use mathlib.Core.Path.{subst}
use v_mac_kernel.Kernel.{Outcome, ok, ◌>>=◌}
use v_mac_kernel.Hooks.{
  Ops, Band, Local, Call, start, add_interface, sta_add, bss_info_changed, conf_tx,
  configure_filter, Platform, Registry,
}
use v_mac_kernel.Hooks.Register.{call, bring_up, fixed_channel, vif, sta, params}

-- What a driver leaves as it is at a call of it: its functions, and what V-MAC has set up.
pub record Kept (l l' : Local) : Type 0 where
  pub ops : l'.ops ≡ l.ops
  pub started : l'.started ≡ l.started
  pub chandef : l'.chandef ≡ l.chandef
  pub queues : l'.queues ≡ l.queues

abbrev pub Keeps : Platform → Type 0
Keeps p = (c : Call) (l : Local) → Kept l (p.driver c l)

-- A driver with every function that the registration calls.
pub record Called (o : Ops) : Type 0 where
  pub start : o.start ≡ true
  pub add_interface : o.add_interface ≡ true
  pub sta_add : o.sta_add ≡ true
  pub bss_info_changed : o.bss_info_changed ≡ true
  pub conf_tx : o.conf_tx ≡ true
  pub configure_filter : o.configure_filter ≡ true

-- The calls of a list, one after the other.
abbrev pub make : Platform → List Call → Registry → Registry
make p [] r = r
make p (c ∷ cs) r = make p cs (record r { local = p.driver c r.local; calls = r.calls ++ c ∷ [] })

Kept-trans : (l1 l2 l3 : Local) → Kept l1 l2 → Kept l2 l3 → Kept l1 l3
Kept-trans l1 l2 l3 a b = record {
  ops = b.ops ∙ a.ops;
  started = b.started ∙ a.started;
  chandef = b.chandef ∙ a.chandef;
  queues = b.queues ∙ a.queues;
}

pub make-Kept :
    (p : Platform) → Keeps p → (cs : List Call) (r : Registry) → Kept r.local (make p cs r).local
make-Kept p k [] r = record { ops = refl; started = refl; chandef = refl; queues = refl }
make-Kept p k (c ∷ cs) r =
    Kept-trans r.local (p.driver c r.local) _ (k c r.local)
      (make-Kept p k cs (record r { local = p.driver c r.local; calls = r.calls ++ c ∷ [] }))

pub make-calls :
    (p : Platform) (cs : List Call) (r : Registry) → (make p cs r).calls ≡ r.calls ++ cs
make-calls p [] r = sym (append_nil r.calls)
make-calls p (c ∷ cs) r =
    make-calls p cs (record r { local = p.driver c r.local; calls = r.calls ++ c ∷ [] })
    ∙ append_assoc r.calls (c ∷ []) cs

pub make-vmon : (p : Platform) (cs : List Call) (r : Registry) → (make p cs r).vmon ≡ r.vmon
make-vmon p [] r = refl
make-vmon p (c ∷ cs) r =
    make-vmon p cs (record r { local = p.driver c r.local; calls = r.calls ++ c ∷ [] })

pub make-vhw : (p : Platform) (cs : List Call) (r : Registry) → (make p cs r).vhw ≡ r.vhw
make-vhw p [] r = refl
make-vhw p (c ∷ cs) r =
    make-vhw p cs (record r { local = p.driver c r.local; calls = r.calls ++ c ∷ [] })

-- One call, and the code behind it.
pub call-there :
    (p : Platform) (there : Bool) (c : Call) (r : Registry) (k : Registry → Outcome Registry)
    → there ≡ true
    → (call p there c r >>= k) ≡ k (make p (c ∷ []) r)
unfolding call
call-there p there c r k h = rw (h, call) refl

call-last :
    (p : Platform) (there : Bool) (c : Call) (r : Registry)
    → there ≡ true
    → call p there c r ≡ ok (make p (c ∷ []) r)
unfolding call
call-last p there c r h = rw (h, call) refl

-- The calls behind the start.
abbrev pub later_calls : List (Option Band) → List Call
later_calls bands =
    add_interface vif
    ∷ sta_add vif (sta bands)
    ∷ bss_info_changed vif
    ∷ conf_tx vif 0 params
    ∷ conf_tx vif 1 params
    ∷ conf_tx vif 2 params
    ∷ configure_filter
    ∷ []

-- On channel 8, not yet started.
abbrev pub tuned : Registry → Registry
tuned r = record r { local = record (r.local) { chandef = fixed_channel } }

-- Started, with its power and interface.
abbrev pub powered : Registry → Registry
powered r = record r { local = record (r.local) { power_level = 20 }; vmon = some vif }

pub bring_up-make :
    (p : Platform) (bands : List (Option Band)) (r : Registry)
    → p.kzalloc 1 ≡ true
    → p.kzalloc 2 ≡ true
    → Keeps p
    → Called r.local.ops
    → bring_up p bands r ≡ ok (make p (later_calls bands) (powered (make p (start ∷ []) (tuned r))))
unfolding bring_up
bring_up-make p bands r k1 k2 keeps o =
    let r1 = tuned r in
    let r2 = make p (start ∷ []) r1 in
    let r3 = powered r2 in
    let r4 = make p (add_interface vif ∷ []) r3 in
    let r5 = make p (sta_add vif (sta bands) ∷ []) r4 in
    let r6 = make p (bss_info_changed vif ∷ []) r5 in
    let r7 = make p (conf_tx vif 0 params ∷ []) r6 in
    let r8 = make p (conf_tx vif 1 params ∷ []) r7 in
    let o3 = still start r1.local o in
    let o4 = still (add_interface vif) r3.local o3 in
    let o5 = still (sta_add vif (sta bands)) r4.local o4 in
    let o6 = still (bss_info_changed vif) r5.local o5 in
    let o7 = still (conf_tx vif 0 params) r6.local o6 in
    let o8 = still (conf_tx vif 1 params) r7.local o7 in
    let o9 = still (conf_tx vif 2 params) r8.local o8 in
    rw (k1, k2, bring_up)
      (call-there p _ start r1 _ o.start
        ∙ call-there p _ (add_interface vif) r3 _ o3.add_interface
        ∙ call-there p _ (sta_add vif (sta bands)) r4 _ o4.sta_add
        ∙ call-there p _ (bss_info_changed vif) r5 _ o5.bss_info_changed
        ∙ call-there p _ (conf_tx vif 0 params) r6 _ o6.conf_tx
        ∙ call-there p _ (conf_tx vif 1 params) r7 _ o7.conf_tx
        ∙ call-there p _ (conf_tx vif 2 params) r8 _ o8.conf_tx
        ∙ call-last p _ configure_filter (make p (conf_tx vif 2 params ∷ []) r8)
            o9.configure_filter)
  where
    still : (c : Call) (l : Local) → Called l.ops → Called (p.driver c l).ops
    still c l = subst Called (sym (keeps c l).ops)
