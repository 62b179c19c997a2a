-- ===== src/Queue/Priority.antt =====
-- What a round of `queuethread` sends, in which order and at which rates.
use v_mac_kernel.Prelude.{
  ℕ, zero, suc, ◌+◌, ◌≡◌, refl, ap, List, [], ◌∷◌, ◌++◌, Bool, if◌then◌else◌, length, take, drop,
  arith,
}
use mathlib.Core.List.{append-nil, append_assoc}
use v_mac_kernel.Skb.{Skb, to}
use v_mac_kernel.Structs.{VmacQueue}
use v_mac_kernel.Kernel.{Kernel, Env, ok}
use v_mac_kernel.LowTx.{on_air, vmac_low_tx-to}
use v_mac_kernel.Queue.{default_rate, rate_of, drain_mgmt, drain_data, queuethread}

-- Every entry holds a frame.
abbrev pub HasFrames : List VmacQueue → Type 0
HasFrames [] = Unit
HasFrames (e ∷ q) = ((skb : Skb) × (e.frame ≡ to skb)) × HasFrames q

-- How many of `n` entries are sent if `get_stats` is asked from its call number `calls` on.
abbrev pub served : (ℕ → Bool) → ℕ → ℕ → ℕ
served slot calls zero = 0
served slot calls (suc n) = if slot calls then suc (served slot (calls + 1) n) else 0

-- The number of the next call of `get_stats` after that.
abbrev pub asked : (ℕ → Bool) → ℕ → ℕ → ℕ
asked slot calls zero = calls
asked slot calls (suc n) = if slot calls then asked slot (calls + 1) n else calls + 1

-- The buffers that go on air for the entries, at the rates that `rate` gives them.
abbrev pub airs : Env → (VmacQueue → ℕ) → List VmacQueue → List Skb
airs env rate [] = []
airs env rate (e ∷ q) = on_air env (rate e) e.frame ++ airs env rate q

module _ (env : Env) where
  drain_mgmt_lem :
      (calls : ℕ) (q : List VmacQueue) (s : Kernel)
      → HasFrames q
      → s.mqueue ≡ q
      → let k = served env.slot calls (length q) in
        drain_mgmt env calls q s
        ≡ ok (
          asked env.slot calls (length q),
          record s {
            aired = s.aired ++ airs env (λ _. default_rate) (take k q);
            mqueue = drop k q;
          },
        )
  unfolding drain_mgmt
  drain_mgmt_lem calls [] s f e = ground (arith, append-nil s.aired)
  drain_mgmt_lem calls (x ∷ q) s f e =
      let skb = f.0.0 in
      let s1 = record s {
        aired = s.aired ++ on_air env default_rate (to skb);
        mqueue = drop 1 s.mqueue;
      } in
      ground (
        arith,
        f.0.1,
        append-nil s.aired,
        vmac_low_tx-to env skb default_rate s,
        drain_mgmt_lem (calls + 1) q s1 f.1 (ap (drop 1) e),
        append_assoc s.aired (on_air env default_rate (to skb))
            (airs env (λ _. default_rate) (take (served env.slot (calls + 1) (length q)) q)),
      )

  drain_data_lem :
      (calls : ℕ) (q : List VmacQueue) (s : Kernel)
      → HasFrames q
      → s.uqueue ≡ q
      → let k = served env.slot calls (length q) in
        drain_data env calls q s
        ≡ ok (record s { aired = s.aired ++ airs env rate_of (take k q); uqueue = drop k q })
  unfolding drain_data
  drain_data_lem calls [] s f e = ground (arith, append-nil s.aired)
  drain_data_lem calls (x ∷ q) s f e =
      let skb = f.0.0 in
      let air = on_air env (rate_of x) (to skb) in
      let s1 = record s { aired = s.aired ++ air; uqueue = drop 1 s.uqueue } in
      ground (
        arith,
        f.0.1,
        append-nil s.aired,
        vmac_low_tx-to env skb (rate_of x) s,
        drain_data_lem (calls + 1) q s1 f.1 (ap (drop 1) e),
        append_assoc s.aired air
            (airs env rate_of (take (served env.slot (calls + 1) (length q)) q)),
      )

  -- If every queued entry holds a frame, then a round of `queuethread` ends without a fault. It sends
  -- the oldest frames of `mqueue`, each at the default rate whatever rate it was queued with, as many
  -- as `get_stats` finds slots for one after the other; then the oldest frames of `uqueue`, at their
  -- own rates, or the default rate for 255, again as many as it finds slots for. The frames sent go
  -- on air in this order, the others keep their places in their queues, and nothing else changes.
  pub queuethread_lem :
      (s : Kernel)
      → HasFrames s.mqueue
      → HasFrames s.uqueue
      → let m = served env.slot 0 (length s.mqueue) in
        let u = served env.slot (asked env.slot 0 (length s.mqueue)) (length s.uqueue) in
        queuethread env s
        ≡ ok (record s {
          aired =
              (s.aired ++ airs env (λ _. default_rate) (take m s.mqueue))
              ++ airs env rate_of (take u s.uqueue);
          mqueue = drop m s.mqueue;
          uqueue = drop u s.uqueue;
        })
  unfolding queuethread
  queuethread_lem s fm fu =
      let m = served env.slot 0 (length s.mqueue) in
      let s1 = record s {
        aired = s.aired ++ airs env (λ _. default_rate) (take m s.mqueue);
        mqueue = drop m s.mqueue;
      } in
      ground (
        arith,
        drain_mgmt_lem 0 s.mqueue s fm refl,
        drain_data_lem (asked env.slot 0 (length s.mqueue)) s.uqueue s1 fu refl,
      )
