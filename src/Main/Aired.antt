-- ===== src/Main/Aired.antt =====
-- Copies that wait in `mqueue` go on air.
use v_mac_kernel.Prelude.{
  ℕ, zero, suc, ◌+◌, ◌≡◌, refl, ap, inl, inr, List, [], ◌∷◌, ◌++◌, Bool, true, length, take, drop,
  In, In-append_left, In-append_right, take-length,
}
use v_mac_kernel.Skb.{Skb}
use v_mac_kernel.Structs.{VmacQueue}
use v_mac_kernel.Kernel.{Kernel, Env, ok}
use v_mac_kernel.LowTx.{spoofed_hdr, on_air}
use v_mac_kernel.Queue.{default_rate, rate_of, queuethread}
use v_mac_kernel.Queue.Priority.{HasFrames, served, asked, airs, queuethread_lem}
use v_mac_kernel.Dack.Scan.{slot}
use v_mac_kernel.Rx.Pending.{Copies}
use v_mac_kernel.Rx.Recovered.{HasCopy}

pub Copies-HasFrames :
    (content : ℕ → List ℕ) (is : List ℕ) (q : List VmacQueue) → Copies content is q → HasFrames q
Copies-HasFrames content [] [] c = tt
Copies-HasFrames content [] (e ∷ q) c = absurd c
Copies-HasFrames content (i ∷ is) [] c = absurd c
Copies-HasFrames content (i ∷ is) (e ∷ q) c = ((c.0.0, c.0.1), Copies-HasFrames content is q c.2)

pub served-all :
    (slot : ℕ → Bool) (calls n : ℕ) → ((i : ℕ) → slot i ≡ true) → served slot calls n ≡ n
served-all slot calls zero h = refl
served-all slot calls (suc n) h = rw (h calls) (ap suc (served-all slot (calls + 1) n h))

-- A copy in the queue goes on air.
pub HasCopy-airs :
    (env : Env) (content : ℕ → List ℕ) (f : ℕ) (q : List VmacQueue)
    → HasCopy content f q
    → (x : Skb) × In x (airs env (λ _. default_rate) q)
      × (x.bytes ≡ spoofed_hdr default_rate env.stack ++ content f)
HasCopy-airs env content f [] h = absurd h
HasCopy-airs env content f (e ∷ q) (inl (skb, there, bytes)) = (
  record skb {
    bytes = spoofed_hdr default_rate env.stack ++ skb.bytes;
    flags = [];
    priority = 261;
  },
  rw there (inl refl),
  ap (λ b. spoofed_hdr default_rate env.stack ++ b) bytes,
)
HasCopy-airs env content f (e ∷ q) (inr h) =
    let (x, there, bytes) = HasCopy-airs env content f q h in
    (x, In-append_right x (on_air env default_rate e.frame) _ there, bytes)

-- A round with slots sends every frame of `mqueue`.
pub mqueue_aired :
    (env : Env) (content : ℕ → List ℕ) (f : ℕ) (s : Kernel)
    → ((i : ℕ) → env.slot i ≡ true)
    → HasFrames s.mqueue
    → HasFrames s.uqueue
    → HasCopy content f s.mqueue
    → (s' : Kernel) × (x : Skb) × (queuethread env s ≡ ok s')
      × (s'.rx_enc ≡ s.rx_enc)
      × (s'.pidt ≡ s.pidt)
      × In x s'.aired
      × (x.bytes ≡ spoofed_hdr default_rate env.stack ++ content f)
mqueue_aired env content f s slots m u h =
    let (x, there, bytes) = HasCopy-airs env content f s.mqueue h in
    let k = served env.slot 0 (length s.mqueue) in
    let n = served env.slot (asked env.slot 0 (length s.mqueue)) (length s.uqueue) in
    let mgmt = airs env (λ _. default_rate) (take k s.mqueue) in
    let data_frames = airs env rate_of (take n s.uqueue) in
    let all : take k s.mqueue ≡ s.mqueue =
      rw (served-all env.slot 0 (length s.mqueue) slots) (take-length s.mqueue) in
    (
      record s {
        aired = (s.aired ++ mgmt) ++ data_frames;
        mqueue = drop k s.mqueue;
        uqueue = drop n s.uqueue;
      },
      x,
      queuethread_lem env s m u,
      refl,
      refl,
      In-append_left x (s.aired ++ mgmt) data_frames
          (In-append_right x s.aired mgmt (rw all there)),
      bytes,
    )
