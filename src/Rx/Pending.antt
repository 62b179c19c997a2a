-- ===== src/Rx/Pending.antt =====
-- What a retransmission for a DACK starts from, frame by frame, and what it leaves in the queue.
use v_mac_kernel.Prelude.{
  ℕ, zero, suc, ◌+◌, ◌%◌, ◌≤◌, ◌<◌, ◌≡◌, ◌≢◌, refl, sym, ap, ◌∙◌, List, [], ◌∷◌, ◌++◌, some, length,
  get_or, All, append_assoc, append_nil,
}
use v_mac_kernel.Skb.{Skb, null, to}
use v_mac_kernel.Structs.{EncodingTx, VmacQueue, window_tx}
use v_mac_kernel.Kernel.{Kernel, Env, Outcome, ok, oops, ◌>>=◌}
use v_mac_kernel.Rx.Retransmit.{maxretx, Resend}

-- The kernel grants every buffer and every queue entry.
pub record Grants (env : Env) : Type 0 where
  pub skb : (n : ℕ) → (room : ℕ × List ℕ) × (env.new_skb n ≡ some room)
  pub entry : (n : ℕ) → (item : VmacQueue) × (env.kmalloc n ≡ some item)

-- Frame `i` has not left the sender's buffer, and is not number WINDOW_TX, whose test reads behind the buffer.
pub record Asked (seq i : ℕ) : Type 0 where
  pub sent : i < seq
  pub late : seq ≤ i + window_tx
  pub not_edge : i ≢ window_tx

-- The buffer holds the frames before `seq`, up to WINDOW_TX of them; frame `i` has the bytes `content i`.
abbrev pub Holds : (ℕ → List ℕ) → ℕ → EncodingTx → Type 0
Holds content seq vmact =
    (i : ℕ)
    → i < seq
    → seq ≤ i + window_tx
    → (skb : Skb) × (get_or vmact.retransmission_buffer (i % window_tx) null ≡ to skb)
      × (skb.bytes ≡ content i)

-- Nothing holds the retransmission of frame `i` back in this round.
abbrev pub Ripe : ℕ → EncodingTx → ℕ → Type 0
Ripe round vmact i = get_or vmact.timer (i % window_tx) 0 ≤ round

-- No number stands twice.
abbrev pub Distinct : List ℕ → Type 0
Distinct [] = Unit
Distinct (i ∷ is) = All (λ j. i ≢ j) is × Distinct is

-- The entries hold copies of the frames `is`, in their order, and are to be sent at rate 255.
abbrev pub Copies : (ℕ → List ℕ) → List ℕ → List VmacQueue → Type 0
Copies content [] [] = Unit
Copies content [] (e ∷ q) = ⊥
Copies content (i ∷ is) [] = ⊥
Copies content (i ∷ is) (e ∷ q) =
    ((skb : Skb) × (e.frame ≡ to skb) × (skb.bytes ≡ content i))
    × (e.rate ≡ 255)
    × Copies content is q

-- The frames of a hole.
abbrev pub range : ℕ → ℕ → List ℕ
range zero le = []
range (suc n) le = le ∷ range n (le + 1)

-- What a retransmission finds, with the frames `todo` to go.
pub record Pending (content : ℕ → List ℕ) (round seq : ℕ) (todo : List ℕ) (st : Resend)
    : Type 0 where
  pub holds : Holds content seq st.vmact
  pub asked : All (Asked seq) todo
  pub ripe : All (Ripe round st.vmact) todo
  pub distinct : Distinct todo
  pub room : st.counter + length todo ≤ maxretx

-- What it leaves for the frames `is`: their copies at the end of `mqueue`, and the other queues as they were.
pub record Requeued (content : ℕ → List ℕ) (is : List ℕ) (s s' : Kernel) : Type 0 where
  pub copies : List VmacQueue
  pub mqueue : s'.mqueue ≡ s.mqueue ++ copies
  pub frames : Copies content is copies
  pub uqueue : s'.uqueue ≡ s.uqueue
  pub aired : s'.aired ≡ s.aired

pub bind-then :
    (m : Outcome Resend) (g : Resend → Resend) (f : Resend → Outcome Resend)
    → (m >>= λ x. f (g x)) ≡ ((m >>= λ x. ok (g x)) >>= f)
bind-then (ok x) g f = refl
bind-then (oops e) g f = refl

Copies-append :
    (content : ℕ → List ℕ) (is js : List ℕ) (p q : List VmacQueue)
    → Copies content is p
    → Copies content js q
    → Copies content (is ++ js) (p ++ q)
Copies-append content [] js [] q a b = b
Copies-append content [] js (e ∷ p) q a b = absurd a
Copies-append content (i ∷ is) js [] q a b = absurd a
Copies-append content (i ∷ is) js (e ∷ p) q a b = (a.0, a.1, Copies-append content is js p q a.2 b)

pub Requeued-none : (content : ℕ → List ℕ) (s : Kernel) → Requeued content [] s s
Requeued-none content s = record {
  copies = [];
  mqueue = sym (append_nil s.mqueue);
  frames = tt;
  uqueue = refl;
  aired = refl;
}

pub Requeued-append :
    (content : ℕ → List ℕ) (is js : List ℕ) (s1 s2 s3 : Kernel)
    → Requeued content is s1 s2
    → Requeued content js s2 s3
    → Requeued content (is ++ js) s1 s3
Requeued-append content is js s1 s2 s3 a b = record {
  copies = a.copies ++ b.copies;
  mqueue = b.mqueue ∙ ap (λ q. q ++ b.copies) a.mqueue ∙ append_assoc s1.mqueue a.copies b.copies;
  frames = Copies-append content is js a.copies b.copies a.frames b.frames;
  uqueue = b.uqueue ∙ a.uqueue;
  aired = b.aired ∙ a.aired;
}
