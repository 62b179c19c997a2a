-- ===== src/Tx/Contents.antt =====
-- What the copies are copies of: the data frames that `vmac_tx` was given, by their numbers.
use v_mac_kernel.Prelude.{
  ℕ, ◌+◌, ◌%◌, ◌^◌, ◌≤◌, ◌<◌, ◌≡◌, ◌≢◌, refl, sym, ap, ◌∙◌, inl, List, [], ◌∷◌, some, arith, length,
  get_or, get_or-set_ne,
}
use mathlib.Core.Path.{subst}
use native.Mathlib.Decide.{ℕ_discrete}
use v_mac_kernel.Skb.{Skb, null, to}
use v_mac_kernel.Structs.{EncodingTx, window_tx}
use v_mac_kernel.Table.{find}
use v_mac_kernel.Wire.{hdr_data}
use v_mac_kernel.Kernel.{Kernel, Env, Outcome, ok, ◌>>=◌}
use v_mac_kernel.Rx.Serving.{HasCopies}
use v_mac_kernel.Rx.Pending.{Holds}
use v_mac_kernel.Tx.{framed, vmac_tx}
use v_mac_kernel.Tx.Steps.{Ready}
use v_mac_kernel.Tx.Copies.{Sent, vmac_tx-Sent}

-- An entry with copies of its last frames, whose bytes are `content`, none of them paced.
pub record Stored (content : ℕ → List ℕ) (vmact : EncodingTx) : Type 0 where
  pub copies : HasCopies vmact vmact.seq
  pub holds : Holds content vmact.seq vmact
  pub unpaced :
      (i : ℕ) → i < vmact.seq → vmact.seq ≤ i + window_tx → get_or vmact.timer (i % window_tx) 0 ≡ 0

-- One more frame.
Sent-Stored :
    (env : Env) (enc rate : ℕ) (content : ℕ → List ℕ) (vmact : EncodingTx) (skb : Skb)
    (s s' : Kernel) (sent : Sent env enc rate vmact skb s s')
    → vmact.seq + 1 < 2 ^ 16
    → Holds content vmact.seq vmact
    → ((i : ℕ)
        → i < vmact.seq
        → vmact.seq ≤ i + window_tx
        → get_or vmact.timer (i % window_tx) 0 ≡ 0)
    → content vmact.seq ≡ (framed enc vmact.seq skb).bytes
    → Stored content sent.entry
Sent-Stored env enc rate content vmact skb s s' sent short holds unpaced what =
    let next : sent.entry.seq ≡ vmact.seq + 1 = sent.numbered ∙ omega arith in
    let place = vmact.seq % window_tx in
    record {
      copies = sent.copies;
      holds = λ i lo hi. elim (ℕ_discrete i vmact.seq) [
        | yes e ↦ (
          sent.copy,
          ap (λ j. get_or sent.entry.retransmission_buffer (j % window_tx) null) e ∙ sent.kept,
          sent.same ∙ sym what ∙ ap content (sym e),
        )
        | no ne ↦
            let (old, there, bytes) = holds i (omega (arith, next)) (omega (arith, next)) in
            let apart : place ≢ i % window_tx = λ e. ne (omega (arith, e, next)) in
            (
              old,
              rw sent.buffer (
                  get_or-set_ne vmact.retransmission_buffer place (i % window_tx) (to sent.copy)
                    null apart
                  ∙ there),
              bytes,
            )
      ];
      unpaced = λ i lo hi. elim (ℕ_discrete i vmact.seq) [
        | yes e ↦ ap (λ j. get_or sent.entry.timer (j % window_tx) 0) e ∙ sent.unpaced
        | no ne ↦
            let apart : place ≢ i % window_tx = λ e. ne (omega (arith, e, next)) in
            rw sent.timer (
              get_or-set_ne vmact.timer place (i % window_tx) 0 0 apart
              ∙ unpaced i (omega (arith, next)) (omega (arith, next)))
      ];
    }

-- A data frame that user space sends, with the kernel's answers.
pub record Send : Type 0 where
  pub env : Env
  pub rate : ℕ
  pub skb : Skb

abbrev pub send_all : ℕ → List Send → Kernel → Outcome Kernel
send_all enc [] s = ok s
send_all enc (x ∷ xs) s = vmac_tx x.env x.skb enc hdr_data x.rate 0 s >>= send_all enc xs

-- The kernels have one hash function, and grant every buffer.
abbrev pub Granted : (ℕ → ℕ) → List Send → Type 0
Granted hash [] = Unit
Granted hash (x ∷ xs) =
    (x.env.hash ≡ hash)
    × ((n : ℕ) → (room : ℕ × List ℕ) × (x.env.new_skb n ≡ some room))
    × Granted hash xs

-- The frames are those of `content`, with their headers, from number `n` on.
abbrev pub Numbered : (ℕ → List ℕ) → ℕ → ℕ → List Send → Type 0
Numbered content enc n [] = Unit
Numbered content enc n (x ∷ xs) =
    (content n ≡ (framed enc n x.skb).bytes) × Numbered content enc (n + 1) xs

-- One frame by `vmac_tx`, in its own words.
one_sent :
    (hash : ℕ → ℕ) (enc : ℕ) (content : ℕ → List ℕ) (x : Send) (s : Kernel) (vmact : EncodingTx)
    → Ready x.env enc s vmact
    → Holds content vmact.seq vmact
    → ((i : ℕ)
        → i < vmact.seq
        → vmact.seq ≤ i + window_tx
        → get_or vmact.timer (i % window_tx) 0 ≡ 0)
    → vmact.seq + 1 < 2 ^ 16
    → x.env.hash ≡ hash
    → ((n : ℕ) → (room : ℕ × List ℕ) × (x.env.new_skb n ≡ some room))
    → content vmact.seq ≡ (framed enc vmact.seq x.skb).bytes
    → (s' : Kernel) × (entry : EncodingTx) × (vmac_tx x.env x.skb enc hdr_data x.rate 0 s ≡ ok s')
      × (find hash enc s'.tx_enc ≡ some entry)
      × (entry.seq ≡ vmact.seq + 1)
      × Stored content entry
one_sent hash enc content x s vmact ready holds unpaced short same rooms what =
    let (room, free) = rooms s.skbs in
    let (s1, e, sent) = vmac_tx-Sent x.env x.skb enc x.rate 0 s vmact room ready free in
    (
      s1,
      sent.entry,
      e,
      subst (λ h. find h enc s1.tx_enc ≡ some sent.entry) same sent.found,
      sent.numbered ∙ omega (arith, short),
      Sent-Stored x.env enc x.rate content vmact x.skb s s1 sent short holds unpaced what,
    )

-- Data frames of an encoding, sent one after the other, the first of them to a new entry or to one whose buffer
-- holds the last frames, none of them paced: if every buffer is granted and the numbers stay below 2^16, then
-- each `vmac_tx` runs without a fault, the entry counts on by as many, and its buffer holds each of the last
-- WINDOW_TX frames under its number, as it was sent, and none of them is paced.
pub sends-Stored :
    (hash : ℕ → ℕ) (enc : ℕ) (content : ℕ → List ℕ) (x : Send) (xs : List Send) (s : Kernel)
    (vmact : EncodingTx)
    → Ready x.env enc s vmact
    → Holds content vmact.seq vmact
    → ((i : ℕ)
        → i < vmact.seq
        → vmact.seq ≤ i + window_tx
        → get_or vmact.timer (i % window_tx) 0 ≡ 0)
    → vmact.seq + length (x ∷ xs) < 2 ^ 16
    → Granted hash (x ∷ xs)
    → Numbered content enc vmact.seq (x ∷ xs)
    → (s' : Kernel) × (entry : EncodingTx) × (send_all enc (x ∷ xs) s ≡ ok s')
      × (find hash enc s'.tx_enc ≡ some entry)
      × (entry.seq ≡ vmact.seq + length (x ∷ xs))
      × Stored content entry
sends-Stored hash enc content x [] s vmact ready holds unpaced short (same, rooms, later)
      (what, rest) =
    let (s1, entry, e, found, next, stored) =
      one_sent hash enc content x s vmact ready holds unpaced short same rooms what in
    (s1, entry, rw e refl, found, next, stored)
sends-Stored hash enc content x (y ∷ ys) s vmact ready holds unpaced short (same, rooms, later)
      (what, rest) =
    let (s1, entry, e, found, next, stored) =
      one_sent hash enc content x s vmact ready holds unpaced (omega (arith, short)) same rooms
        what in
    let there = subst (λ h. find h enc s1.tx_enc ≡ some entry) (sym later.0) found in
    let (s2, last, e2, found2, next2, stored2) =
      sends-Stored hash enc content y ys s1 entry (inl (there, stored.copies)) stored.holds
        stored.unpaced (omega (arith, short, next)) later
        (subst (λ n. Numbered content enc n (y ∷ ys)) (sym next) rest) in
    (s2, last, rw e e2, found2, omega (arith, next, next2), stored2)
