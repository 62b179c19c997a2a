-- ===== src/Clean/Leaves.antt =====
-- What the cleanup of a sender's entry leaves behind.
use v_mac_kernel.Prelude.{
  append_assoc, append_nil, ℕ, zero, suc, ◌+◌, ◌≤◌, ◌<◌, ◌≡◌, refl, ap, ◌∙◌, List, [], ◌∷◌, ◌++◌,
  none, some, arith, get_or,
}
use v_mac_kernel.Skb.{Skb, Ptr, null, to}
use v_mac_kernel.Structs.{clean_enc_tx, EncodingTx}
use v_mac_kernel.Table.{find, update, remove}
use v_mac_kernel.Table.Lookup.{IsSparse, find-update, find-remove, update-IsSparse, remove-IsSparse}
use v_mac_kernel.Kernel.{Kernel, Env, ok, kfree_skb}
use v_mac_kernel.Rx.Serving.{HasCopies}
use v_mac_kernel.Dack.Delay.{number}
use v_mac_kernel.Clean.{free_copies, held, process, cleanup_tx}

-- The numbers of the buffers at `n` places from `i` on.
abbrev pub numbers : ℕ → ℕ → List Ptr → List ℕ
numbers zero i buffer = []
numbers (suc n) i buffer = number (get_or buffer i null) ++ numbers n (i + 1) buffer

free_copies_lem :
    (n i : ℕ) (buffer : List Ptr) (s : Kernel)
    → ((j : ℕ) → i ≤ j → j < i + n → (skb : Skb) × (get_or buffer j null ≡ to skb))
    → free_copies n i buffer s ≡ ok (record s { freed = s.freed ++ numbers n i buffer })
unfolding free_copies kfree_skb
free_copies_lem zero i buffer s h = rw (append_nil s.freed) refl
free_copies_lem (suc n) i buffer s h =
    let (skb, e) = h i (omega arith) (omega arith) in
    let s1 : Kernel = record s { freed = s.freed ++ skb.id ∷ [] } in
    let a = append_assoc s.freed (skb.id ∷ []) (numbers n (i + 1) buffer) in
    rw e (
      free_copies_lem n (i + 1) buffer s1 (λ j lo hi. h j (omega arith) (omega arith))
      ∙ ap ok (λ k. record s { freed = a k }))

-- What is left of a state from which the entry `vmact` was cleaned.
abbrev pub Cleaned : Env → ℕ → EncodingTx → Kernel → Kernel → Type 0
Cleaned env enc vmact s s' =
    (s'.freed ≡ s.freed ++ numbers (held vmact.seq) 0 vmact.retransmission_buffer)
    × (find env.hash enc s'.tx_enc ≡ none)
    × IsSparse s'.tx_enc

process-Cleaned :
    (env : Env) (enc : ℕ) (vmact : EncodingTx) (s : Kernel)
    → find env.hash enc s.tx_enc ≡ some vmact
    → HasCopies vmact vmact.seq
    → IsSparse s.tx_enc
    → (s' : Kernel) × (process env (record { enc = enc; type = clean_enc_tx }) s ≡ ok s')
      × Cleaned env enc vmact s s'
unfolding process
process-Cleaned env enc vmact s known v sparse =
    let n = held vmact.seq in
    let f =
      free_copies_lem n 0 vmact.retransmission_buffer s
        (λ j lo hi. v.copies j (ground arith) (ground arith)) in
    (
      record s {
        freed = s.freed ++ numbers n 0 vmact.retransmission_buffer;
        tx_enc = remove env.hash enc s.tx_enc;
      },
      rw (known, f, process) refl,
      (
        refl,
        ground (arith, find-remove env.hash enc enc s.tx_enc sparse),
        remove-IsSparse env.hash enc s.tx_enc sparse,
      ),
    )

-- When the timeout of a sender's entry passes, and the entry, which carries the encoding in its cleanup
-- field, holds the copies of its last frames in a table whose chains hold at most one entry: the
-- handler runs without a fault, frees each of these copies, WINDOW_TX at most, and nothing else; a
-- lookup no longer finds the encoding, and chains still hold at most one entry.
pub cleanup_tx_lem :
    (env : Env) (enc : ℕ) (vmact : EncodingTx) (s : Kernel)
    → find env.hash enc s.tx_enc ≡ some vmact
    → vmact.clean.enc ≡ enc
    → HasCopies vmact vmact.seq
    → IsSparse s.tx_enc
    → (s' : Kernel) × (cleanup_tx env enc s ≡ ok s') × Cleaned env enc vmact s s'
unfolding cleanup_tx
cleanup_tx_lem env enc vmact s known key v sparse =
    let off = λ (r : EncodingTx). record r {
      clean = record { enc = enc; type = clean_enc_tx };
      enc_timeout = none;
    } in
    let s1 : Kernel = record s { tx_enc = update env.hash enc off s.tx_enc } in
    let there : find env.hash enc s1.tx_enc ≡ some (off vmact) =
      ground (arith, find-update env.hash enc enc off s.tx_enc, known) in
    let v1 : HasCopies (off vmact) vmact.seq = record {
      buffer_size = v.buffer_size;
      timer_size = v.timer_size;
      copies = v.copies;
    } in
    let (s', e, c) =
      process-Cleaned env enc (off vmact) s1 there v1
        (update-IsSparse env.hash enc off s.tx_enc sparse) in
    (s', rw (known, key, cleanup_tx) e, c)
