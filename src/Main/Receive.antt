-- ===== src/Main/Receive.antt =====
-- A message of user space comes to `vmac_tx` as user space laid it out.
use v_mac_kernel.Prelude.{
  ℕ, ◌+◌, ◌-◌, ◌^◌, ◌<◌, ◌≡◌, refl, ◌⊎◌, inl, inr, List, [], ◌∷◌, ◌++◌, true, false, some, none,
  arith, length, take, drop, take-append, Bool-cases,
}
use v_mac_kernel.Words.{u8, to_bytes, of_bytes-to_bytes}
use v_mac_kernel.Skb.{Skb, to, put}
use v_mac_kernel.Wire.{field}
use v_mac_kernel.Kernel.{Kernel, Env, ok, dev_alloc_skb}
use v_mac_kernel.Tx.{vmac_tx}
use v_mac_kernel.Main.{
  UserMessage, rate_in, enc_in, seq_in, is_frame, size_fits, enq_usrqueue, nl_recv,
}

-- What user space puts into a `struct control`.
pub record Request : Type 0 where
  pub type : ℕ
  pub rate : ℕ
  pub enc : ℕ
  pub seq : ℕ

-- The message for a request and a payload: the `struct control`, of which `bwsg`, `rate_idx` and `signal` mean
-- nothing here, the payload, and the memory behind it. The length counts 100 bytes for the headers.
abbrev pub user_message : ℕ → Request → List ℕ → List ℕ → UserMessage
user_message pid q payload rest = record {
  len = 100 + length payload;
  type = q.type;
  pid = pid;
  body =
      to_bytes 1 q.type
      ++ (to_bytes 1 q.rate
          ++ (to_bytes 8 q.enc ++ (to_bytes 2 q.seq ++ (0 ∷ 0 ∷ 0 ∷ payload ++ rest))));
}

-- The fields fit their bytes.
pub record Fits (q : Request) : Type 0 where
  pub rate : q.rate < 2 ^ 8
  pub enc : q.enc < 2 ^ 64
  pub seq : q.seq < 2 ^ 16

module _ (pid : ℕ) (q : Request) (payload rest : List ℕ) (fits : Fits q) where
  abbrev body : List ℕ
  body = (user_message pid q payload rest).body

  rate_in-body : rate_in body ≡ q.rate
  unfolding rate_in field to_bytes
  rate_in-body = of_bytes-to_bytes 1 q.rate fits.rate

  enc_in-body : enc_in body ≡ q.enc
  unfolding enc_in field to_bytes
  enc_in-body = of_bytes-to_bytes 8 q.enc fits.enc

  seq_in-body : seq_in body ≡ q.seq
  unfolding seq_in field to_bytes
  seq_in-body = of_bytes-to_bytes 2 q.seq fits.seq

  payload-body : take (100 + length payload - 100) (drop 15 body) ≡ payload
  unfolding to_bytes
  payload-body =
      let e : 100 + length payload - 100 ≡ length payload = omega arith in
      rw e (take-append payload rest)

-- The buffer for a payload: an empty one of number `id` that the payload was put into.
abbrev pub buffer : ℕ × List ℕ → List ℕ → Skb
buffer (id, memory) payload =
    put payload (record { id = id; bytes = []; beyond = memory; flags = []; priority = 0 })

dev_alloc_skb-granted :
    (env : Env) (s : Kernel) (room : ℕ × List ℕ)
    → env.new_skb s.skbs ≡ some room
    → dev_alloc_skb env s ≡ (
      to (record { id = room.0; bytes = []; beyond = room.1; flags = []; priority = 0 }),
      record s { skbs = s.skbs + 1 },
    )
unfolding dev_alloc_skb
dev_alloc_skb-granted env s room e = rw (e, dev_alloc_skb) refl

-- If a buffer can be allocated, then a message of a frame type reaches `vmac_tx` with the encoding, the
-- type, the rate, the number and the payload that user space laid out in it, whatever stands behind
-- it, if they fit their fields and the payload is under 2^31 bytes; and its sender is the process that
-- messages go to from then on.
pub nl_recv_lem :
    (env : Env) (pid : ℕ) (q : Request) (payload rest : List ℕ) (s : Kernel) (room : ℕ × List ℕ)
    → Fits q
    → is_frame q.type ≡ true
    → length payload < 2 ^ 31
    → env.new_skb s.skbs ≡ some room
    → nl_recv env (user_message pid q payload rest) s
      ≡ vmac_tx env
          (buffer room payload)
          q.enc
          q.type
          q.rate
          q.seq
          (record s { pidt = pid; skbs = s.skbs + 1 })
unfolding nl_recv enq_usrqueue
nl_recv_lem env pid q payload rest s room fits frame short free =
    let t : u8 q.type ≡ q.type = ground arith in
    let l : size_fits (100 + length payload) ≡ true = ground arith in
    let a = dev_alloc_skb-granted env (record s { pidt = pid }) room free in
    rw
      (
        t,
        frame,
        a,
        l,
        t,
        a,
        rate_in-body pid q payload rest fits,
        enc_in-body pid q payload rest fits,
        seq_in-body pid q payload rest fits,
        payload-body pid q payload rest fits,
      )
      refl

-- A message of no frame type, or one that finds no memory, changes nothing but who messages go to.
pub nl_recv_refused :
    (env : Env) (m : UserMessage) (s : Kernel)
    → (is_frame (u8 m.type) ≡ false) ⊎ (env.new_skb s.skbs ≡ none)
    → (s' : Kernel) × (nl_recv env m s ≡ ok s') × (s' ≡ record s { pidt = m.pid; skbs = s'.skbs })
unfolding nl_recv dev_alloc_skb
nl_recv_refused env m s h = elim (Bool-cases (is_frame (u8 m.type))) [
  | inr other ↦ (record s { pidt = m.pid }, rw (other, nl_recv) refl, refl)
  | inl frame ↦ elim h [
    | inl other ↦ absurd (cc)
    | inr full ↦ (
      record s { pidt = m.pid; skbs = s.skbs + 1 },
      rw (frame, full, full, nl_recv, dev_alloc_skb) refl,
      refl,
    )
  ]
]
