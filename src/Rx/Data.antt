-- ===== src/Rx/Data.antt =====
-- Reception of a data frame, from `vmac_rx` to user space.
use v_mac_kernel.Prelude.{
  ℕ, ◌+◌, ◌^◌, ◌<◌, ◌≡◌, ◌≢◌, refl, inl, inr, List, [], ◌∷◌, ◌++◌, Option, none, some, Bool, true,
  false, ltb, if◌then◌else◌, arith, length, Option-cases,
}
use v_mac_kernel.Skb.{Skb, to}
use v_mac_kernel.Structs.{EncodingRx, window_size}
use v_mac_kernel.Table.{find}
use v_mac_kernel.Table.Lookup.{find-update}
use v_mac_kernel.Wire.{VmacHdr, VmacData, hdr_data, hdr_bytes, data_bytes}
use v_mac_kernel.Wire.RoundTrip.{
  read_hdr-memory, read_data-memory, length-hdr_bytes, length-data_bytes,
}
use v_mac_kernel.Kernel.{Kernel, Env, Message, no_pid, ok, kfree_skb}
use v_mac_kernel.Dack.{request_dack, with_rx}
use v_mac_kernel.Rx.{nl_send, vmac_rx, rx_data, request}
use v_mac_kernel.Rx.Sliding.{Represents, receives}
use v_mac_kernel.Rx.Receive.{receive_refines}
use v_mac_kernel.Rx.Dispatch.{holding, message, passed, nl_send-passed, pull-append}

-- A request for a DACK takes no buffer and says nothing to user space.
record Silent (s s' : Kernel) : Type 0 where
  sent : s'.sent ≡ s.sent
  freed : s'.freed ≡ s.freed
  skbs : s'.skbs ≡ s.skbs
  pidt : s'.pidt ≡ s.pidt
  rx_enc : s'.rx_enc ≡ s.rx_enc
  uqueue : s'.uqueue ≡ s.uqueue
  mqueue : s'.mqueue ≡ s.mqueue

request-Silent : (env : Env) (enc : ℕ) (q : Option ℕ) (s : Kernel) → Silent s (request env enc q s)
unfolding request_dack
request-Silent env enc none s = record {
  sent = refl;
  freed = refl;
  skbs = refl;
  pidt = refl;
  rx_enc = refl;
  uqueue = refl;
  mqueue = refl;
}
request-Silent env enc (some round) s = elim (Option-cases (env.kmalloc s.kmallocs)) [
  | inl e ↦
      rw (e, request_dack)
        (record {
          sent = refl;
          freed = refl;
          skbs = refl;
          pidt = refl;
          rx_enc = refl;
          uqueue = refl;
          mqueue = refl;
        })
  | inr (item, e) ↦
      rw (e, request_dack)
        (record {
          sent = refl;
          freed = refl;
          skbs = refl;
          pidt = refl;
          rx_enc = refl;
          uqueue = refl;
          mqueue = refl;
        })
]

-- What user space gets of a frame of number `seq` that is new or not.
abbrev pub gets : Env → Kernel → Bool → ℕ → ℕ → List ℕ → List Message
gets env s true enc seq payload = s.sent ++ message env s enc hdr_data seq payload ∷ []
gets env s false enc seq payload = s.sent

-- Whether the number was not received before.
abbrev pub fresh : ℕ → ℕ → (ℕ → Bool) → Bool
fresh latest seq got = if ltb latest seq then true else if got seq then false else true

-- The state after a data frame of `enc`, which an entry `r` that keeps the set `got` awaited.
pub record Delivered (env : Env) (enc seq : ℕ) (skb : Skb) (payload : List ℕ) (r : EncodingRx)
    (got : ℕ → Bool) (s s' : Kernel) : Type 0 where
  pub sent : s'.sent ≡ gets env s (fresh r.latest seq got) enc seq payload
  pub freed : s'.freed ≡ s.freed ++ skb.id ∷ []
  pub pidt : s'.pidt ≡ s.pidt
  pub uqueue : s'.uqueue ≡ s.uqueue
  pub mqueue : s'.mqueue ≡ s.mqueue
  pub entry : EncodingRx
  pub found : find env.hash enc s'.rx_enc ≡ some entry
  pub dac_info : entry.dac_info ≡ r.dac_info
  pub newest : entry.latest ≡ (if ltb r.latest seq then seq else r.latest)
  pub represents :
      Represents entry (if fresh r.latest seq got then receives r.latest seq got else got)

module _ (env : Env) (skb : Skb) (enc seq : ℕ) (payload fcs : List ℕ) (s : Kernel) (r : EncodingRx)
    (got : ℕ → Bool) (room : ℕ × List ℕ) (four : length fcs ≡ 4) (pid : s.pidt ≢ no_pid)
    (free : env.new_skb s.skbs ≡ some room) (known : find env.hash enc s.rx_enc ≡ some r) where
  find-changed :
      (f : EncodingRx → EncodingRx) → find env.hash enc (with_rx env enc f s).rx_enc ≡ some (f r)
  find-changed f = ground (arith, find-update env.hash enc enc f s.rx_enc, known)

  accepted-passed :
      (r' : EncodingRx) (q : Option ℕ)
      → (s' : Kernel) × (nl_send env
            (holding skb (payload ++ fcs))
            enc
            hdr_data
            seq
            (request env enc q (with_rx env enc (λ _. r') s))
          ≡ ok s')
        × (s'.sent ≡ gets env s true enc seq payload)
        × (s'.freed ≡ s.freed ++ skb.id ∷ [])
        × (s'.pidt ≡ s.pidt)
        × (s'.uqueue ≡ s.uqueue)
        × (s'.mqueue ≡ s.mqueue)
        × (find env.hash enc s'.rx_enc ≡ some r')
  accepted-passed r' q =
      let s1 = with_rx env enc (λ _. r') s in
      let s2 = request env enc q s1 in
      let w = request-Silent env enc q s1 in
      let e =
        nl_send-passed env skb payload fcs enc hdr_data seq s2 room four (rw w.pidt pid)
          (rw w.skbs free) in
      (
        passed env s2 skb (message env s2 enc hdr_data seq payload),
        e,
        rw (w.sent, w.pidt) refl,
        rw w.freed refl,
        w.pidt,
        w.uqueue,
        w.mqueue,
        rw w.rx_enc (find-changed (λ _. r')),
      )

  -- The entry as it is received into, its timeout put off.
  abbrev kept : EncodingRx
  kept = record r { enc_timeout = some (env.jiffies + env.msecs_to_jiffies 30000) }

  abbrev tail : Skb
  tail = holding skb (data_bytes (record { seq = seq }) ++ (payload ++ fcs))

  kept-Represents : Represents r got → Represents kept got
  kept-Represents v = record { size = v.size; slots = v.slots; timed = v.timed }

  rx_data-Delivered :
      Represents r got
      → seq < 2 ^ 16
      → r.latest < seq + window_size
      → (s' : Kernel) × (rx_data env enc tail s ≡ ok s')
        × Delivered env enc seq skb payload r got s s'
  unfolding rx_data kfree_skb
  rx_data-Delivered v hs fits =
      let d : VmacData = record { seq = seq } in
      let q = read_data-memory d (payload ++ fcs) skb.beyond hs in
      let p = pull-append skb (data_bytes d) (payload ++ fcs) 2 (length-data_bytes d) in
      elim (receive_refines env.jiffies seq kept got (kept-Represents v) hs fits) [
        | inl (dup, old, e) ↦
            let stale : fresh r.latest seq got ≡ false = ground arith in
            (
              record (with_rx env enc
                  (λ r. record r { enc_timeout = some (env.jiffies + env.msecs_to_jiffies 30000) })
                  s) { freed = s.freed ++ skb.id ∷ [] },
              rw (known, q, e, rx_data) refl,
              record {
                sent = rw stale refl;
                freed = refl;
                pidt = refl;
                uqueue = refl;
                mqueue = refl;
                dac_info = refl;
                entry = kept;
                found = find-changed (λ r. record r {
                  enc_timeout = some (env.jiffies + env.msecs_to_jiffies 30000);
                });
                newest = ground arith;
                represents = rw stale (kept-Represents v);
              },
            )
        | inr (new, a) ↦
            let now : fresh r.latest seq got ≡ true = ground arith in
            let (s', e, sent, freed, pidt, uqueue, mqueue, found) =
              accepted-passed a.entry a.request in
            (
              s',
              rw (known, q, a.result, p, q, rx_data) e,
              record {
                sent = rw now sent;
                freed = freed;
                pidt = pidt;
                uqueue = uqueue;
                mqueue = mqueue;
                dac_info = a.dac_info;
                entry = a.entry;
                found = found;
                newest = a.newest;
                represents = rw now a.represents;
              },
            )
      ]

  -- If user space has registered and its message can be allocated, then a data frame for an encoding
  -- whose entry keeps the set of received numbers, and that is at most WINDOW - 1 numbers behind the
  -- newest, runs through `vmac_rx` without a fault: its payload goes to user space with its number
  -- exactly if the number is new, the buffer is freed, and the entry that a lookup then finds keeps
  -- the set with this number.
  pub vmac_rx-Delivered :
      Represents r got
      → enc < 2 ^ 64
      → seq < 2 ^ 16
      → r.latest < seq + window_size
      → (s' : Kernel) × (vmac_rx env
            (to (
              holding skb (
                hdr_bytes (record { enc = enc; type = hdr_data })
                ++ (data_bytes (record { seq = seq }) ++ (payload ++ fcs)))))
            s
          ≡ ok s')
        × Delivered env enc seq skb payload r got s s'
  unfolding vmac_rx
  vmac_rx-Delivered v he hs fits =
      let h : VmacHdr = record { enc = enc; type = hdr_data } in
      let rest = data_bytes (record { seq = seq }) ++ (payload ++ fcs) in
      let q = read_hdr-memory h rest skb.beyond he (omega arith) in
      let p = pull-append skb (hdr_bytes h) rest 9 (length-hdr_bytes h) in
      rw (q, p) (rx_data-Delivered v hs fits)
