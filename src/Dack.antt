-- ===== src/Dack.antt =====
-- vmac/dack.c: the requests for DACKs, their making (`prepDACK`), and their sending after a delay.
-- A call that the code makes through a pointer to an entry names the encoding here: the entry is
-- the one that its lookup finds. `prepDACK` tries the lock of the entry's `dac_info`.
pub mod Scan
pub mod Holes
pub mod Complete
pub mod Delay
pub mod Undisturbed
pub mod Requests
pub mod Timer
mod Tests
use v_mac_kernel.Prelude.{
  ℕ, ◌+◌, ◌-◌, ◌*◌, ◌/◌, ◌%◌, ◌^◌, List, [], ◌∷◌, ◌++◌, Option, none, some, Bool, true, false, ◌&&◌,
  ltb, leb, ◌==◌, if◌then◌else◌, length, drop,
}
use v_mac_kernel.Words.{u8, u16}
use v_mac_kernel.Skb.{Skb, Ptr, null, to, wild, put, push}
use v_mac_kernel.Structs.{EncodingRx, DackInfo, VmacQueue}
use v_mac_kernel.Table.{find, update}
use v_mac_kernel.Wire.{VmacHole, VmacHdr, VmacDack, hdr_dack, hdr_bytes, dack_bytes, hole_bytes}
use v_mac_kernel.Kernel.{
  Kernel, Env, null_dereference, wild_pointer, Outcome, ok, oops, ◌>>=◌, dev_alloc_skb, kfree_skb,
}
use v_mac_kernel.Queue.{allocated, add_dack}
use Scan.{find_holes}

-- `request_DACK`
unfoldable pub request_dack : Env → ℕ → ℕ → Kernel → Kernel
request_dack env enc round s = elim (env.kmalloc s.kmallocs) [
  | none ↦ allocated s
  | some item ↦ record (allocated s) {
    dackreqnum = u16 (s.dackreqnum + 1);
    dqueue = s.dqueue ++ record item { enc = enc; seq = round } ∷ [];
  }
]

-- A change to the entry of an encoding.
abbrev pub with_rx : Env → ℕ → (EncodingRx → EncodingRx) → Kernel → Kernel
with_rx env enc f s = record s { rx_enc = update env.hash enc f s.rx_enc }

-- `__sendDACK`, the handler of the entry's `dack_timer`, which is no longer armed when it runs.
unfoldable pub send_dack : Env → ℕ → Kernel → Outcome Kernel
send_dack env enc s = elim (find env.hash enc s.rx_enc) [
  | none ↦ oops wild_pointer
  | some vmacr ↦
      if env.trylock
      then if vmacr.dac_info.send == 1
        then ok (
            add_dack env vmacr.dac_info.dack (
              with_rx env enc
                (λ r. record r {
                  dack_timer = none;
                  dac_info = record (r.dac_info) { send = 0; dack = null };
                })
                s))
        else ok (with_rx env enc (λ r. record r { dack_timer = none }) s)
      else ok (
          with_rx env enc
            (λ r. record r { dack_timer = some (env.jiffies + env.msecs_to_jiffies 100) }) s)
]

-- One walk of `dackdel` over `dackfree`, a thread that nothing starts.
pub dackdel : List VmacQueue → Kernel → Outcome Kernel
dackdel [] s = ok s
dackdel (e ∷ q) s = kfree_skb e.frame s >>= dackdel q

-- The holes in the order of the frame.
unfoldable pub holes_bytes : List VmacHole → List ℕ
holes_bytes [] = []
holes_bytes (h ∷ hs) = hole_bytes h ++ holes_bytes hs

-- What the code puts and pushes into a new buffer.
unfoldable pub dack_frame : ℕ → ℕ → List VmacHole → Skb → Skb
unfolding holes_bytes
dack_frame enc round hs skb =
    push (hdr_bytes (record { enc = enc; type = hdr_dack }))
      (put (holes_bytes hs) (put (dack_bytes (record { holes = length hs; round = round })) skb))

-- `rndm % 2` of a `long`, as a bit pattern: 0, 1 or -1.
unfoldable pub rndm_of : ℕ → ℕ
rndm_of random = if random % 2 == 0 then 0 else if ltb random (2 ^ 63) then 1 else 2 ^ 64 - 1

-- `duration`, a `long` as its bit pattern: twice `alpha` times the frames not lost, with noise.
unfoldable pub duration_of : ℕ → ℕ → ℕ → ℕ
unfolding rndm_of
duration_of alpha loss random =
    let d = 2 * alpha * ((loss + rndm_of random) % 2 ^ 64) % 2 ^ 64 in if d == 0 then 1 else d

-- The reset of a `duration` over 100, a signed test.
unfoldable pub short_duration : ℕ → ℕ
short_duration d = if ltb 100 d && ltb d (2 ^ 63) then 10 else d

-- The entry after a new DACK `skb` was stored for `round`.
unfoldable pub store_dack : ℕ → Ptr → EncodingRx → EncodingRx
store_dack round skb r = record r {
  dac_info = record (r.dac_info) { send = 1; dacksheard = 0; round = u8 round; dack = skb };
  dack = skb;
}

abbrev pub cap_alpha : ℕ → ℕ
cap_alpha alpha = if leb 100 alpha then 100 else alpha

-- `loss` as the delay takes it.
abbrev pub remaining : ℕ → ℕ
remaining loss = if leb loss 5 then 5 - loss else loss

-- `prepDACK` from the test of `alpha` on, with the finished frame `skb`.
unfoldable pub schedule_dack : Env → ℕ → ℕ → EncodingRx → Skb → ℕ → Kernel → Outcome Kernel
unfolding duration_of short_duration store_dack
schedule_dack env enc round vmac skb loss s =
    let alpha = cap_alpha vmac.alpha in
    let duration = duration_of alpha (remaining loss) env.random in
    let s1 = with_rx env enc (λ r. record r { alpha = alpha }) s in
    if env.trylock
    then if vmac.dac_info.send == 1
      then kfree_skb vmac.dac_info.dack (with_rx env enc (store_dack round (to skb)) s1)
      else ok (
          with_rx env enc
            (λ r. record (store_dack round (to skb) r) {
              dack_timer = some ((env.jiffies + short_duration duration) % 2 ^ 64);
            })
            s1)
    else kfree_skb (to skb) s1

-- `prepDACK` from the allocation on, for an entry that was found.
pub finish_dack : Env → ℕ → ℕ → EncodingRx → List VmacHole × ℕ → Kernel → Outcome Kernel
unfolding dack_frame schedule_dack
finish_dack env enc round vmac (hs, loss) s0 =
    let (skb, s) = dev_alloc_skb env s0 in
    elim skb [
      | null ↦ ok s
      | wild ↦ oops wild_pointer
      | to room ↦ schedule_dack env enc round vmac (dack_frame enc round hs room) loss s
    ]

-- `prepDACK` for an encoding that has no entry: the scan or the test of `alpha` reads through `NULL`,
-- unless the scan has no frame to look at and no buffer is left.
pub finish_missing : Env → ℕ → Kernel → Outcome Kernel
finish_missing env lattmp s0 =
    let (skb, s) = dev_alloc_skb env s0 in
    elim skb [
      | null ↦ if lattmp == 0 then ok s else oops null_dereference
      | _ ↦ oops null_dereference
    ]

-- `prepDACK`
pub prep_dack : Env → ℕ → ℕ → Kernel → Outcome Kernel
unfolding finish_dack finish_missing
prep_dack env enc round s =
    let lattmp = u16 (round * 5) in
    elim (find env.hash enc s.rx_enc) [
      | none ↦ finish_missing env lattmp s
      | some vmac ↦
          finish_dack env enc round vmac (find_holes vmac.before_window vmac.window lattmp) s
    ]

-- One walk of `dackgen` over `dqueue`; each request has answers of the kernel of its own.
unfoldable pub dackgen : List (Env × VmacQueue) → Kernel → Outcome Kernel
dackgen [] s = ok s
dackgen ((env, e) ∷ q) s = prep_dack env e.enc e.seq s >>= λ s'.
    dackgen q
      (record s' { dackreqnum = u16 (s'.dackreqnum + 2 ^ 16 - 1); dqueue = drop 1 s'.dqueue })
