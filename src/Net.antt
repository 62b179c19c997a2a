-- ===== src/Net.antt =====
-- Two nodes that run the module, with the air between them: what a sender of one encoding and a receiver of it
-- do, as moves in any order. A frame on air can be heard late, many times, out of order or never, and DACKs come from anywhere.
pub mod Sender
pub mod Receiver
pub mod Hears
pub mod Asks
pub mod Sound
pub mod Integrity
mod Tests
use v_mac_kernel.Prelude.{
  ℕ, ◌+◌, ◌^◌, ◌<◌, ◌≡◌, ◌≢◌, List, [], ◌∷◌, ◌++◌, Option, none, some, Bool, length, All, In,
}
use v_mac_kernel.Skb.{Skb, memory, pull}
use v_mac_kernel.Structs.{EncodingRx, EncodingTx, window_size, window_tx}
use v_mac_kernel.Table.{find}
use v_mac_kernel.Wire.{VmacHdr, hdr_data, hdr_dack, hdr_size, read_data, hdr_bytes, data_bytes}
use v_mac_kernel.Kernel.{Kernel, Env, no_pid, Outcome, ok, ◌>>=◌}
use v_mac_kernel.LowTx.{hdr80211_size}
use v_mac_kernel.Queue.{queuethread, rqueuethread}
use v_mac_kernel.Dack.{prep_dack, send_dack}
use v_mac_kernel.Tx.{vmac_tx}
use v_mac_kernel.Rx.{vmac_rx, ieee80211_rx_vmac}
use v_mac_kernel.Rx.Sliding.{Represents}
use v_mac_kernel.Rx.Dispatch.{holding, arriving}
use v_mac_kernel.Rx.Sending.{IsClearDack}

-- The nodes, and what the sender's user space gave to send, with the numbers that it got; the newest last.
pub record Net : Type 0 where
  pub sender : Kernel
  pub receiver : Kernel
  pub log : List (ℕ × List ℕ)

pub data Move : Type 0 where
  -- `vmac_tx` takes a data frame.
  send : Env → Skb → (rate : ℕ) → Move
  -- The sender's `queuethread` makes a round.
  round : Env → Move
  -- The sender's driver gets a DACK of any content, with the header of 802.11 in front and a checksum behind.
  report : Env → Skb → (rate : ℕ) → (stack content fcs : List ℕ) → Move
  -- The sender's `rqueuethread` makes a round.
  answer : Env → Move
  -- The receiver's `dackgen` makes a DACK, of any round.
  ask : Env → (round : ℕ) → Move
  -- The timer of the receiver's DACK fires.
  timer : Env → Move
  -- The receiver's `queuethread` makes a round.
  reply : Env → Move
  -- The receiver's driver gets the frame `x` of the air, with a checksum behind.
  hear : Env → Skb → (x : Skb) → (fcs : List ℕ) → Move

-- The number that the next data frame gets.
abbrev pub next_number : (ℕ → ℕ) → ℕ → Kernel → ℕ
next_number hash enc s = elim (find hash enc s.tx_enc) [ none ↦ 0 | some vmact ↦ vmact.seq ]

-- The newest number received.
abbrev pub latest_of : (ℕ → ℕ) → ℕ → Kernel → ℕ
latest_of hash enc s = elim (find hash enc s.rx_enc) [ none ↦ 0 | some r ↦ r.latest ]

-- The number in a data frame on air.
abbrev pub heard_number : Skb → ℕ
heard_number x = (read_data (memory (pull hdr_size (pull hdr80211_size x)))).seq

abbrev pub dack_hdr : ℕ → VmacHdr
dack_hdr enc = record { enc = enc; type = hdr_dack }

unfoldable pub move : ℕ → Move → Net → Outcome Net
move enc (send env skb rate) n = vmac_tx env skb enc hdr_data rate 0 n.sender >>= λ s.
    ok (record n { sender = s; log = n.log ++ (next_number env.hash enc n.sender, skb.bytes) ∷ [] })
move enc (round env) n = queuethread env n.sender >>= λ s. ok (record n { sender = s })
move enc (report env skb rate stack content fcs) n =
    ieee80211_rx_vmac env (arriving skb rate stack (dack_hdr enc) content fcs) n.sender >>= λ s.
    ok (record n { sender = s })
move enc (answer env) n =
    rqueuethread (vmac_rx env) n.sender.rx_upper n.sender >>= λ s. ok (record n { sender = s })
move enc (ask env k) n = prep_dack env enc k n.receiver >>= λ s. ok (record n { receiver = s })
move enc (timer env) n = send_dack env enc n.receiver >>= λ s. ok (record n { receiver = s })
move enc (reply env) n = queuethread env n.receiver >>= λ s. ok (record n { receiver = s })
move enc (hear env skb x fcs) n =
    ieee80211_rx_vmac env (holding skb (x.bytes ++ fcs)) n.receiver >>= λ s.
    ok (record n { receiver = s })

-- What the moves ask for: one hash function; eight bytes of stack behind a header that is put on air; memory for the copy of a frame that is sent, and for the message of one that is
-- heard; of a frame that is heard, that it is on air and fewer than WINDOW numbers behind the newest; and of the
-- DACKs that the sender serves, that their holes leave out number WINDOW_TX, unless at most WINDOW_TX or more than
-- twice as many frames were sent: with that number, the driver can queue one buffer twice.
abbrev pub Allowed : (ℕ → ℕ) → ℕ → Move → Net → Type 0
Allowed hash enc (send env skb rate) n =
    (env.hash ≡ hash) × ((room : ℕ × List ℕ) × (env.new_skb n.sender.skbs ≡ some room))
Allowed hash enc (round env) n = length env.stack ≡ 8
Allowed hash enc (report env skb rate stack content fcs) n = length stack ≡ 8
Allowed hash enc (answer env) n =
    (env.hash ≡ hash)
    × All (λ e. IsClearDack (next_number hash enc n.sender) e.frame) n.sender.rx_upper
Allowed hash enc (ask env k) n = env.hash ≡ hash
Allowed hash enc (timer env) n = env.hash ≡ hash
Allowed hash enc (reply env) n = Unit
Allowed hash enc (hear env skb x fcs) n =
    (env.hash ≡ hash)
    × ((room : ℕ × List ℕ) × (env.new_skb n.receiver.skbs ≡ some room))
    × In x n.sender.aired
    × (length fcs ≡ 4)
    × (latest_of hash enc n.receiver < heard_number x + window_size)

-- The beginning: the sender has a new entry for the encoding and no frame anywhere, the receiver an entry that
-- keeps the set `got`, no DACK to send and no frames, and a registered user space that got nothing yet.
pub record Started (hash : ℕ → ℕ) (enc : ℕ) (n : Net) : Type 0 where
  pub vmact : EncodingTx
  pub sends : find hash enc n.sender.tx_enc ≡ some vmact
  pub new : vmact.seq ≡ 0
  pub buffer_size : length vmact.retransmission_buffer ≡ window_tx
  pub timer_size : length vmact.timer ≡ window_tx
  pub uqueue : n.sender.uqueue ≡ []
  pub mqueue : n.sender.mqueue ≡ []
  pub rx_upper : n.sender.rx_upper ≡ []
  pub aired : n.sender.aired ≡ []
  pub vmacr : EncodingRx
  pub awaits : find hash enc n.receiver.rx_enc ≡ some vmacr
  pub got : ℕ → Bool
  pub represents : Represents vmacr got
  pub idle : vmacr.dac_info.send ≡ 0
  pub no_data : n.receiver.uqueue ≡ []
  pub no_mgmt : n.receiver.mqueue ≡ []
  pub registered : n.receiver.pidt ≢ no_pid
  pub sent : n.receiver.sent ≡ []
  pub log : n.log ≡ []

-- The states that allowed moves lead to.
pub data Reach (hash : ℕ → ℕ) (enc : ℕ) (n0 : Net) : Net → Type 0 where
  here : Reach hash enc n0 n0
  next :
      {n n' : Net}
      → (m : Move) → Reach hash enc n0 n
      → Allowed hash enc m n
      → move enc m n ≡ ok n'
      → Reach hash enc n0 n'
