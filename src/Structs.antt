-- ===== src/Structs.antt =====
-- The structs of vmac/vmac.h that hold the state of an encoding and the entries of the queues.
-- Locks and list links have no field: an operation runs alone, and where the code only tries a lock,
-- the outcome is an argument. A timer is the jiffies at which it fires, or `none` while not armed.
-- `dac_info.dacklok` and `dac_info.dack_timer` point to the lock and the timer of the same entry.
use v_mac_kernel.Prelude.{ℕ, List, Option}
use v_mac_kernel.Skb.{Ptr}

-- `WINDOW`, `WINDOW_TX`, `HOLES_MAX`
abbrev pub window_size : ℕ
window_size = 700

abbrev pub window_tx : ℕ
window_tx = 500

abbrev pub holes_max : ℕ
holes_max = 40

-- `enum clean_type`
pub data CleanType : Type 0 where
  clean_enc_tx clean_enc_rx : CleanType

-- `struct enc_cleanup`
pub record EncCleanup : Type 0 where
  pub enc : ℕ
  pub type : CleanType

-- `struct dack_info`
pub record DackInfo : Type 0 where
  pub send : ℕ
  pub dack_counter : ℕ
  pub round : ℕ
  pub dacksheard : ℕ
  pub dack : Ptr

-- `struct encoding_tx`
pub record EncodingTx : Type 0 where
  pub key : ℕ
  pub clean : EncCleanup
  pub retransmission_buffer : List Ptr
  pub timer : List ℕ
  pub seq : ℕ
  pub offset : ℕ
  pub retrxout : ℕ
  pub prevtime : ℕ
  pub prevround : ℕ
  pub enc_timeout : Option ℕ
  pub dackcounter : ℕ
  pub framecount : ℕ
  pub round_inc : List ℕ
  pub round_dec : List ℕ

-- `struct encoding_rx`; `before_window` is the `u16` of padding that stands before `window[0]`.
pub record EncodingRx : Type 0 where
  pub key : ℕ
  pub clean : EncCleanup
  pub before_window : ℕ
  pub window : List ℕ
  pub alpha : ℕ
  pub first_frame : ℕ
  pub second_frame : ℕ
  pub lastin : ℕ
  pub latest : ℕ
  pub dac_info : DackInfo
  pub round : ℕ
  pub offset : ℕ
  pub dacksent : ℕ
  pub dack : Ptr
  pub enc_timeout : Option ℕ
  pub dack_timer : Option ℕ

-- `struct vmac_queue`, without its links and the pointer `decis`, which nothing uses.
pub record VmacQueue : Type 0 where
  pub frame : Ptr
  pub enc : ℕ
  pub seq : ℕ
  pub type : ℕ
  pub rate : ℕ
