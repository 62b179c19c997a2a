-- ===== src/Wire.antt =====
-- The packed headers of vmac/vmac.h as bytes. A struct is a record; `*_bytes` is what a `memcpy` of it
-- writes into a frame, and `read_*` what the code finds behind a pointer cast to the struct.
pub mod RoundTrip
use v_mac_kernel.Prelude.{ℕ, ◌+◌, List, [], ◌++◌, take, drop}
use v_mac_kernel.Words.{to_bytes, of_bytes}

-- The frame types, VMAC_HDR_* and V_MAC_OVERHEAR.
abbrev pub hdr_interest : ℕ
hdr_interest = 0

abbrev pub hdr_data : ℕ
hdr_data = 1

abbrev pub hdr_dack : ℕ
hdr_dack = 2

abbrev pub hdr_announcement : ℕ
hdr_announcement = 3

abbrev pub hdr_injected : ℕ
hdr_injected = 5

abbrev pub overhear : ℕ
overhear = 6

-- `struct vmac_hdr`
pub record VmacHdr : Type 0 where
  pub enc : ℕ
  pub type : ℕ

-- `struct vmac_data`
pub record VmacData : Type 0 where
  pub seq : ℕ

-- `struct vmac_DACK`
pub record VmacDack : Type 0 where
  pub holes : ℕ
  pub round : ℕ

-- `struct vmac_hole`
pub record VmacHole : Type 0 where
  pub le : ℕ
  pub re : ℕ

-- `sizeof` of each; they are packed.
abbrev pub hdr_size : ℕ
hdr_size = 9

abbrev pub data_size : ℕ
data_size = 2

abbrev pub dack_size : ℕ
dack_size = 4

abbrev pub hole_size : ℕ
hole_size = 4

-- The integer of `n` bytes that stands `off` bytes into the memory `m`.
unfoldable pub field : ℕ → ℕ → List ℕ → ℕ
field off n m = of_bytes (take n (drop off m))

pub hdr_bytes : VmacHdr → List ℕ
hdr_bytes h = to_bytes 8 h.enc ++ to_bytes 1 h.type

pub read_hdr : List ℕ → VmacHdr
unfolding field
read_hdr m = record { enc = field 0 8 m; type = field 8 1 m }

pub data_bytes : VmacData → List ℕ
data_bytes d = to_bytes 2 d.seq

pub read_data : List ℕ → VmacData
unfolding field
read_data m = record { seq = field 0 2 m }

pub dack_bytes : VmacDack → List ℕ
dack_bytes d = to_bytes 2 d.holes ++ to_bytes 2 d.round

pub read_dack : List ℕ → VmacDack
unfolding field
read_dack m = record { holes = field 0 2 m; round = field 2 2 m }

pub hole_bytes : VmacHole → List ℕ
hole_bytes h = to_bytes 2 h.le ++ to_bytes 2 h.re

pub read_hole : List ℕ → VmacHole
unfolding field
read_hole m = record { le = field 0 2 m; re = field 2 2 m }
