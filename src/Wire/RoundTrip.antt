-- ===== src/Wire/RoundTrip.antt =====
-- A header that one node writes is the header that another reads, whatever follows it in the frame.
use v_mac_kernel.Prelude.{◌++◌, ◌^◌, ◌<◌, ◌≡◌, refl, List, ℕ, length}
use v_mac_kernel.Words.{to_bytes, of_bytes-to_bytes}
use v_mac_kernel.Wire.{
  VmacHdr, VmacData, VmacDack, VmacHole, hdr_bytes, read_hdr, data_bytes, read_data, dack_bytes,
  read_dack, hole_bytes, read_hole,
}

pub length-hdr_bytes : (h : VmacHdr) → length (hdr_bytes h) ≡ 9
unfolding hdr_bytes to_bytes
length-hdr_bytes h = refl

pub read_hdr-hdr_bytes :
    (h : VmacHdr) (rest : List ℕ)
    → h.enc < 2 ^ 64
    → h.type < 2 ^ 8
    → read_hdr (hdr_bytes h ++ rest) ≡ h
unfolding read_hdr hdr_bytes to_bytes
read_hdr-hdr_bytes h rest he ht =
    λ i. record { enc = of_bytes-to_bytes 8 h.enc he i; type = of_bytes-to_bytes 1 h.type ht i }

pub read_data-data_bytes :
    (d : VmacData) (rest : List ℕ) → d.seq < 2 ^ 16 → read_data (data_bytes d ++ rest) ≡ d
unfolding read_data data_bytes to_bytes
read_data-data_bytes d rest h = λ i. record { seq = of_bytes-to_bytes 2 d.seq h i }

pub read_dack-dack_bytes :
    (d : VmacDack) (rest : List ℕ)
    → d.holes < 2 ^ 16
    → d.round < 2 ^ 16
    → read_dack (dack_bytes d ++ rest) ≡ d
unfolding read_dack dack_bytes to_bytes
read_dack-dack_bytes d rest hh hr = λ i. record {
  holes = of_bytes-to_bytes 2 d.holes hh i;
  round = of_bytes-to_bytes 2 d.round hr i;
}

pub read_hole-hole_bytes :
    (h : VmacHole) (rest : List ℕ)
    → h.le < 2 ^ 16
    → h.re < 2 ^ 16
    → read_hole (hole_bytes h ++ rest) ≡ h
unfolding read_hole hole_bytes to_bytes
read_hole-hole_bytes h rest hl hr =
    λ i. record { le = of_bytes-to_bytes 2 h.le hl i; re = of_bytes-to_bytes 2 h.re hr i }

-- The same for a buffer, whose memory goes on behind its bytes.
pub read_hdr-memory :
    (h : VmacHdr) (rest beyond : List ℕ)
    → h.enc < 2 ^ 64
    → h.type < 2 ^ 8
    → read_hdr ((hdr_bytes h ++ rest) ++ beyond) ≡ h
unfolding hdr_bytes to_bytes
read_hdr-memory h rest beyond he ht = read_hdr-hdr_bytes h (rest ++ beyond) he ht

pub length-data_bytes : (d : VmacData) → length (data_bytes d) ≡ 2
unfolding data_bytes to_bytes
length-data_bytes d = refl

pub read_data-memory :
    (d : VmacData) (rest beyond : List ℕ)
    → d.seq < 2 ^ 16
    → read_data ((data_bytes d ++ rest) ++ beyond) ≡ d
unfolding data_bytes to_bytes
read_data-memory d rest beyond h = read_data-data_bytes d (rest ++ beyond) h

pub length-dack_bytes : (d : VmacDack) → length (dack_bytes d) ≡ 4
unfolding dack_bytes to_bytes
length-dack_bytes d = refl

pub read_dack-memory :
    (d : VmacDack) (rest beyond : List ℕ)
    → d.holes < 2 ^ 16
    → d.round < 2 ^ 16
    → read_dack ((dack_bytes d ++ rest) ++ beyond) ≡ d
unfolding dack_bytes to_bytes
read_dack-memory d rest beyond hh hr = read_dack-dack_bytes d (rest ++ beyond) hh hr

pub length-hole_bytes : (h : VmacHole) → length (hole_bytes h) ≡ 4
unfolding hole_bytes to_bytes
length-hole_bytes h = refl

pub read_hole-memory :
    (h : VmacHole) (rest beyond : List ℕ)
    → h.le < 2 ^ 16
    → h.re < 2 ^ 16
    → read_hole ((hole_bytes h ++ rest) ++ beyond) ≡ h
unfolding hole_bytes to_bytes
read_hole-memory h rest beyond hl hr = read_hole-hole_bytes h (rest ++ beyond) hl hr
