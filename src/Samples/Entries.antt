-- ===== src/Samples/Entries.antt =====
-- Entries for the tests: a receiver's that has received nothing, and memory for a sender's.
use v_mac_kernel.Prelude.{
  ℕ, ◌%◌, refl, inl, [], ◌∷◌, none, Bool, false, arith, length-replicate, replicate,
  get_or-replicate,
}
use v_mac_kernel.Skb.{null, wild}
use v_mac_kernel.Structs.{EncodingRx, EncodingTx, clean_enc_rx}
use v_mac_kernel.Rx.Sliding.{Represents}

-- An entry that has received nothing.
abbrev pub unheard : EncodingRx
unheard = record {
  key = 7;
  clean = record { enc = 7; type = clean_enc_rx };
  before_window = 0;
  window = replicate 700 0;
  alpha = 0;
  first_frame = 0;
  second_frame = 0;
  lastin = 0;
  latest = 0;
  dac_info = record { send = 0; dack_counter = 0; round = 0; dacksheard = 0; dack = null };
  round = 0;
  offset = 0;
  dacksent = 0;
  dack = null;
  enc_timeout = none;
  dack_timer = none;
}

abbrev pub nothing : ℕ → Bool
nothing s = false

pub unheard-Represents : Represents unheard nothing
unheard-Represents = record {
  size = length-replicate {A = ℕ} 700 0;
  slots = λ s a b. get_or-replicate 700 (s % 700) 0 0 (omega arith);
  timed = inl refl;
}

-- Memory as it comes: wild pointers.
abbrev pub garbage : EncodingTx
garbage = record {
  key = 99;
  clean = record { enc = 98; type = clean_enc_rx };
  retransmission_buffer = replicate 500 wild;
  timer = replicate 500 97;
  seq = 96;
  offset = 95;
  retrxout = 94;
  prevtime = 93;
  prevround = 92;
  enc_timeout = none;
  dackcounter = 91;
  framecount = 90;
  round_inc = 9 ∷ 9 ∷ 9 ∷ [];
  round_dec = 9 ∷ 9 ∷ 9 ∷ [];
}
