-- ===== src/Samples.antt =====
-- Concrete values for the tests: a kernel that grants every request, and an idle module.
pub mod Drivers
pub mod Entries
use v_mac_kernel.Prelude.{ℕ, [], ◌∷◌, none, some, true, false, ltb}
use v_mac_kernel.Skb.{Skb, wild}
use v_mac_kernel.Structs.{VmacQueue}
use v_mac_kernel.Kernel.{Kernel, Env, no_pid}

abbrev pub frame : ℕ → Skb
frame n = record { id = n; bytes = n ∷ []; beyond = []; flags = []; priority = 0 }

abbrev pub entry : VmacQueue
entry = record { frame = wild; enc = 0; seq = 0; type = 0; rate = 0 }

-- Three slots are free, and every allocation succeeds.
abbrev pub env : Env
env = record {
  hash = λ k. 0;
  jiffies = 1000;
  msecs_to_jiffies = λ m. m;
  kmalloc = λ n. some entry;
  new_skb = λ n. some (n, []);
  vmalloc_rx = none;
  vmalloc_tx = none;
  trylock = true;
  random = 0;
  slot = λ n. ltb n 3;
  stack = 0 ∷ 0 ∷ 0 ∷ 0 ∷ 0 ∷ 0 ∷ 0 ∷ 0 ∷ [];
  status = record { bw40 = false; short_gi = true; ht = true; rate_idx = 3; signal = 40 };
}

abbrev pub start : Kernel
start = record {
  rx_enc = record { chain = λ b. [] };
  tx_enc = record { chain = λ b. [] };
  uqueue = [];
  mqueue = [];
  rx_upper = [];
  dqueue = [];
  dackreqnum = 0;
  pidt = no_pid;
  aired = [];
  sent = [];
  freed = [];
  kmallocs = 0;
  skbs = 0;
}
