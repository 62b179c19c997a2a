-- ===== src/Net/Receiver.antt =====
-- What the receiver keeps: the set of the numbers received, and what its user space got.
use v_mac_kernel.Prelude.{
  ℕ, ◌^◌, ◌≤◌, ◌<◌, ◌≡◌, ◌≢◌, List, [], ◌∷◌, some, Bool, true, All, All-map, In, ◌⊎◌,
}
use v_mac_kernel.Structs.{EncodingRx}
use v_mac_kernel.Table.{find}
use v_mac_kernel.Wire.{hdr_data}
use v_mac_kernel.Kernel.{Kernel, Message, no_pid}
use v_mac_kernel.Queue.Priority.{HasFrames}
use v_mac_kernel.Dack.Undisturbed.{Armed}
use v_mac_kernel.Dack.Timer.{IsBuffer}
use v_mac_kernel.Rx.Sliding.{Represents}
use v_mac_kernel.Rx.Heard.{data_frame}
use v_mac_kernel.Rx.Pending.{Distinct}

-- The bytes of a frame that was given to the sender, under the number that it got, with its headers.
pub record Logged (enc : ℕ) (log : List (ℕ × List ℕ)) (b : List ℕ) : Type 0 where
  pub number : ℕ
  pub payload : List ℕ
  pub there : In (number, payload) log
  pub small : number < 2 ^ 16
  pub bytes : b ≡ data_frame enc number payload

-- A message with a frame that was given to the sender, under the number that it got.
pub record Genuine (enc : ℕ) (log : List (ℕ × List ℕ)) (m : Message) : Type 0 where
  pub there : In (m.control.seq, m.payload) log
  pub encoding : m.control.enc ≡ enc
  pub type : m.control.type ≡ hdr_data

-- The numbers of the messages.
abbrev pub numbers : List Message → List ℕ
numbers [] = []
numbers (m ∷ ms) = m.control.seq ∷ numbers ms

-- User space got the number, or it was one of `got0`.
abbrev pub HasPassed : (ℕ → Bool) → ℕ → Kernel → Type 0
HasPassed got0 j s = In j (numbers s.sent) ⊎ (got0 j ≡ true)

-- The receiver's entry keeps the set `got`; user space got frames of the sender, each number once, and just those of
-- `got` but for the ones of `got0`, the set at the beginning.
pub record Hearing (hash : ℕ → ℕ) (enc : ℕ) (got0 : ℕ → Bool) (log : List (ℕ × List ℕ)) (s : Kernel)
    : Type 0 where
  pub vmacr : EncodingRx
  pub found : find hash enc s.rx_enc ≡ some vmacr
  pub got : ℕ → Bool
  pub represents : Represents vmacr got
  pub registered : s.pidt ≢ no_pid
  pub armed : Armed IsBuffer vmacr
  pub data_frames : HasFrames s.uqueue
  pub mgmt_frames : HasFrames s.mqueue
  pub genuine : All (Genuine enc log) s.sent
  pub once : Distinct (numbers s.sent)
  pub received : All (λ j. (got j ≡ true) × (j ≤ vmacr.latest)) (numbers s.sent)
  pub passed_on : (j : ℕ) → got j ≡ true → HasPassed got0 j s

pub Hearing-mono :
    (hash : ℕ → ℕ) (enc : ℕ) (got0 : ℕ → Bool) (log log' : List (ℕ × List ℕ)) (s : Kernel)
    → ((x : ℕ × List ℕ) → In x log → In x log')
    → Hearing hash enc got0 log s
    → Hearing hash enc got0 log' s
Hearing-mono hash enc got0 log log' s f v = record {
  vmacr = v.vmacr;
  found = v.found;
  got = v.got;
  represents = v.represents;
  registered = v.registered;
  armed = v.armed;
  data_frames = v.data_frames;
  mgmt_frames = v.mgmt_frames;
  genuine =
      All-map s.sent v.genuine
        (λ m g. record { there = f _ g.there; encoding = g.encoding; type = g.type });
  once = v.once;
  received = v.received;
  passed_on = v.passed_on;
}
