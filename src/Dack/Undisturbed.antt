-- ===== src/Dack/Undisturbed.antt =====
-- What the making of a DACK does not touch: user space, the queues of frames, and what the entries have received.
use v_mac_kernel.Prelude.{
  ℕ, ◌+◌, ◌≡◌, ◌≢◌, refl, ◌∙◌, inl, inr, List, [], ◌∷◌, ◌++◌, Option, some, ◌==◌, Bool-cases,
  Option-cases,
}
use v_mac_kernel.Skb.{Ptr, null, to, wild}
use v_mac_kernel.Structs.{EncodingRx, DackInfo}
use v_mac_kernel.Table.{find}
use v_mac_kernel.Table.Lookup.{find-update}
use v_mac_kernel.Kernel.{Kernel, Env, ok, kfree_skb, dev_alloc_skb}
use v_mac_kernel.Dack.{with_rx}

-- The pointer to a DACK that is to be sent is one of `D`.
abbrev pub Armed : (Ptr → Type 0) → EncodingRx → Type 0
Armed D r = r.dac_info.send ≡ 1 → D r.dac_info.dack

-- It is not wild.
abbrev pub IsTame : Ptr → Type 0
IsTame p = p ≢ wild

abbrev pub Tame : EncodingRx → Type 0
Tame r = r.dac_info.send ≡ 1 → r.dac_info.dack ≢ wild

-- An encoding has an entry, with a DACK that is tame.
abbrev pub Serviceable : (ℕ → ℕ) → ℕ → Kernel → Type 0
Serviceable hash enc s = (r : EncodingRx) × (find hash enc s.rx_enc ≡ some r) × Tame r

-- The entry `r'` has the window of `r`, and has received the same.
pub record Like (r r' : EncodingRx) : Type 0 where
  pub before_window : r'.before_window ≡ r.before_window
  pub window : r'.window ≡ r.window
  pub latest : r'.latest ≡ r.latest
  pub first_frame : r'.first_frame ≡ r.first_frame
  pub lastin : r'.lastin ≡ r.lastin

pub Like-refl : (r : EncodingRx) → Like r r
Like-refl r = record {
  before_window = refl;
  window = refl;
  latest = refl;
  first_frame = refl;
  lastin = refl;
}

-- What the DACKs of an entry change.
pub Like-dack :
    (r r' : EncodingRx) (a : ℕ) (d : DackInfo) (p : Ptr) (t : Option ℕ)
    → Like r r'
    → Like r (record r' { alpha = a; dac_info = d; dack = p; dack_timer = t })
Like-dack r r' a d p t l = record {
  before_window = l.before_window;
  window = l.window;
  latest = l.latest;
  first_frame = l.first_frame;
  lastin = l.lastin;
}

-- An encoding has an entry like `r`, with a DACK of `D`.
abbrev pub Finds : (Ptr → Type 0) → (ℕ → ℕ) → ℕ → EncodingRx → Kernel → Type 0
Finds D hash enc r s =
    (r' : EncodingRx) × (find hash enc s.rx_enc ≡ some r') × Armed D r' × Like r r'

-- User space, the air, and all queues but `dqueue` and `mqueue` are as they were.
pub record Calm (s s' : Kernel) : Type 0 where
  pub tx_enc : s'.tx_enc ≡ s.tx_enc
  pub uqueue : s'.uqueue ≡ s.uqueue
  pub rx_upper : s'.rx_upper ≡ s.rx_upper
  pub pidt : s'.pidt ≡ s.pidt
  pub aired : s'.aired ≡ s.aired
  pub sent : s'.sent ≡ s.sent

pub Calm-refl : (s : Kernel) → Calm s s
Calm-refl s = record {
  tx_enc = refl;
  uqueue = refl;
  rx_upper = refl;
  pidt = refl;
  aired = refl;
  sent = refl;
}

pub with_rx-Calm :
    (env : Env) (enc : ℕ) (f : EncodingRx → EncodingRx) (s : Kernel) → Calm s (with_rx env enc f s)
with_rx-Calm env enc f s = record {
  tx_enc = refl;
  uqueue = refl;
  rx_upper = refl;
  pidt = refl;
  aired = refl;
  sent = refl;
}

pub Calm-trans : (s1 s2 s3 : Kernel) → Calm s1 s2 → Calm s2 s3 → Calm s1 s3
Calm-trans s1 s2 s3 a b = record {
  tx_enc = b.tx_enc ∙ a.tx_enc;
  uqueue = b.uqueue ∙ a.uqueue;
  rx_upper = b.rx_upper ∙ a.rx_upper;
  pidt = b.pidt ∙ a.pidt;
  aired = b.aired ∙ a.aired;
  sent = b.sent ∙ a.sent;
}

-- What the making of a DACK leaves.
pub record Undisturbed (D : Ptr → Type 0) (hash : ℕ → ℕ) (s s' : Kernel) : Type 0 where
  pub dqueue : s'.dqueue ≡ s.dqueue
  pub dackreqnum : s'.dackreqnum ≡ s.dackreqnum
  pub mqueue : s'.mqueue ≡ s.mqueue
  pub kmallocs : s'.kmallocs ≡ s.kmallocs
  pub calm : Calm s s'
  pub finds : (enc : ℕ) (r : EncodingRx) → Finds D hash enc r s → Finds D hash enc r s'

pub serviceable :
    (hash : ℕ → ℕ) (s s' : Kernel)
    → Undisturbed IsTame hash s s'
    → (enc : ℕ) → Serviceable hash enc s
    → Serviceable hash enc s'
serviceable hash s s' d enc (r, e, tame) =
    let (r', e', tame', like) = d.finds enc r (r, e, tame, Like-refl r) in (r', e', tame')

module _ (D : Ptr → Type 0) where
  pub Undisturbed-refl : (hash : ℕ → ℕ) (s : Kernel) → Undisturbed D hash s s
  Undisturbed-refl hash s = record {
    dqueue = refl;
    dackreqnum = refl;
    mqueue = refl;
    kmallocs = refl;
    calm = Calm-refl s;
    finds = λ enc r v. v;
  }

  -- Buffers that were freed or asked for.
  pub Undisturbed-buffers :
      (hash : ℕ → ℕ) (s : Kernel) (freed : List ℕ) (skbs : ℕ)
      → Undisturbed D hash s (record s { freed = freed; skbs = skbs })
  Undisturbed-buffers hash s freed skbs = record {
    dqueue = refl;
    dackreqnum = refl;
    mqueue = refl;
    kmallocs = refl;
    calm = record {
      tx_enc = refl;
      uqueue = refl;
      rx_upper = refl;
      pidt = refl;
      aired = refl;
      sent = refl;
    };
    finds = λ enc r v. v;
  }

  pub Undisturbed-trans :
      (hash : ℕ → ℕ) (s1 s2 s3 : Kernel)
      → Undisturbed D hash s1 s2
      → Undisturbed D hash s2 s3
      → Undisturbed D hash s1 s3
  Undisturbed-trans hash s1 s2 s3 a b = record {
    dqueue = b.dqueue ∙ a.dqueue;
    dackreqnum = b.dackreqnum ∙ a.dackreqnum;
    mqueue = b.mqueue ∙ a.mqueue;
    kmallocs = b.kmallocs ∙ a.kmallocs;
    calm = Calm-trans s1 s2 s3 a.calm b.calm;
    finds = λ enc r v. b.finds enc r (a.finds enc r v);
  }

  -- A change of an entry that keeps its window.
  pub with_rx-Finds :
      (env : Env) (enc : ℕ) (f : EncodingRx → EncodingRx) (s : Kernel)
      → ((r : EncodingRx) → Armed D r → Armed D (f r))
      → ((r r' : EncodingRx) → Like r r' → Like r (f r'))
      → (j : ℕ) (r : EncodingRx) → Finds D env.hash j r s
      → Finds D env.hash j r (with_rx env enc f s)
  with_rx-Finds env enc f s keeps likes j r (r', e, tame, like) =
      elim (Bool-cases (env.hash j == env.hash enc)) [
        | inl same ↦ (
          f r',
          find-update env.hash j enc f s.rx_enc ∙ rw (same, e) refl,
          keeps r' tame,
          likes r r' like,
        )
        | inr other ↦ (r', find-update env.hash j enc f s.rx_enc ∙ rw (other, e) refl, tame, like)
      ]

  pub with_rx-Undisturbed :
      (env : Env) (enc : ℕ) (f : EncodingRx → EncodingRx) (s : Kernel)
      → ((r : EncodingRx) → Armed D r → Armed D (f r))
      → ((r r' : EncodingRx) → Like r r' → Like r (f r'))
      → Undisturbed D env.hash s (with_rx env enc f s)
  with_rx-Undisturbed env enc f s keeps likes = record {
    dqueue = refl;
    dackreqnum = refl;
    mqueue = refl;
    kmallocs = refl;
    calm = with_rx-Calm env enc f s;
    finds = with_rx-Finds env enc f s keeps likes;
  }

  pub kfree_skb-Undisturbed :
      (hash : ℕ → ℕ) (p : Ptr) (s : Kernel)
      → p ≢ wild
      → (s' : Kernel) × (kfree_skb p s ≡ ok s') × Undisturbed D hash s s'
  unfolding kfree_skb
  kfree_skb-Undisturbed hash null s tame = (s, refl, Undisturbed-refl hash s)
  kfree_skb-Undisturbed hash (to skb) s tame =
      (_, refl, Undisturbed-buffers hash s (s.freed ++ skb.id ∷ []) s.skbs)
  kfree_skb-Undisturbed hash wild s tame = absurd (tame refl)

  pub dev_alloc_skb-Undisturbed :
      (env : Env) (hash : ℕ → ℕ) (s : Kernel)
      → ((dev_alloc_skb env s).0 ≢ wild) × Undisturbed D hash s (dev_alloc_skb env s).1
  unfolding dev_alloc_skb
  dev_alloc_skb-Undisturbed env hash s = elim (Option-cases (env.new_skb s.skbs)) [
    | inl e ↦ rw (e, dev_alloc_skb) ((λ h. cc), Undisturbed-buffers hash s s.freed (s.skbs + 1))
    | inr (room, e) ↦
        rw (e, dev_alloc_skb) ((λ h. cc), Undisturbed-buffers hash s s.freed (s.skbs + 1))
  ]
