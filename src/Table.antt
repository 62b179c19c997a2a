-- ===== src/Table.antt =====
-- The lookup tables of vmac/main.c, `rx_enc` and `tx_enc`: the kernel's chained hash tables of 2^5
-- buckets. A table is generic in its entries; `hash` is the kernel's `hash_min` to five bits.
-- `hash_for_each_possible` walks a bucket and compares no key: the code keeps the last entry it meets.
pub mod Lookup
pub mod Refine
mod Tests
use v_mac_kernel.Prelude.{ℕ, List, [], ◌∷◌, Option, none, some, ◌==◌, if◌then◌else◌}

-- `DECLARE_HASHTABLE`: the chain of each bucket.
pub record Table {ℓ} (A : Type ℓ) : Type ℓ where
  pub chain : ℕ → List A

module _ {ℓ} {A : Type ℓ} where
  -- `hash_init`
  pub hash_init : Table A
  hash_init = record { chain = λ b. [] }

  -- The walk of `find_rx` and `find_tx`: `ret` is overwritten at every entry.
  unfoldable pub last : Option A → List A → Option A
  last ret [] = ret
  last ret (x ∷ xs) = last (some x) xs

  -- A change to the entry that such a walk ends at, through the pointer that it returns.
  pub update_last : (A → A) → List A → List A
  update_last f [] = []
  update_last f (x ∷ []) = f x ∷ []
  update_last f (x ∷ y ∷ xs) = x ∷ update_last f (y ∷ xs)

  -- `hash_del` of that entry.
  pub remove_last : List A → List A
  remove_last [] = []
  remove_last (x ∷ []) = []
  remove_last (x ∷ y ∷ xs) = x ∷ remove_last (y ∷ xs)

  abbrev pub on_chain : ℕ → (List A → List A) → Table A → Table A
  on_chain b f t = record { chain = λ c. if c == b then f (t.chain c) else t.chain c }

module _ {ℓ} {A : Type ℓ} (hash : ℕ → ℕ) where
  -- `find_rx`, `find_tx`
  unfoldable pub find : ℕ → Table A → Option A
  unfolding last
  find enc t = last none (t.chain (hash enc))

  -- `add_rx`, `add_tx`: `hash_add` puts the entry first in its chain.
  pub add : ℕ → A → Table A → Table A
  add key e t = on_chain (hash key) (λ c. e ∷ c) t

  pub update : ℕ → (A → A) → Table A → Table A
  unfolding update_last
  update enc f t = on_chain (hash enc) (update_last f) t

  pub remove : ℕ → Table A → Table A
  unfolding remove_last
  remove enc t = on_chain (hash enc) remove_last t
