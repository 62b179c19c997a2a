-- ===== src/Table/Lookup.antt =====
-- What a lookup finds after each operation on a table.
use v_mac_kernel.Prelude.{
  ℕ, suc, ◌≤◌, ◌≡◌, refl, ap, List, [], ◌∷◌, Option, none, some, ◌==◌, if◌then◌else◌, arith, length,
}
use mathlib.Core.Option
use v_mac_kernel.Table.{Table, hash_init, last, update_last, remove_last, find, add, update, remove}

module _ {ℓ} {A : Type ℓ} where
  -- Every chain holds one entry at most.
  abbrev pub IsSparse : Table A → Type 0
  IsSparse t = (b : ℕ) → length (t.chain b) ≤ 1

  last-update_last_from :
      (f : A → A) (ret : Option A) (x : A) (xs : List A)
      → last ret (update_last f (x ∷ xs)) ≡ Option.map f (last ret (x ∷ xs))
  unfolding last update_last
  last-update_last_from f ret x [] = refl
  last-update_last_from f ret x (y ∷ ys) = last-update_last_from f (some x) y ys

  last-update_last :
      (f : A → A) (xs : List A) → last none (update_last f xs) ≡ Option.map f (last none xs)
  unfolding last update_last
  last-update_last f [] = refl
  last-update_last f (x ∷ xs) = last-update_last_from f none x xs

  last-eq-none : (ret : Option A) (xs : List A) → last ret xs ≡ none → (ret ≡ none) × (xs ≡ [])
  unfolding last
  last-eq-none ret [] h = (h, refl)
  last-eq-none ret (x ∷ xs) h = ground (arith, last-eq-none (some x) xs h)

  length-update_last : (f : A → A) (xs : List A) → length (update_last f xs) ≡ length xs
  unfolding update_last
  length-update_last f [] = refl
  length-update_last f (x ∷ []) = refl
  length-update_last f (x ∷ y ∷ xs) = ap suc (length-update_last f (y ∷ xs))

  remove_last_of_one : (xs : List A) → length xs ≤ 1 → remove_last xs ≡ []
  unfolding remove_last
  remove_last_of_one [] h = refl
  remove_last_of_one (x ∷ []) h = refl
  remove_last_of_one (x ∷ y ∷ xs) h = absurd (omega arith)

pub hash_init-IsSparse {ℓ} : (A : Type ℓ) → IsSparse (hash_init {A = A})
unfolding hash_init
hash_init-IsSparse A b = omega arith

module _ {ℓ} {A : Type ℓ} (hash : ℕ → ℕ) where
  -- Keys of one bucket find the same entry.
  pub find-same : (j k : ℕ) (t : Table A) → hash j ≡ hash k → find hash j t ≡ find hash k t
  unfolding find
  find-same j k t h = ap (λ b. last none (t.chain b)) h

  -- After a change through the pointer that a lookup of `k` returns, a lookup of `j` finds the
  -- changed entry if `j` falls into the bucket of `k`, and what it found before if not.
  pub find-update :
      (j k : ℕ) (f : A → A) (t : Table A)
      → find hash j (update hash k f t)
        ≡ (if hash j == hash k then Option.map f (find hash j t) else find hash j t)
  unfolding find update
  find-update j k f t = ground (arith, last-update_last f (t.chain (hash j)))

  chain_of_none : (k : ℕ) (t : Table A) → find hash k t ≡ none → t.chain (hash k) ≡ []
  unfolding find
  chain_of_none k t h = (last-eq-none none (t.chain (hash k)) h).1

  -- After an entry is added for a key whose lookup fails, a lookup finds it for every key of the
  -- bucket, and for the other keys what it found before.
  pub find-add :
      (j k : ℕ) (e : A) (t : Table A)
      → find hash k t ≡ none
      → find hash j (add hash k e t) ≡ (if hash j == hash k then some e else find hash j t)
  unfolding find add last
  find-add j k e t h = ground (arith, chain_of_none k t h)

  pub find-remove :
      (j k : ℕ) (t : Table A)
      → IsSparse t
      → find hash j (remove hash k t) ≡ (if hash j == hash k then none else find hash j t)
  unfolding find remove last
  find-remove j k t v = ground (arith, remove_last_of_one (t.chain (hash j)) (v (hash j)))

  -- The guard of the callers, which add an entry only where the lookup fails, keeps the chains short.
  pub add-IsSparse :
      (k : ℕ) (e : A) (t : Table A) → find hash k t ≡ none → IsSparse t → IsSparse (add hash k e t)
  unfolding find add
  add-IsSparse k e t h v b = ground (arith, v b, last-eq-none none (t.chain (hash k)) h)

  pub update-IsSparse :
      (k : ℕ) (f : A → A) (t : Table A) → IsSparse t → IsSparse (update hash k f t)
  unfolding update
  update-IsSparse k f t v b = ground (arith, v b, length-update_last f (t.chain b))

  pub remove-IsSparse : (k : ℕ) (t : Table A) → IsSparse t → IsSparse (remove hash k t)
  unfolding remove
  remove-IsSparse k t v b = ground (arith, v b, remove_last_of_one (t.chain b) (v b))
