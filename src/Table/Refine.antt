-- ===== src/Table/Refine.antt =====
-- Where no two keys in use fall into one bucket, a table is a map from keys to entries; where two do,
-- they share one entry.
use v_mac_kernel.Prelude.{
  ℕ, ◌≡◌, refl, List, [], ◌∷◌, Option, none, some, ◌==◌, if◌then◌else◌, arith, Option-cases, inl,
  inr,
}
use mathlib.Core.Option
use v_mac_kernel.Table.{Table, find, add, update, remove}
use v_mac_kernel.Table.Lookup.{
  IsSparse, find-update, find-add, find-remove, find-same, add-IsSparse, update-IsSparse,
  remove-IsSparse,
}

-- What the handlers do to a table: add an entry unless the lookup finds one, change the entry
-- that the lookup finds, delete it.
pub data Op {ℓ} (A : Type ℓ) : Type ℓ where
  ensure : ℕ → A → Op A
  change : ℕ → (A → A) → Op A
  delete : ℕ → Op A

abbrev pub key_of {ℓ} : {A : Type ℓ} → Op A → ℕ
key_of (ensure k e) = k
key_of (change k f) = k
key_of (delete k) = k

-- The specification: a map by key.
abbrev pub Map {ℓ} : Type ℓ → Type ℓ
Map A = ℕ → Option A

module _ {ℓ} {A : Type ℓ} where
  -- What an operation leaves of the binding of its own key.
  abbrev pub bind : Op A → Option A → Option A
  bind (ensure k e) none = some e
  bind (ensure k e) (some x) = some x
  bind (change k f) o = Option.map f o
  bind (delete k) o = none

  abbrev pub spec_step : Op A → Map A → Map A
  spec_step o m j = if j == key_of o then bind o (m j) else m j

  abbrev pub spec_run : List (Op A) → Map A → Map A
  spec_run [] m = m
  spec_run (o ∷ os) m = spec_run os (spec_step o m)

  -- The keys of all operations satisfy `P`.
  abbrev pub Uses {κ} : (ℕ → Type κ) → List (Op A) → Type κ
  Uses P [] = Unit
  Uses P (o ∷ os) = P (key_of o) × Uses P os

module _ {ℓ} {A : Type ℓ} (hash : ℕ → ℕ) where
  unfoldable pub step : Op A → Table A → Table A
  step (ensure k e) t = elim (find hash k t) [ none ↦ add hash k e t | some x ↦ t ]
  step (change k f) t = update hash k f t
  step (delete k) t = remove hash k t

  unfoldable pub run : List (Op A) → Table A → Table A
  run [] t = t
  run (o ∷ os) t = run os (step o t)

  pub step-IsSparse : (o : Op A) (t : Table A) → IsSparse t → IsSparse (step o t)
  unfolding step
  step-IsSparse (ensure k e) t v = elim (Option-cases (find hash k t)) [
    | inl missing ↦ rw (missing, step) (add-IsSparse hash k e t missing v)
    | inr (x, found) ↦ rw (found, step) v
  ]
  step-IsSparse (change k f) t v = update-IsSparse hash k f t v
  step-IsSparse (delete k) t v = remove-IsSparse hash k t v

  -- Every operation, seen by a lookup of any key.
  pub find-step :
      (o : Op A) (j : ℕ) (t : Table A)
      → IsSparse t
      → find hash j (step o t)
        ≡ (if hash j == hash (key_of o) then bind o (find hash j t) else find hash j t)
  unfolding step
  find-step (ensure k e) j t v = elim (Option-cases (find hash k t)) [
    | inl missing ↦
        rw (missing, step) (ground (arith, find-add hash j k e t missing, find-same hash j k t))
    | inr (x, found) ↦ rw (found, step) (ground (arith, find-same hash j k t))
  ]
  find-step (change k f) j t v = find-update hash j k f t
  find-step (delete k) j t v = find-remove hash j k t v

  -- Chains hold at most one entry after any history from a table where they do.
  pub run-IsSparse : (os : List (Op A)) (t : Table A) → IsSparse t → IsSparse (run os t)
  unfolding run
  run-IsSparse [] t v = v
  run-IsSparse (o ∷ os) t v = run-IsSparse os (step o t) (step-IsSparse o t v)

  -- If no two different keys that satisfy `P` fall into one bucket, then after any history of
  -- operations on such keys a lookup of such a key finds what the map by key holds, for a table
  -- whose chains hold at most one entry and that agreed with the map before.
  pub run_refines {κ} :
      (P : ℕ → Type κ)
      → ((j k : ℕ) → P j → P k → hash j ≡ hash k → j ≡ k)
      → (os : List (Op A)) (t : Table A) (m : Map A) → Uses P os
      → IsSparse t
      → ((j : ℕ) → P j → find hash j t ≡ m j)
      → (j : ℕ) → P j
      → find hash j (run os t) ≡ spec_run os m j
  unfolding run
  run_refines P inj [] t m u v agree j p = agree j p
  run_refines P inj (o ∷ os) t m u v agree j p =
      run_refines P inj os (step o t) (spec_step o m) u.1 (step-IsSparse o t v) agree' j p
    where
      agree' : (i : ℕ) → P i → find hash i (step o t) ≡ spec_step o m i
      agree' i q = ground (arith, find-step o i t v, agree i q, inj i (key_of o) q u.0)

  unchanged : (k : ℕ) (e e' : A) (t : Table A) → find hash k t ≡ some e → step (ensure k e') t ≡ t
  unfolding step
  unchanged k e e' t there = rw (there, step) refl

  -- Two keys that fall into one bucket share the entry that was made for the first: if every bucket has at
  -- most one entry and the first key none yet, then after its entry was added, adding one for the second key where a
  -- lookup finds none leaves the table as it is, and both keys find the first one's entry.
  pub ensure_aliases :
      (j k : ℕ) (e e' : A) (t : Table A)
      → IsSparse t
      → find hash j t ≡ none
      → hash j ≡ hash k
      → let t' = step (ensure k e') (step (ensure j e) t) in
        (t' ≡ step (ensure j e) t) × (find hash k t' ≡ some e) × (find hash j t' ≡ some e)
  ensure_aliases j k e e' t v missing h =
      let t1 = step (ensure j e) t in
      let there : (find hash j t1 ≡ some e) × (find hash k t1 ≡ some e) = ground (
        arith,
        find-step (ensure j e) j t v,
        find-step (ensure j e) k t v,
        find-same hash j k t h,
      ) in
      let kept : step (ensure k e') t1 ≡ t1 = unchanged k e e' t1 there.1 in
      (kept, rw kept there.1, rw kept there.0)
