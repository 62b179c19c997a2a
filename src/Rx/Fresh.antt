-- ===== src/Rx/Fresh.antt =====
-- The set of received numbers after a data frame, new or not.
use v_mac_kernel.Prelude.{
  ℕ, ◌≤◌, ◌≡◌, ◌≢◌, ◌⊎◌, inl, inr, Bool, true, if◌then◌else◌, arith, Bool-cases,
}
use native.Mathlib.Decide.{ℕ_discrete}
use v_mac_kernel.Rx.Sliding.{receives}
use v_mac_kernel.Rx.Data.{fresh}

-- The set after a frame.
abbrev pub keeping : ℕ → ℕ → (ℕ → Bool) → ℕ → Bool
keeping latest seq got = if fresh latest seq got then receives latest seq got else got

module _ (latest seq : ℕ) (got : ℕ → Bool) where
  pub fresh-apart : (j : ℕ) → (got j ≡ true) × (j ≤ latest) → fresh latest seq got ≡ true → j ≢ seq
  fresh-apart j (was, low) new same =
      let q : got seq ≡ true = rw (← same) was in absurd (ground (arith, q, same))

  pub keeping-old : (j : ℕ) → got j ≡ true → j ≤ latest → keeping latest seq got j ≡ true
  keeping-old j was low = elim (Bool-cases (fresh latest seq got)) [
    | inl e ↦ rw e (ground (arith, was))
    | inr e ↦ rw e was
  ]

  pub keeping-seq : keeping latest seq got seq ≡ true
  keeping-seq = ground arith

  pub keeping-cases :
      (j : ℕ)
      → keeping latest seq got j ≡ true
      → ((fresh latest seq got ≡ true) × (j ≡ seq)) ⊎ (got j ≡ true)
  keeping-cases j h = elim (Bool-cases (fresh latest seq got)) [
    | inl e ↦ elim (ℕ_discrete j seq) [
      | yes same ↦ inl (e, same)
      | no ne ↦ let h' : receives latest seq got j ≡ true = rw e at h in inr (ground (arith, h'))
    ]
    | inr e ↦ inr (rw e at h)
  ]
