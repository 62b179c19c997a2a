-- ===== src/Table/Tests.antt =====
-- Runs of the tables, with the low five bits as the hash.
use v_mac_kernel.Prelude.{ℕ, ◌%◌, ◌<◌, ◌≡◌, refl, List, [], ◌∷◌, none, some, arith}
use v_mac_kernel.Table.{hash_init, find, add, update, remove, last}
use v_mac_kernel.Table.Lookup.{IsSparse, hash_init-IsSparse}
use v_mac_kernel.Table.Refine.{
  Op, ensure, change, delete, run, step, Map, spec_run, run_refines, run-IsSparse, ensure_aliases,
}

abbrev low_bits : ℕ → ℕ
low_bits k = k % 32

abbrev empty_map : Map ℕ
empty_map j = none

abbrev history : List (Op ℕ)
history = ensure 3 30 ∷ ensure 4 40 ∷ ensure 3 31 ∷ change 4 (λ x. x) ∷ delete 3 ∷ []

find_runs : find low_bits 4 (run low_bits history hash_init) ≡ some 40
unfolding find run step hash_init add update remove last
find_runs = refl

-- 3 and 35 share a bucket.
find_other_key : find {A = ℕ} low_bits 35 (run low_bits (ensure 3 30 ∷ []) hash_init) ≡ some 30
unfolding find run step hash_init add last
find_other_key = refl

hash_init_agrees : (j : ℕ) → j < 32 → find low_bits j (hash_init {A = ℕ}) ≡ empty_map j
unfolding find hash_init
hash_init_agrees j h = refl

run_refines_example :
    find low_bits 4 (run low_bits history hash_init) ≡ spec_run history empty_map 4
run_refines_example =
    run_refines low_bits (λ k. k < 32) (λ j k hj hk e. omega arith) history hash_init empty_map
      (omega arith) (hash_init-IsSparse ℕ) hash_init_agrees 4 (omega arith)

run-IsSparse_example : IsSparse (run low_bits history hash_init)
run-IsSparse_example = run-IsSparse low_bits history hash_init (hash_init-IsSparse ℕ)

empty_3 : find low_bits 3 (hash_init {A = ℕ}) ≡ none
unfolding find hash_init
empty_3 = refl

ensure_aliases_example :
    let t = step {A = ℕ} low_bits (ensure 35 350) (step low_bits (ensure 3 30) hash_init) in
    (t ≡ step low_bits (ensure 3 30) hash_init)
    × (find low_bits 35 t ≡ some 30)
    × (find low_bits 3 t ≡ some 30)
ensure_aliases_example =
    ensure_aliases low_bits 3 35 30 350 hash_init (hash_init-IsSparse ℕ) empty_3 refl
