-- ===== src/File/Rotate.antt =====
-- The rotation of silog_dae/src/silog_file_manager.c: its two loops.
use si_log.Base.{
  ℕ, zero, suc, ◌+◌, ◌-◌, ◌≤◌, ◌<◌, ◌≡◌, ◌⊎◌, ◌∙◌, ap, sym, Bool, true, false, Bool-cases, inl, inr,
  arith,
}
use si_log.File.{free_seq, rename_loop}

-- Where every attempt fails the loop ends at the limit.
pub rename_loop-fails :
    (fuel retry : ℕ) (rename_ok : ℕ → Bool)
    → ((r : ℕ) → rename_ok r ≡ false)
    → rename_loop fuel rename_ok retry ≡ retry + fuel
unfolding rename_loop
rename_loop-fails zero retry rename_ok bad = omega arith
rename_loop-fails (suc fuel) retry rename_ok bad =
    rw (bad retry) (rename_loop-fails fuel (retry + 1) rename_ok bad ∙ omega arith)

le_cases : (a b : ℕ) → a ≤ b → (a ≡ b) ⊎ (a < b)
le_cases a b h = ground arith

-- The loop ends at the first attempt that succeeds.
pub rename_loop-first :
    (fuel retry first : ℕ) (rename_ok : ℕ → Bool)
    → retry ≤ first
    → first < retry + fuel
    → rename_ok first ≡ true
    → rename_loop fuel rename_ok retry ≤ first
unfolding rename_loop
rename_loop-first zero retry first rename_ok le lt good = absurd (omega arith)
rename_loop-first (suc fuel) retry first rename_ok le lt good =
    elim (Bool-cases (rename_ok retry)) [
      | inl now ↦ rw now le
      | inr later ↦ rw later (elim (le_cases retry first le) [
        | inl same ↦ absurd cc
        | inr before ↦
            rename_loop-first fuel (retry + 1) first rename_ok (omega arith) (omega arith) good
      ])
    ]

free_seq-cases :
    (fuel seq : ℕ) (exists : ℕ → Bool)
    → (free_seq fuel exists seq ≤ seq + fuel - 1)
      × ((j : ℕ) → seq ≤ j → j < free_seq fuel exists seq → exists j ≡ true)
      × ((exists (free_seq fuel exists seq) ≡ false) ⊎ (free_seq fuel exists seq ≡ seq + fuel - 1))
unfolding free_seq
free_seq-cases zero seq exists = (omega arith, (λ j a b. absurd (omega arith)), inr (omega arith))
free_seq-cases (suc fuel) seq exists = elim (Bool-cases (exists seq)) [
  | inr free ↦ rw free (omega arith, (λ j a b. absurd (omega arith)), inl free)
  | inl taken ↦
      let (bound, before, end) = free_seq-cases fuel (seq + 1) exists in
      rw taken (
        omega (arith, bound),
        (λ j a b. elim (le_cases seq j a) [
          | inl same ↦ ap exists (sym same) ∙ taken
          | inr later ↦ before j (omega arith) b
        ]),
        elim end [ inl free ↦ inl free | inr last ↦ inr (omega (arith, last)) ],
      )
]

-- A rotation takes the first of its ten names that no file has; if all ten are taken it takes the last.
free_seq-first :
    (exists : ℕ → Bool)
    → (free_seq 10 exists 0 ≤ 9)
      × ((j : ℕ) → j < free_seq 10 exists 0 → exists j ≡ true)
      × ((exists (free_seq 10 exists 0) ≡ false) ⊎ (free_seq 10 exists 0 ≡ 9))
free_seq-first exists =
    let (bound, before, end) = free_seq-cases 10 0 exists in
    (bound, (λ j lt. before j (omega arith) lt), end)
