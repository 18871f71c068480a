-- ===== src/Tests/Process.antt =====
-- The theorems on commands and pipes at concrete inputs.
use build_project.Prelude.{
  ℕ, zero, suc, ◌<◌, ◌==◌, pos, minus_one, true, false, none, some, [], ◌∷◌, ◌≡◌, refl, arith,
}
use build_project.Msstd.Process.{
  Wait, ended, interrupted, child, no_child, Table, ms_system, ms_vsystem, ms_vpopen, ms_vpclose,
}
use build_project.Msstd.Process.Waits.{exited_with, ms_system-answer}
use build_project.Msstd.Process.Pipes.{ms_vpclose-ms_vpopen}

-- Two interruptions, and then the command has exited with 3.
abbrev two_rounds : ℕ → Wait
two_rounds zero = interrupted
two_rounds (suc zero) = interrupted
two_rounds (suc (suc k)) = ended (record { exited = true; code = 3; raw = pos 768 })

two_rounds-before : (k : ℕ) → k < 2 → two_rounds k ≡ interrupted
two_rounds-before zero lt = refl
two_rounds-before (suc zero) lt = refl
two_rounds-before (suc (suc k)) lt = absurd (omega arith)

-- No table yet, and three open descriptors.
abbrev fresh : Table
fresh = record { childpid = none; opened = 0 ∷ 1 ∷ 2 ∷ [] }

ms_system-answer_example :
    (ms_system 5 (some (b'l' ∷ b's' ∷ [])) (child 9) two_rounds ≡ some (pos 3))
    × (ms_vsystem 5 (some (b'l' ∷ b's' ∷ [])) (child 9) two_rounds ≡ some (pos 3))
    × (ms_system 5 (some (b'l' ∷ b's' ∷ [])) no_child two_rounds ≡ some minus_one)
    × (ms_vsystem 5 none (child 9) two_rounds ≡ some minus_one)
ms_system-answer_example =
    ms_system-answer (b'l' ∷ b's' ∷ []) 9 two_rounds 2 5 (pos 3) two_rounds-before
      (exited_with 3 (pos 768)) (omega arith)

ms_vpclose-ms_vpopen_example :
    (s₁ s₂ : Table) × (ms_vpopen fresh
        (b'r' ∷ [])
        (record { has_memory = true; pipe = some (3, 4); fork = child 9 })
      ≡ (some 3, s₁))
    × (s₁.opened ≡ 3 ∷ 0 ∷ 1 ∷ 2 ∷ [])
    × (ms_vpclose 5 two_rounds s₁ (some 3) ≡ some (pos 768, s₂))
    × (s₂.opened ≡ 0 ∷ 1 ∷ 2 ∷ [])
    × ((t₂ : ℕ → ℕ) × (s₂.childpid ≡ some t₂)
        × (t₂ 3 ≡ 0)
        × ((q : ℕ) → (q == 3) ≡ false → t₂ q ≡ 0))
ms_vpclose-ms_vpopen_example =
    ms_vpclose-ms_vpopen fresh true 3 4 9 (λ q. 0) two_rounds 2 5 (pos 768) refl refl refl
      two_rounds-before refl (omega arith)
