-- ===== src/Msstd/Process/Waits.antt =====
-- The waits go on over interruptions, and end with the first other answer.
use build_project.Prelude.{
  ℕ, zero, suc, ◌<◌, ℤ, pos, true, false, minus_one, Option, none, some, Bytes, ◌≡◌, refl, arith,
}
use build_project.Msstd.Process.{
  Status, Wait, ended, interrupted, failed, child, no_child, exit_code, wait_child, ms_system,
  ms_vsystem,
}

-- What the code makes of an answer that is no interruption.
abbrev pub answer : (Status → ℤ) → Wait → Option ℤ
answer f (ended s) = some (f s)
answer f interrupted = none
answer f failed = some minus_one

answered :
    (f : Status → ℤ) (w : Wait) (r : ℤ) (again : Option ℤ)
    → answer f w ≡ some r
    → elim w [ ended s ↦ some (f s) | interrupted ↦ again | failed ↦ some minus_one ] ≡ some r
answered f (ended s) r again e = e
answered f interrupted r again e = absurd (ground (arith, e))
answered f failed r again e = e

pub wait_child-answer :
    (f : Status → ℤ) (waits : ℕ → Wait) (n fuel : ℕ) (r : ℤ)
    → ((k : ℕ) → k < n → waits k ≡ interrupted)
    → answer f (waits n) ≡ some r
    → n < fuel
    → wait_child fuel f waits ≡ some r
unfolding wait_child
wait_child-answer f waits n zero r before last lt = absurd (omega arith)
wait_child-answer f waits zero (suc fuel) r before last lt = answered f (waits 0) r _ last
wait_child-answer f waits (suc n) (suc fuel) r before last lt =
    rw (wait_child, before 0 (omega arith))
      (wait_child-answer f (λ k. waits (suc k)) n fuel r (λ k k_lt. before (suc k) (omega arith))
        last (omega arith))

-- What a wait says of a command, from the manual of wait: the exit code if the command exited, and -1 if
-- it ended otherwise or the wait failed.
pub data CommandAnswer : Wait → ℤ → Type 0 where
  exited_with :
      (code : ℕ) (raw : ℤ)
      → CommandAnswer (ended (record { exited = true; code = code; raw = raw })) (pos code)
  killed :
      (code : ℕ) (raw : ℤ)
      → CommandAnswer (ended (record { exited = false; code = code; raw = raw })) minus_one
  no_wait : CommandAnswer failed minus_one

answer-CommandAnswer : (w : Wait) (r : ℤ) → CommandAnswer w r → answer exit_code w ≡ some r
answer-CommandAnswer _ _ (exited_with code raw) = refl
answer-CommandAnswer _ _ (killed code raw) = refl
answer-CommandAnswer _ _ no_wait = refl

-- After `n` interruptions ms_system and ms_vsystem return with the next answer: the exit code of the
-- command, or -1 if it did not exit or the wait failed. Without a command or a child they return -1.
pub ms_system-answer :
    (cmd : Bytes) (pid : ℕ) (waits : ℕ → Wait) (n fuel : ℕ) (r : ℤ)
    → ((k : ℕ) → k < n → waits k ≡ interrupted)
    → CommandAnswer (waits n) r
    → n < fuel
    → (ms_system fuel (some cmd) (child pid) waits ≡ some r)
      × (ms_vsystem fuel (some cmd) (child pid) waits ≡ some r)
      × (ms_system fuel (some cmd) no_child waits ≡ some minus_one)
      × (ms_vsystem fuel none (child pid) waits ≡ some minus_one)
unfolding ms_system ms_vsystem
ms_system-answer cmd pid waits n fuel r before last lt =
    let run =
      wait_child-answer exit_code waits n fuel r before (answer-CommandAnswer (waits n) r last)
        lt in
    (run, run, refl, refl)
