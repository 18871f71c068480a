-- ===== src/Msstd/Process/Pipes.antt =====
-- A pipe that ms_vpopen opens and ms_vpclose closes leaves the descriptors as they were.
use build_project.Prelude.{
  ℕ, ◌<◌, ◌==◌, ℤ, Bool, true, false, some, List, [], ◌∷◌, ◌≡◌, refl, ◌∙◌, ap, arith,
}
use build_project.Msstd.Process.{
  Wait, interrupted, child, Table, close, set_pid, kept, given, table_of, raw_status, ms_vpopen,
  ms_vpclose,
}
use build_project.Msstd.Process.Waits.{answer, wait_child-answer}

same : (n : ℕ) → (n == n) ≡ true
same n = ground arith

-- The type of a pipe that the parent reads, or writes.
abbrev pub mode : Bool → ℕ
mode true = b'r'
mode false = b'w'

close-given :
    (reads : Bool) (a b : ℕ) (fds : List ℕ)
    → (a == b) ≡ false
    → close (given reads (a, b)) (a ∷ b ∷ fds) ≡ kept reads (a, b) ∷ fds
close-given true a b fds other = ground (arith, other)
close-given false a b fds other = ground (arith, other)

ms_vpopen-kept :
    (s : Table) (reads : Bool) (a b pid : ℕ) (t : ℕ → ℕ)
    → table_of s true ≡ some t
    → ms_vpopen s
        (mode reads ∷ [])
        (record { has_memory = true; pipe = some (a, b); fork = child pid })
      ≡ (
        some (kept reads (a, b)),
        record {
          childpid = some (set_pid t (kept reads (a, b)) pid);
          opened = close (given reads (a, b)) (a ∷ b ∷ s.opened);
        },
      )
unfolding ms_vpopen
ms_vpopen-kept s true a b pid t table = rw (table) refl
ms_vpopen-kept s false a b pid t table = rw (table) refl

-- With a child, and a pipe of two ends, ms_vpopen answers its FILE and keeps one end. ms_vpclose then
-- waits over `n` interruptions, answers the status, or -1 if the wait failed, leaves the descriptors as
-- they were, and the FILE with no child.
pub ms_vpclose-ms_vpopen :
    (s : Table) (reads : Bool) (a b pid : ℕ) (t : ℕ → ℕ) (waits : ℕ → Wait) (n fuel : ℕ) (r : ℤ)
    → table_of s true ≡ some t
    → (a == b) ≡ false
    → (pid == 0) ≡ false
    → ((k : ℕ) → k < n → waits k ≡ interrupted)
    → answer raw_status (waits n) ≡ some r
    → n < fuel
    → (s₁ s₂ : Table) × (ms_vpopen s
          (mode reads ∷ [])
          (record { has_memory = true; pipe = some (a, b); fork = child pid })
        ≡ (some (kept reads (a, b)), s₁))
      × (s₁.opened ≡ kept reads (a, b) ∷ s.opened)
      × (ms_vpclose fuel waits s₁ (some (kept reads (a, b))) ≡ some (r, s₂))
      × (s₂.opened ≡ s.opened)
      × ((t₂ : ℕ → ℕ) × (s₂.childpid ≡ some t₂)
          × (t₂ (kept reads (a, b)) ≡ 0)
          × ((q : ℕ) → (q == kept reads (a, b)) ≡ false → t₂ q ≡ t q))
unfolding ms_vpopen ms_vpclose
ms_vpclose-ms_vpopen s reads a b pid t waits n fuel r table other live before last lt =
    let fd = kept reads (a, b) in
    let ended_at = wait_child-answer raw_status waits n fuel r before last lt in
    (
      record {
        childpid = some (set_pid t fd pid);
        opened = close (given reads (a, b)) (a ∷ b ∷ s.opened);
      },
      record {
        childpid = some (set_pid (set_pid t fd pid) fd 0);
        opened = close fd (close (given reads (a, b)) (a ∷ b ∷ s.opened));
      },
      ms_vpopen-kept s reads a b pid t table,
      close-given reads a b s.opened other,
      rw (set_pid, same fd, live, ended_at) refl,
      ap (close fd) (close-given reads a b s.opened other) ∙ rw (same fd) refl,
      (set_pid (set_pid t fd pid) fd 0, refl, rw (same fd) refl, λ q away. rw (away) refl),
    )
