-- ===== src/Ccsqlite/Execute.antt =====
-- How long sqlite_execute tries, and what it answers.
use build_project.Prelude.{
  ◌∙◌, if◌then◌else◌, ℕ, zero, suc, ◌+◌, ◌≤◌, ℤ, pos, minus_one, is_zero, true, false, Option, none,
  some, [], ◌∷◌, Bytes, ◌≡◌, refl, ◌⊎◌, inl, inr, leb, ◌==◌, arith, Bool-cases,
}
use build_project.Sys.{
  Call, Trace, Env, M, sqlite3_open, sqlite3_exec, pure, and_then, ◌>>=◌, call, call_ret_text,
  still_running,
}
use build_project.Sys.Ends.{Ends, Ends-of, mono, Safe, hangs, mono-Safe}
use build_project.Ccsqlite.{
  sqlite_opt_cnt, is_locked, free_msg, exec_failed, exec_loop, sqlite_execute,
}

-- How many times `sqlite3_exec` was called.
abbrev execs_of : Call → ℕ → ℕ
execs_of (sqlite3_exec h sql) n = n + 1
execs_of c n = n

abbrev pub execs : Trace → ℕ
execs [] = 0
execs (c ∷ t) = execs_of c (execs t)

-- How many of those calls failed.
abbrev failures_of : Env → Trace → Call → ℕ → ℕ
failures_of e t (sqlite3_exec h sql) n =
    if is_zero (e.ret (sqlite3_exec h sql ∷ t)) then n else n + 1
failures_of e t c n = n

abbrev pub failures : Env → Trace → ℕ
failures e [] = 0
failures e (c ∷ t) = failures_of e t c (failures e t)

-- The history at its last open.
abbrev opened_of : Call → Trace → Option Trace → Option Trace
opened_of (sqlite3_open db) t before = some (sqlite3_open db ∷ t)
opened_of c t before = before

abbrev pub last_open : Trace → Option Trace
last_open [] = none
last_open (c ∷ t) = opened_of c t (last_open t)

-- The last call of a history executed the statement, with success.
abbrev pub Executed : Env → ℕ → Bytes → Trace → Type 0
Executed e h sql t' =
    (u : Trace) × (t' ≡ sqlite3_exec h sql ∷ u) × (is_zero (e.ret (sqlite3_exec h sql ∷ u)) ≡ true)

-- No failure is reported as a lock.
abbrev pub NeverLocked : Env → Type 0
NeverLocked e =
    (h : ℕ) (sql : Bytes) (t : Trace)
    → is_zero (e.ret (sqlite3_exec h sql ∷ t)) ≡ false
    → is_locked (e.text (sqlite3_exec h sql ∷ t)) ≡ false

-- Every try fails, and the database is locked.
abbrev pub AlwaysLocked : Env → Type 0
AlwaysLocked e =
    (h : ℕ) (sql : Bytes) (t : Trace)
    → (is_zero (e.ret (sqlite3_exec h sql ∷ t)) ≡ false)
      × (is_locked (e.text (sqlite3_exec h sql ∷ t)) ≡ true)

-- The outcome of a loop with `count` failed tries behind it: success within the 200 tries, or
-- failure after all of them.
abbrev pub Tried : Env → ℕ → Bytes → ℕ → Trace → ℤ → Trace → Type 0
Tried e h sql count t r t' =
    (last_open t' ≡ last_open t)
    × (execs t + 1 ≤ execs t')
    × ((r ≡ pos 0) × Executed e h sql t' × (execs t' + count ≤ execs t + sqlite_opt_cnt)
        ⊎ (r ≡ minus_one)
          × (execs t' + count ≡ execs t + sqlite_opt_cnt)
          × (failures e t' + count ≡ failures e t + sqlite_opt_cnt))

module _ (e : Env) where
  exec_failed-last :
      (sql : Bytes) (count : ℕ) (msg : Option Bytes) (again : M ℤ) (t : Trace)
      → leb sqlite_opt_cnt count ≡ true
      → is_locked msg ≡ false
      → Ends
          (λ r t'.
            (r ≡ minus_one)
            × (execs t' ≡ execs t)
            × (failures e t' ≡ failures e t)
            × (last_open t' ≡ last_open t))
          (exec_failed sql count msg again e t)
  unfolding exec_failed free_msg pure ◌>>=◌ and_then call
  exec_failed-last sql count none again t last unlocked =
      rw last (Ends-of _ (refl, refl, refl, refl))
  exec_failed-last sql count (some msg) again t last unlocked =
      rw (last, unlocked) (Ends-of _ (refl, refl, refl, refl))

  -- Before the last try the loop goes on, whatever the error.
  exec_failed-again :
      {P : ℤ → Trace → Type 0} (sql : Bytes) (count : ℕ) (msg : Option Bytes) (again : M ℤ)
      (t : Trace)
      → leb sqlite_opt_cnt count ≡ false
      → ((t' : Trace)
          → execs t' ≡ execs t
          → failures e t' ≡ failures e t
          → last_open t' ≡ last_open t
          → Ends P (again e t'))
      → Ends P (exec_failed sql count msg again e t)
  unfolding exec_failed free_msg pure ◌>>=◌ and_then call
  exec_failed-again sql count none again t more next = rw more (next _ refl refl refl)
  exec_failed-again sql count (some msg) again t more next = rw more (next _ refl refl refl)

  -- A failed try in front of the others.
  Tried-more :
      (h : ℕ) (sql : Bytes) (count : ℕ) (t t' : Trace) (r : ℤ) (u : Trace)
      → is_zero (e.ret (sqlite3_exec h sql ∷ t)) ≡ false
      → execs t' ≡ execs (sqlite3_exec h sql ∷ t)
      → failures e t' ≡ failures e (sqlite3_exec h sql ∷ t)
      → last_open t' ≡ last_open t
      → Tried e h sql (count + 1) t' r u
      → Tried e h sql count t r u
  Tried-more h sql count t t' r u failed n_eq f_eq o_eq (opens, more, inl (r_eq, ran, le)) =
      (opens ∙ o_eq, omega (arith, n_eq, more), inl (r_eq, ran, omega (arith, n_eq, le)))
  Tried-more h sql count t t' r u failed n_eq f_eq o_eq (opens, more, inr (r_eq, n, f)) = (
    opens ∙ o_eq,
    omega (arith, n_eq, more),
    inr (r_eq, omega (arith, n_eq, n), ground (arith, f_eq, f, failed)),
  )

  exec_loop-Tried :
      NeverLocked e
      → (fuel count h : ℕ) (sql : Bytes) (t : Trace) → count + 1 ≤ sqlite_opt_cnt
      → sqlite_opt_cnt ≤ fuel + count
      → Ends (Tried e h sql count t) (exec_loop fuel count h sql e t)
  unfolding exec_loop pure ◌>>=◌ and_then call_ret_text
  exec_loop-Tried free zero count h sql t lo enough = absurd (omega arith)
  exec_loop-Tried free (suc fuel) count h sql t lo enough =
      elim (Bool-cases (is_zero (e.ret (sqlite3_exec h sql ∷ t)))) [
        | inl ok ↦ rw ok (Ends-of _ (refl, omega arith, inl (refl, (t, refl, ok), omega arith)))
        | inr failed ↦ rw failed (elim (Bool-cases (leb sqlite_opt_cnt (count + 1))) [
          | inl last ↦
              mono
                (exec_failed-last sql (count + 1) (e.text (sqlite3_exec h sql ∷ t))
                  (exec_loop fuel (count + 1) h sql) (sqlite3_exec h sql ∷ t) last
                  (free h sql t failed))
                λ r t' (r_eq, n_eq, f_eq, o_eq). (
                  o_eq,
                  ground (arith, n_eq),
                  inr (r_eq, ground (arith, n_eq, last), ground (arith, f_eq, failed, last)),
                )
          | inr more ↦
              exec_failed-again sql (count + 1) (e.text (sqlite3_exec h sql ∷ t))
                (exec_loop fuel (count + 1) h sql) (sqlite3_exec h sql ∷ t) more
                λ t' n_eq f_eq o_eq.
                  mono (exec_loop-Tried free fuel (count + 1) h sql t' (ground arith) (omega arith))
                    λ r u o. Tried-more h sql count t t' r u failed n_eq f_eq o_eq o
        ])
      ]

  pub sqlite_execute-Tried :
      (fuel h : ℕ) (sql : Bytes) (t : Trace)
      → NeverLocked e
      → sqlite_opt_cnt ≤ fuel
      → (h == 0) ≡ false
      → Ends (Tried e h sql 0 t) (sqlite_execute fuel h (some sql) e t)
  unfolding sqlite_execute
  sqlite_execute-Tried fuel h sql t free enough live =
      rw live (exec_loop-Tried free fuel 0 h sql t (omega arith) (omega arith))

  -- Unless SQLite reports a lock, `sqlite_execute` is over after at most 200 tries: 0 behind a try that
  -- succeeded, and -1 after exactly 200 tries that all failed.
  pub sqlite_execute_total :
      (fuel h : ℕ) (sql : Bytes) (t : Trace)
      → NeverLocked e
      → sqlite_opt_cnt ≤ fuel
      → (h == 0) ≡ false
      → Ends
          (λ r t'.
            (r ≡ pos 0) × Executed e h sql t' × (execs t' ≤ execs t + sqlite_opt_cnt)
            ⊎ (r ≡ minus_one)
              × (execs t' ≡ execs t + sqlite_opt_cnt)
              × (failures e t' ≡ failures e t + sqlite_opt_cnt))
          (sqlite_execute fuel h (some sql) e t)
  sqlite_execute_total fuel h sql t free enough live =
      mono (sqlite_execute-Tried fuel h sql t free enough live) λ r u (_, _, o). elim o [
        | inl (r_eq, ran, le) ↦ inl (r_eq, ran, omega (arith, le))
        | inr (r_eq, n, f) ↦ inr (r_eq, omega (arith, n), omega (arith, f))
      ]

  exec_loop-refused :
      ((h : ℕ) (sql : Bytes) (t : Trace) → is_zero (e.ret (sqlite3_exec h sql ∷ t)) ≡ false)
      → NeverLocked e
      → (fuel count h : ℕ) (sql : Bytes) (t : Trace) → count + 1 ≤ sqlite_opt_cnt
      → sqlite_opt_cnt ≤ fuel + count
      → Ends
          (λ r t'. (r ≡ minus_one) × (execs t' + count ≡ execs t + sqlite_opt_cnt))
          (exec_loop fuel count h sql e t)
  unfolding exec_loop pure ◌>>=◌ and_then call_ret_text
  exec_loop-refused fails free zero count h sql t lo enough = absurd (omega arith)
  exec_loop-refused fails free (suc fuel) count h sql t lo enough =
      rw (fails h sql t) (elim (Bool-cases (leb sqlite_opt_cnt (count + 1))) [
        | inl last ↦
            mono
              (exec_failed-last sql (count + 1) (e.text (sqlite3_exec h sql ∷ t))
                (exec_loop fuel (count + 1) h sql) (sqlite3_exec h sql ∷ t) last
                (free h sql t (fails h sql t)))
              λ r t' (r_eq, n_eq, _, _). (r_eq, ground arith)
        | inr more ↦
            exec_failed-again sql (count + 1) (e.text (sqlite3_exec h sql ∷ t))
              (exec_loop fuel (count + 1) h sql) (sqlite3_exec h sql ∷ t) more
              λ t' n_eq _ _.
                mono
                  (exec_loop-refused fails free fuel (count + 1) h sql t' (ground arith)
                    (omega arith))
                  λ r u (r_eq, k). (r_eq, omega arith)
      ])

  -- If every try fails, and not by a lock, `sqlite_execute` answers -1 after exactly 200 tries.
  pub sqlite_execute-refused :
      (fuel h : ℕ) (sql : Bytes) (t : Trace)
      → ((h' : ℕ) (sql' : Bytes) (u : Trace) → is_zero (e.ret (sqlite3_exec h' sql' ∷ u)) ≡ false)
      → NeverLocked e
      → sqlite_opt_cnt ≤ fuel
      → (h == 0) ≡ false
      → Ends
          (λ r t'. (r ≡ minus_one) × (execs t' ≡ execs t + sqlite_opt_cnt))
          (sqlite_execute fuel h (some sql) e t)
  unfolding sqlite_execute
  sqlite_execute-refused fuel h sql t fails free enough live = rw live (
      mono (exec_loop-refused fails free fuel 0 h sql t (omega arith) (omega arith))
        λ r u (r_eq, k). (r_eq, omega arith))

  -- With a lock reported the loop goes on, at any count.
  exec_failed-locked :
      {P : ℤ → Trace → Type 0} {Q : Trace → Type 0} (sql : Bytes) (count : ℕ) (msg : Option Bytes)
      (again : M ℤ) (t : Trace)
      → is_locked msg ≡ true
      → ((t' : Trace) → execs t' ≡ execs t → Safe P Q (again e t'))
      → Safe P Q (exec_failed sql count msg again e t)
  unfolding exec_failed free_msg pure ◌>>=◌ and_then call
  exec_failed-locked sql count none again t locked next = unfold is_locked in cc
  exec_failed-locked sql count (some msg) again t locked next =
      elim (Bool-cases (leb sqlite_opt_cnt count)) [
        | inl last ↦ rw (last, locked) (next _ refl)
        | inr more ↦ rw more (next _ refl)
      ]

  exec_loop_stuck :
      AlwaysLocked e
      → (fuel count h : ℕ) (sql : Bytes) (t : Trace)
      → Safe (λ _ _. ⊥) (λ t'. execs t' ≡ execs t + fuel) (exec_loop fuel count h sql e t)
  unfolding exec_loop pure ◌>>=◌ and_then call_ret_text still_running
  exec_loop_stuck locked zero count h sql t = hangs (omega arith)
  exec_loop_stuck locked (suc fuel) count h sql t = rw ((locked h sql t).0) (
      exec_failed-locked sql (count + 1) (e.text (sqlite3_exec h sql ∷ t))
        (exec_loop fuel (count + 1) h sql) (sqlite3_exec h sql ∷ t) (locked h sql t).1
        λ t' n_eq.
          mono-Safe (exec_loop_stuck locked fuel (count + 1) h sql t') (λ r u k. k)
            λ u k. omega arith)

  -- While SQLite reports a lock, `sqlite_execute` never returns: it is still trying after any number
  -- of tries.
  pub sqlite_execute_stuck :
      (fuel h : ℕ) (sql : Bytes) (t : Trace)
      → AlwaysLocked e
      → (h == 0) ≡ false
      → Safe (λ _ _. ⊥) (λ t'. execs t' ≡ execs t + fuel) (sqlite_execute fuel h (some sql) e t)
  unfolding sqlite_execute
  sqlite_execute_stuck fuel h sql t locked live = rw live (exec_loop_stuck locked fuel 0 h sql t)
