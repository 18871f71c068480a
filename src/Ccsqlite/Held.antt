-- ===== src/Ccsqlite/Held.antt =====
-- What each wrapper of ccsqlite.c acquires and gives back, from any state of a session.
use build_project.Prelude.{
  leb, ◌+◌, ◌==◌, eq_ℤ, ◌∷◌, ℕ, zero, suc, ℤ, is_zero, Bool, true, false, List, Option, none, some,
  Bytes, ◌≡◌, ◌⊎◌, inl, inr, arith, Bool-cases,
}
use build_project.Sys.{
  sqlite3_exec, sqlite3_prepare_v2, sqlite3_step, Trace, Env, M, pure, and_then, ◌>>=◌, call,
  call_ret, call_out, call_ret_out, call_text, call_ret_text, still_running,
}
use build_project.Sys.Ends.{Ends, Safe, hangs, pure-Ends, Safe-of, Ends-of, bind}
use build_project.Sys.Monitor.{held, using, lose, IsDocumented}
use build_project.Ccsqlite.{
  sqlite_opt_cnt, sqlite_row, sqlite_done, sqlite_conn, sqlite_disconn, exec_failed, exec_loop,
  sqlite_execute, free_msg, is_locked, sqlite_query_column_name, prepare_loop, Stepped, step_loop,
  query_stepped, sqlite_query_record, sqlite_query_next, sqlite_query_column,
  sqlite_query_column_double, sqlite_query_column_byte, sqlite_query_column_text, sqlite_clear_stmt,
}

module _ (e : Env) (rw' : Bool) (fd : ℤ) {lost : List ℕ} where
  pub sqlite_conn-held :
      (path : Option Bytes) (t : Trace)
      → held e t ≡ using rw' fd 0 0 lost
      → Ends
          (λ (r, h) t'.
            (is_zero r ≡ true) × (held e t' ≡ using rw' fd h 0 lost)
            ⊎ (is_zero r ≡ false) × (held e t' ≡ using rw' fd 0 0 (lose h lost)))
          (sqlite_conn path e t)
  unfolding sqlite_conn held pure ◌>>=◌ and_then call call_ret_out
  sqlite_conn-held none t s = Ends-of _ (ground arith)
  sqlite_conn-held (some path) t s = Ends-of _ (ground arith)

  pub sqlite_disconn-held :
      IsDocumented e
      → (h : ℕ) (t : Trace) → held e t ≡ using rw' fd h 0 lost
      → Ends (λ _ t'. held e t' ≡ using rw' fd 0 0 lost) (sqlite_disconn h e t)
  unfolding sqlite_disconn held pure ◌>>=◌ and_then call call_ret
  sqlite_disconn-held doc h t s = Ends-of _ (ground (arith, doc.close_ok h t))

  pub sqlite_clear_stmt-held :
      (h stmt : ℕ) (t : Trace)
      → held e t ≡ using rw' fd h stmt lost
      → Ends (λ _ t'. held e t' ≡ using rw' fd h 0 lost) (sqlite_clear_stmt stmt e t)
  unfolding sqlite_clear_stmt held pure ◌>>=◌ and_then call
  sqlite_clear_stmt-held h stmt t s = Ends-of _ (ground arith)

  prepare_loop-held :
      IsDocumented e
      → (what : Bytes) (left h : ℕ) (sql : Bytes) (t : Trace) → (h == 0) ≡ false
      → held e t ≡ using rw' fd h 0 lost
      → Ends
          (λ (r, stmt) t'. held e t' ≡ using rw' fd h stmt lost)
          (prepare_loop what left h sql e t)
  unfolding prepare_loop held pure ◌>>=◌ and_then call call_ret_out
  prepare_loop-held doc what zero h sql t live s =
      Ends-of _ (ground (arith, doc.prepare_null h sql t))
  prepare_loop-held doc what (suc left) h sql t live s =
      elim (Bool-cases (is_zero (e.ret (sqlite3_prepare_v2 h sql ∷ t)))) [
        | inl ok ↦ rw ok (Ends-of _ (ground arith))
        | inr failed ↦ rw failed (prepare_loop-held doc what left h sql _ live (ground arith))
      ]

  step_loop-held :
      (what sql : Bytes) (left h stmt : ℕ) (t : Trace)
      → held e t ≡ using rw' fd h stmt lost
      → Ends (λ _ t'. held e t' ≡ using rw' fd h stmt lost) (step_loop what sql left stmt e t)
  unfolding step_loop held pure ◌>>=◌ and_then call call_ret
  step_loop-held what sql zero h stmt t s = Ends-of _ (ground arith)
  step_loop-held what sql (suc left) h stmt t s =
      elim (Bool-cases (eq_ℤ (e.ret (sqlite3_step stmt ∷ t)) sqlite_row)) [
        | inl got ↦ rw got (Ends-of _ (ground arith))
        | inr miss ↦ rw miss (elim (Bool-cases (eq_ℤ (e.ret (sqlite3_step stmt ∷ t)) sqlite_done)) [
          | inl end ↦ rw end (Ends-of _ (ground arith))
          | inr more ↦ rw more (step_loop-held what sql left h stmt _ (ground arith))
        ])
      ]

  query_stepped-held :
      (h stmt : ℕ) (o : Stepped) (t : Trace)
      → held e t ≡ using rw' fd h stmt lost
      → Ends
          (λ (r, stmt', cnt) t'. held e t' ≡ using rw' fd h stmt' lost)
          (query_stepped stmt o e t)
  unfolding query_stepped held pure ◌>>=◌ and_then call_ret
  query_stepped-held h stmt o t s = Ends-of _ (ground arith)

  pub sqlite_query_record-held :
      IsDocumented e
      → (h : ℕ) (sql : Option Bytes) (t : Trace) → held e t ≡ using rw' fd h 0 lost
      → Ends
          (λ (r, stmt, cnt) t'. held e t' ≡ using rw' fd h stmt lost)
          (sqlite_query_record h sql e t)
  unfolding sqlite_query_record
  sqlite_query_record-held doc h none t s =
      Ends-of _ (unfold held pure ◌>>=◌ and_then call in ground arith)
  sqlite_query_record-held doc h (some sql) t s = elim (Bool-cases (h == 0)) [
    | inl null ↦ rw null (Ends-of _ (unfold held pure ◌>>=◌ and_then call in ground arith))
    | inr live ↦ rw live (
        bind _ _ (prepare_loop-held doc _ _ h sql t live s) λ (r, stmt) t₁ s₁.
          elim (Bool-cases (is_zero r)) [
            | inl ok ↦ rw ok (
                bind _ _ (step_loop-held _ _ _ h stmt t₁ s₁)
                  λ o t₂ s₂. query_stepped-held h stmt o t₂ s₂)
            | inr failed ↦ rw failed (pure-Ends e _ _ s₁)
          ])
  ]

  -- The next round is the continuation of a failed one.
  exec_failed-held :
      (sql : Bytes) (count h : ℕ) (msg : Option Bytes) (again : M ℤ) (t : Trace)
      → held e t ≡ using rw' fd h 0 lost
      → ((t' : Trace)
          → held e t' ≡ using rw' fd h 0 lost
          → Safe
              (λ _ u. held e u ≡ using rw' fd h 0 lost)
              (λ u. held e u ≡ using rw' fd h 0 lost)
              (again e t'))
      → Safe
          (λ _ u. held e u ≡ using rw' fd h 0 lost)
          (λ u. held e u ≡ using rw' fd h 0 lost)
          (exec_failed sql count msg again e t)
  unfolding exec_failed free_msg held pure ◌>>=◌ and_then call
  exec_failed-held sql count h none again t s next = elim (Bool-cases (leb sqlite_opt_cnt count)) [
    | inl out ↦ rw out (Safe-of _ (ground arith))
    | inr more ↦ rw more (next _ (ground arith))
  ]
  exec_failed-held sql count h (some msg) again t s next =
      elim (Bool-cases (leb sqlite_opt_cnt count)) [
        | inl out ↦ rw out (elim (Bool-cases (is_locked (some msg))) [
          | inl locked ↦ rw locked (next _ (ground arith))
          | inr other ↦ rw other (Safe-of _ (ground arith))
        ])
        | inr more ↦ rw more (next _ (ground arith))
      ]

  exec_loop-held :
      (fuel count h : ℕ) (sql : Bytes) (t : Trace)
      → (h == 0) ≡ false
      → held e t ≡ using rw' fd h 0 lost
      → Safe
          (λ _ t'. held e t' ≡ using rw' fd h 0 lost)
          (λ t'. held e t' ≡ using rw' fd h 0 lost)
          (exec_loop fuel count h sql e t)
  unfolding exec_loop held pure ◌>>=◌ and_then call_ret_text still_running
  exec_loop-held zero count h sql t live s = hangs s
  exec_loop-held (suc fuel) count h sql t live s =
      elim (Bool-cases (is_zero (e.ret (sqlite3_exec h sql ∷ t)))) [
        | inl ok ↦ rw ok (Safe-of _ (ground arith))
        | inr failed ↦ rw failed (
            exec_failed-held sql (count + 1) h (e.text (sqlite3_exec h sql ∷ t))
              (exec_loop fuel (count + 1) h sql) (sqlite3_exec h sql ∷ t) (ground arith)
              λ t' s'. exec_loop-held fuel (count + 1) h sql t' live s')
      ]

  pub sqlite_execute-held :
      (fuel h : ℕ) (sql : Option Bytes) (t : Trace)
      → held e t ≡ using rw' fd h 0 lost
      → Safe
          (λ _ t'. held e t' ≡ using rw' fd h 0 lost)
          (λ t'. held e t' ≡ using rw' fd h 0 lost)
          (sqlite_execute fuel h sql e t)
  unfolding sqlite_execute
  sqlite_execute-held fuel h none t s =
      Safe-of _ (unfold held pure ◌>>=◌ and_then call in ground arith)
  sqlite_execute-held fuel h (some sql) t s = elim (Bool-cases (h == 0)) [
    | inl null ↦ rw null (Safe-of _ (unfold held pure ◌>>=◌ and_then call in ground arith))
    | inr live ↦ rw live (exec_loop-held fuel 0 h sql t live s)
  ]

  pub sqlite_query_next-held :
      (h stmt : ℕ) (t : Trace)
      → held e t ≡ using rw' fd h stmt lost
      → Ends (λ _ t'. held e t' ≡ using rw' fd h stmt lost) (sqlite_query_next stmt e t)
  unfolding sqlite_query_next held pure ◌>>=◌ and_then call call_ret
  sqlite_query_next-held h stmt t s = Ends-of _ (ground arith)

  pub sqlite_query_column-held :
      (h stmt : ℕ) (i old : ℤ) (t : Trace)
      → held e t ≡ using rw' fd h stmt lost
      → Ends (λ _ t'. held e t' ≡ using rw' fd h stmt lost) (sqlite_query_column stmt i old e t)
  unfolding sqlite_query_column held pure ◌>>=◌ and_then call call_ret
  sqlite_query_column-held h stmt i old t s = Ends-of _ (ground arith)

  pub sqlite_query_column_double-held :
      (h stmt : ℕ) (i : ℤ) (old : ℕ) (t : Trace)
      → held e t ≡ using rw' fd h stmt lost
      → Ends
          (λ _ t'. held e t' ≡ using rw' fd h stmt lost)
          (sqlite_query_column_double stmt i old e t)
  unfolding sqlite_query_column_double held pure ◌>>=◌ and_then call call_out
  sqlite_query_column_double-held h stmt i old t s = Ends-of _ (ground arith)

  pub sqlite_query_column_byte-held :
      (h stmt : ℕ) (i : ℤ) (old : ℕ) (t : Trace)
      → held e t ≡ using rw' fd h stmt lost
      → Ends
          (λ _ t'. held e t' ≡ using rw' fd h stmt lost)
          (sqlite_query_column_byte stmt i old e t)
  unfolding sqlite_query_column_byte held pure ◌>>=◌ and_then call call_ret
  sqlite_query_column_byte-held h stmt i old t s = Ends-of _ (ground arith)

  pub sqlite_query_column_text-held :
      (h stmt : ℕ) (i : ℤ) (old : Bytes) (size : ℕ) (t : Trace)
      → held e t ≡ using rw' fd h stmt lost
      → Ends
          (λ _ t'. held e t' ≡ using rw' fd h stmt lost)
          (sqlite_query_column_text stmt i old size e t)
  unfolding sqlite_query_column_text held pure ◌>>=◌ and_then call call_text
  sqlite_query_column_text-held h stmt i old size t s = Ends-of _ (ground arith)

  pub sqlite_query_column_name-held :
      (h stmt : ℕ) (i : ℤ) (t : Trace)
      → held e t ≡ using rw' fd h stmt lost
      → Ends (λ _ t'. held e t' ≡ using rw' fd h stmt lost) (sqlite_query_column_name h stmt i e t)
  unfolding sqlite_query_column_name held pure ◌>>=◌ and_then call_text
  sqlite_query_column_name-held h stmt i t s = Ends-of _ (ground arith)
