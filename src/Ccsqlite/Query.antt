-- ===== src/Ccsqlite/Query.antt =====
-- What sqlite_query_record answers, for every behaviour of SQLite.
use build_project.Prelude.{
  ℕ, zero, suc, ◌-◌, ◌≤◌, ℤ, pos, minus_one, is_zero, eq_ℤ, true, false, some, ◌∷◌, Bytes, ◌≡◌,
  refl, ◌⊎◌, inl, inr, ◌==◌, arith, Bool-cases,
}
use build_project.Sys.{
  Trace, Env, sqlite3_prepare_v2, sqlite3_step, sqlite3_column_count, usleep, vsprintf, mslogerr,
  pure, and_then, ◌>>=◌, call, call_ret, call_ret_out,
}
use build_project.Sys.Ends.{Ends, Ends-of, mono, bind, pure-Ends}
use build_project.Ccsqlite.{
  sqlite_opt_cnt, sqlite_row, sqlite_done, fail_line, prepare_what, step_what, Stepped, row, no_row,
  gave_up, prepare_loop, step_loop, query_stepped, sqlite_query_record,
}

-- From the history `t`, `n` tries to prepare a statement failed, each with a wait behind it.
pub data PrepareFails (e : Env) (h : ℕ) (sql : Bytes) : ℕ → Trace → Trace → Type 0 where
  no_try : (t : Trace) → PrepareFails e h sql 0 t t
  failed_try :
      (n : ℕ) (t u : Trace)
      → is_zero (e.ret (sqlite3_prepare_v2 h sql ∷ t)) ≡ false
      → PrepareFails e h sql n (usleep 10000 ∷ sqlite3_prepare_v2 h sql ∷ t) u
      → PrepareFails e h sql (suc n) t u

-- The same of `n` steps that found neither a row nor the end.
pub data StepFails (e : Env) (stmt : ℕ) : ℕ → Trace → Trace → Type 0 where
  no_step : (t : Trace) → StepFails e stmt 0 t t
  failed_step :
      (n : ℕ) (t u : Trace)
      → eq_ℤ (e.ret (sqlite3_step stmt ∷ t)) sqlite_row ≡ false
      → eq_ℤ (e.ret (sqlite3_step stmt ∷ t)) sqlite_done ≡ false
      → StepFails e stmt n (usleep 10000 ∷ sqlite3_step stmt ∷ t) u
      → StepFails e stmt (suc n) t u

-- A statement is prepared behind at most `left` failed tries, or `left` and one more fail, the last of
-- them with a line of the log.
pub data Prepares (e : Env) (what : Bytes) (h : ℕ) (sql : Bytes)
    : ℕ → Trace → ℤ → ℕ → Trace → Type 0 where
  ready :
      (left n : ℕ) (t u : Trace)
      → n ≤ left
      → PrepareFails e h sql n t u
      → is_zero (e.ret (sqlite3_prepare_v2 h sql ∷ u)) ≡ true
      → Prepares e what h sql left t
          (pos 0)
          (e.out (sqlite3_prepare_v2 h sql ∷ u))
          (sqlite3_prepare_v2 h sql ∷ u)
  refused :
      (left : ℕ) (t u : Trace)
      → PrepareFails e h sql left t u
      → is_zero (e.ret (sqlite3_prepare_v2 h sql ∷ u)) ≡ false
      → Prepares e what h sql left t minus_one (e.out (sqlite3_prepare_v2 h sql ∷ u)) (
          mslogerr
          ∷ vsprintf 1024 (fail_line what (e.ret (sqlite3_prepare_v2 h sql ∷ u)) sql)
          ∷ sqlite3_prepare_v2 h sql
          ∷ u)

-- A step finds a row or the end behind at most `left` that failed, or `left` and one more fail, the last
-- of them with a line of the log.
pub data Steps (e : Env) (what : Bytes) (sql : Bytes) (stmt : ℕ)
    : ℕ → Trace → Stepped → Trace → Type 0 where
  at_row :
      (left n : ℕ) (t u : Trace)
      → n ≤ left
      → StepFails e stmt n t u
      → eq_ℤ (e.ret (sqlite3_step stmt ∷ u)) sqlite_row ≡ true
      → Steps e what sql stmt left t row (sqlite3_step stmt ∷ u)
  at_end :
      (left n : ℕ) (t u : Trace)
      → n ≤ left
      → StepFails e stmt n t u
      → eq_ℤ (e.ret (sqlite3_step stmt ∷ u)) sqlite_done ≡ true
      → Steps e what sql stmt left t no_row (sqlite3_step stmt ∷ u)
  used_up :
      (left : ℕ) (t u : Trace)
      → StepFails e stmt left t u
      → eq_ℤ (e.ret (sqlite3_step stmt ∷ u)) sqlite_row ≡ false
      → eq_ℤ (e.ret (sqlite3_step stmt ∷ u)) sqlite_done ≡ false
      → Steps e what sql stmt left t (gave_up (e.ret (sqlite3_step stmt ∷ u))) (
          mslogerr
          ∷ vsprintf 1024 (fail_line what (e.ret (sqlite3_step stmt ∷ u)) sql)
          ∷ sqlite3_step stmt
          ∷ u)

-- The outcomes of a query from the history `t`, with all the calls behind it: there is a row; there is
-- none; the statement could not be prepared in 200 tries; or it was, and its first step failed 200
-- times, the last time with `r`.
pub data Outcome (e : Env) (h : ℕ) (sql : Bytes) (t : Trace) : ℤ → ℕ → ℤ → Trace → Type 0 where
  has_record :
      (stmt : ℕ) (t₁ t₂ : Trace)
      → Prepares e prepare_what h sql 199 t (pos 0) stmt t₁
      → Steps e step_what sql stmt 199 t₁ row t₂
      → Outcome e h sql t
          (pos 0)
          stmt
          (e.ret (sqlite3_column_count stmt ∷ t₂))
          (sqlite3_column_count stmt ∷ t₂)
  no_record :
      (stmt : ℕ) (t₁ t₂ : Trace)
      → Prepares e prepare_what h sql 199 t (pos 0) stmt t₁
      → Steps e step_what sql stmt 199 t₁ no_row t₂
      → Outcome e h sql t (pos 1) stmt (pos 0) t₂
  not_prepared :
      (stmt : ℕ) (t₁ : Trace)
      → Prepares e prepare_what h sql 199 t minus_one stmt t₁
      → Outcome e h sql t minus_one stmt (pos 0) t₁
  step_failed :
      (r : ℤ) (stmt : ℕ) (t₁ t₂ : Trace)
      → Prepares e prepare_what h sql 199 t (pos 0) stmt t₁
      → Steps e step_what sql stmt 199 t₁ (gave_up r) t₂
      → Outcome e h sql t r stmt (pos 0) t₂

prepared_on :
    (e : Env) (what : Bytes) (h : ℕ) (sql : Bytes) (left : ℕ) (t : Trace) (r : ℤ) (stmt : ℕ)
    (u : Trace)
    → is_zero (e.ret (sqlite3_prepare_v2 h sql ∷ t)) ≡ false
    → Prepares e what h sql left (usleep 10000 ∷ sqlite3_prepare_v2 h sql ∷ t) r stmt u
    → Prepares e what h sql (suc left) t r stmt u
prepared_on e what h sql left t _ _ _ failed (ready _ n _ u le fails ok) =
    ready (suc left) (suc n) t u (omega (arith, le)) (failed_try n t u failed fails) ok
prepared_on e what h sql left t _ _ _ failed (refused _ _ u fails last) =
    refused (suc left) t u (failed_try left t u failed fails) last

stepped_on :
    (e : Env) (what : Bytes) (sql : Bytes) (stmt left : ℕ) (t : Trace) (o : Stepped) (u : Trace)
    → eq_ℤ (e.ret (sqlite3_step stmt ∷ t)) sqlite_row ≡ false
    → eq_ℤ (e.ret (sqlite3_step stmt ∷ t)) sqlite_done ≡ false
    → Steps e what sql stmt left (usleep 10000 ∷ sqlite3_step stmt ∷ t) o u
    → Steps e what sql stmt (suc left) t o u
stepped_on e what sql stmt left t _ _ miss more (at_row _ n _ u le fails got) =
    at_row (suc left) (suc n) t u (omega (arith, le)) (failed_step n t u miss more fails) got
stepped_on e what sql stmt left t _ _ miss more (at_end _ n _ u le fails got) =
    at_end (suc left) (suc n) t u (omega (arith, le)) (failed_step n t u miss more fails) got
stepped_on e what sql stmt left t _ _ miss more (used_up _ _ u fails a b) =
    used_up (suc left) t u (failed_step left t u miss more fails) a b

module _ (e : Env) where
  prepare_loop-Prepares :
      (what : Bytes) (left h : ℕ) (sql : Bytes) (t : Trace)
      → Ends
          (λ (r, stmt) t'. Prepares e what h sql left t r stmt t')
          (prepare_loop what left h sql e t)
  unfolding prepare_loop pure ◌>>=◌ and_then call call_ret_out
  prepare_loop-Prepares what zero h sql t =
      elim (Bool-cases (is_zero (e.ret (sqlite3_prepare_v2 h sql ∷ t)))) [
        | inl ok ↦ rw ok (Ends-of _ (ready 0 0 t t (omega arith) (no_try t) ok))
        | inr failed ↦ rw failed (Ends-of _ (refused 0 t t (no_try t) failed))
      ]
  prepare_loop-Prepares what (suc left) h sql t =
      elim (Bool-cases (is_zero (e.ret (sqlite3_prepare_v2 h sql ∷ t)))) [
        | inl ok ↦ rw ok (Ends-of _ (ready (suc left) 0 t t (omega arith) (no_try t) ok))
        | inr failed ↦ rw failed (
            mono
              (prepare_loop-Prepares what left h sql (usleep 10000 ∷ sqlite3_prepare_v2 h sql ∷ t))
              λ (r, stmt) u o. prepared_on e what h sql left t r stmt u failed o)
      ]

  step_loop-Steps :
      (what sql : Bytes) (left stmt : ℕ) (t : Trace)
      → Ends (λ o t'. Steps e what sql stmt left t o t') (step_loop what sql left stmt e t)
  unfolding step_loop pure ◌>>=◌ and_then call call_ret
  step_loop-Steps what sql zero stmt t =
      elim (Bool-cases (eq_ℤ (e.ret (sqlite3_step stmt ∷ t)) sqlite_row)) [
        | inl got ↦ rw got (Ends-of _ (at_row 0 0 t t (omega arith) (no_step t) got))
        | inr miss ↦ rw miss (elim (Bool-cases (eq_ℤ (e.ret (sqlite3_step stmt ∷ t)) sqlite_done)) [
          | inl end ↦ rw end (Ends-of _ (at_end 0 0 t t (omega arith) (no_step t) end))
          | inr more ↦ rw more (Ends-of _ (used_up 0 t t (no_step t) miss more))
        ])
      ]
  step_loop-Steps what sql (suc left) stmt t =
      elim (Bool-cases (eq_ℤ (e.ret (sqlite3_step stmt ∷ t)) sqlite_row)) [
        | inl got ↦ rw got (Ends-of _ (at_row (suc left) 0 t t (omega arith) (no_step t) got))
        | inr miss ↦ rw miss (elim (Bool-cases (eq_ℤ (e.ret (sqlite3_step stmt ∷ t)) sqlite_done)) [
          | inl end ↦ rw end (Ends-of _ (at_end (suc left) 0 t t (omega arith) (no_step t) end))
          | inr more ↦ rw more (
              mono (step_loop-Steps what sql left stmt (usleep 10000 ∷ sqlite3_step stmt ∷ t))
                λ o u k. stepped_on e what sql stmt left t o u miss more k)
        ])
      ]

  query_stepped-Outcome :
      (h : ℕ) (sql : Bytes) (stmt : ℕ) (o : Stepped) (t t₁ t₂ : Trace)
      → Prepares e prepare_what h sql 199 t (pos 0) stmt t₁
      → Steps e step_what sql stmt 199 t₁ o t₂
      → Ends (λ (r, stmt', cnt) t'. Outcome e h sql t r stmt' cnt t') (query_stepped stmt o e t₂)
  unfolding query_stepped pure ◌>>=◌ and_then call_ret
  query_stepped-Outcome h sql stmt row t t₁ t₂ p s = Ends-of _ (has_record stmt t₁ t₂ p s)
  query_stepped-Outcome h sql stmt no_row t t₁ t₂ p s = Ends-of _ (no_record stmt t₁ t₂ p s)
  query_stepped-Outcome h sql stmt (gave_up r) t t₁ t₂ p s =
      Ends-of _ (step_failed r stmt t₁ t₂ p s)

  Prepares-result :
      (what : Bytes) (h : ℕ) (sql : Bytes) (left : ℕ) (t : Trace) (r : ℤ) (stmt : ℕ) (t₁ : Trace)
      → Prepares e what h sql left t r stmt t₁
      → (r ≡ pos 0) ⊎ (r ≡ minus_one)
  Prepares-result what h sql left t _ _ _ (ready _ n _ u le fails ok) = inl refl
  Prepares-result what h sql left t _ _ _ (refused _ _ u fails last) = inr refl

  -- What `sqlite_query_record` answers on a live connection, with all the calls that it made: 0 and a
  -- row, or 1 if there is none, both of a statement that was prepared within 200 tries and stepped within
  -- 200; -1 if 200 tries to prepare it failed; and the code of the last step if 200 of them failed.
  pub sqlite_query_record-Outcome :
      (h : ℕ) (sql : Bytes) (t : Trace)
      → (h == 0) ≡ false
      → Ends
          (λ (r, stmt, cnt) t'. Outcome e h sql t r stmt cnt t')
          (sqlite_query_record h (some sql) e t)
  unfolding sqlite_query_record
  sqlite_query_record-Outcome h sql t live = rw live (
      bind _ _ (prepare_loop-Prepares prepare_what (sqlite_opt_cnt - 1) h sql t) λ (r, stmt) t₁ p.
        elim (Prepares-result prepare_what h sql 199 t r stmt t₁ p) [
          | inl ok ↦ rw ok (
              bind _ _ (step_loop-Steps step_what sql (sqlite_opt_cnt - 1) stmt t₁)
                λ o t₂ s. query_stepped-Outcome h sql stmt o t t₁ t₂ (rw ok at p) s)
          | inr failed ↦ rw failed (pure-Ends e t₁ _ (not_prepared stmt t₁ (rw failed at p)))
        ])
