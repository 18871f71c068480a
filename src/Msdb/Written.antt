-- ===== src/Msdb/Written.antt =====
-- What a write function answers, and how often it tries.
use build_project.Prelude.{
  true, sym, ap, ◌∙◌, ℕ, ◌+◌, ◌≤◌, ℤ, pos, minus_one, is_zero, false, Option, none, some, Bytes,
  ◌≡◌, refl, ◌⊎◌, inl, inr, ◌==◌, arith, Bool-cases, ◌∷◌,
}
use build_project.Sys.{
  Trace, Env, M, pure, ◌>>=◌, and_then, call, call_ret, call_ret_out, sqlite3_open, sqlite3_exec,
}
use build_project.Sys.Ends.{Ends, Ends-of, bind, mono, pure-Ends}
use build_project.Ccsqlite.{sqlite_opt_cnt, sqlite_conn, sqlite_disconn, sqlite_execute, is_locked}
use build_project.Ccsqlite.Execute.{
  execs, last_open, NeverLocked, sqlite_execute-Tried, sqlite_execute-refused,
}
use build_project.Msdb.{Mode, file_lock, lock_failed, file_unlock, finish, run_update, execute}

-- The database opens, and every try to execute a statement fails, but not by a lock.
pub record Refuses (e : Env) : Type 0 where
  pub opens : (db : Bytes) (t : Trace) → e.ret (sqlite3_open db ∷ t) ≡ pos 0
  pub connects : (db : Bytes) (t : Trace) → (e.out (sqlite3_open db ∷ t) == 0) ≡ false
  pub fails : (h : ℕ) (sql : Bytes) (t : Trace) → is_zero (e.ret (sqlite3_exec h sql ∷ t)) ≡ false
  pub unlocked :
      (h : ℕ) (sql : Bytes) (t : Trace) → is_locked (e.text (sqlite3_exec h sql ∷ t)) ≡ false

-- The run leaves the number of executed statements and the last open alone.
abbrev ExecutesNone : {A : Type 0} → Env → Trace → M A → Type 0
ExecutesNone e t m = Ends (λ _ t'. (execs t' ≡ execs t) × (last_open t' ≡ last_open t)) (m e t)

-- The answer of a write, with the history `u` at its open: -1 if the open failed, with no statement
-- tried; or 0 if it did not, and then behind at least one try, unless the handle is NULL, and at most 200.
abbrev pub Answers : Env → Trace → M ℤ → Type 0
Answers e t m =
    Ends
      (λ r t'.
        (u : Trace) × (last_open t' ≡ some u)
        × ((r ≡ minus_one) × (is_zero (e.ret u) ≡ false) × (execs t' ≡ execs t)
            ⊎ (r ≡ pos 0)
              × (is_zero (e.ret u) ≡ true)
              × (execs t' ≤ execs t + sqlite_opt_cnt)
              × (((e.out u == 0) ≡ true) ⊎ (execs t + 1 ≤ execs t'))))
      (m e t)

-- The answer of a write that SQLite refuses: 0, after 200 tries.
abbrev pub Refused : Env → Trace → M ℤ → Type 0
Refused e t m = Ends (λ r t'. (r ≡ pos 0) × (execs t' ≡ execs t + sqlite_opt_cnt)) (m e t)

module _ (e : Env) where
  file_lock-execs :
      (path : Option Bytes) (mode : Mode) (t : Trace) → ExecutesNone e t (file_lock path mode)
  unfolding file_lock lock_failed pure ◌>>=◌ and_then call call_ret
  file_lock-execs none mode t = Ends-of _ (ground arith)
  file_lock-execs (some path) mode t = Ends-of _ (ground arith)

  file_unlock-execs : (fd : ℤ) (t : Trace) → ExecutesNone e t (file_unlock fd)
  unfolding file_unlock pure ◌>>=◌ and_then call
  file_unlock-execs fd t = Ends-of _ (ground arith)

  -- The open is the last one, and its answers are what sqlite_conn makes its own of.
  sqlite_conn-execs :
      (path : Bytes) (t : Trace)
      → Ends
          (λ (r, h) t'.
            (execs t' ≡ execs t)
            × (last_open t' ≡ some (sqlite3_open path ∷ t))
            × (is_zero r ≡ is_zero (e.ret (sqlite3_open path ∷ t)))
            × (h ≡ e.out (sqlite3_open path ∷ t)))
          (sqlite_conn (some path) e t)
  unfolding sqlite_conn pure ◌>>=◌ and_then call call_ret_out
  sqlite_conn-execs path t = elim (Bool-cases (is_zero (e.ret (sqlite3_open path ∷ t)))) [
    | inl ok ↦ rw (ok) (Ends-of _ (refl, refl, refl, refl))
    | inr bad ↦ rw (bad) (Ends-of _ (refl, refl, refl, refl))
  ]

  sqlite_disconn-execs : (h : ℕ) (t : Trace) → ExecutesNone e t (sqlite_disconn h)
  unfolding sqlite_disconn pure ◌>>=◌ and_then call call_ret
  sqlite_disconn-execs h t = Ends-of _ (ground arith)

  finish-execs :
      (fd : ℤ) (conn : ℕ) (r : ℤ) (t : Trace)
      → Ends
          (λ r' t'. (r' ≡ r) × (execs t' ≡ execs t) × (last_open t' ≡ last_open t))
          (finish fd conn r e t)
  unfolding finish
  finish-execs fd conn r t = bind _ _ (sqlite_disconn-execs conn t) λ _ t₁ (n₁, o₁).
      bind _ _ (file_unlock-execs fd t₁)
        λ _ t₂ (n₂, o₂). pure-Ends e t₂ r (refl, omega (arith, n₁, n₂), o₂ ∙ o₁)

  -- A statement is tried at least once, unless the connection is NULL, and at most 200 times.
  execute-execs :
      (fuel : ℕ) (sql : Bytes) (conn : ℕ) (t : Trace)
      → NeverLocked e
      → sqlite_opt_cnt ≤ fuel
      → Ends
          (λ _ t'.
            (execs t' ≤ execs t + sqlite_opt_cnt)
            × (((conn == 0) ≡ true) ⊎ (execs t + 1 ≤ execs t'))
            × (last_open t' ≡ last_open t))
          (execute fuel sql conn e t)
  unfolding execute
  execute-execs fuel sql conn t free enough = elim (Bool-cases (conn == 0)) [
    | inl null ↦
        unfold sqlite_execute pure ◌>>=◌ and_then call in
        rw null (Ends-of _ (omega arith, inl refl, refl))
    | inr live ↦
        bind _ _ (sqlite_execute-Tried e fuel conn sql t free enough live)
          λ r t₁ (o, more, tried). pure-Ends e t₁ tt (ground (arith, tried), inr more, o)
  ]

  pub run_update-Answers :
      (db : Bytes) (body : ℕ → M (Unit {0})) (t : Trace)
      → ((conn : ℕ) (u : Trace)
          → Ends
              (λ _ u'.
                (execs u' ≤ execs u + sqlite_opt_cnt)
                × (((conn == 0) ≡ true) ⊎ (execs u + 1 ≤ execs u'))
                × (last_open u' ≡ last_open u))
              (body conn e u))
      → Answers e t (run_update db body)
  unfolding run_update
  run_update-Answers db body t p = bind _ _ (file_lock-execs _ _ t) λ fd t₁ (n₁, o₁).
      bind _ _ (sqlite_conn-execs db t₁) λ (r, conn) t₂ (n₂, o₂, r_eq, h_eq).
        elim (Bool-cases (is_zero r)) [
          | inl ok ↦ rw ok (
              bind _ _ (p conn t₂) λ _ t₃ (n₃, more, o₃).
                mono (finish-execs fd conn (pos 0) t₃) λ r' t₄ (r'_eq, n₄, o₄). (
                  sqlite3_open db ∷ t₁,
                  o₄ ∙ o₃ ∙ o₂,
                  inr (
                    r'_eq,
                    sym r_eq ∙ ok,
                    omega (arith, n₁, n₂, n₃, n₄),
                    elim more [
                      | inl null ↦ inl (ap (λ h. h == 0) (sym h_eq) ∙ null)
                      | inr some_try ↦ inr (omega (arith, n₁, n₂, some_try, n₄))
                    ],
                  ),
                ))
          | inr bad ↦ rw bad (
              bind _ _ (file_unlock-execs fd t₂) λ _ t₃ (n₃, o₃). pure-Ends e t₃ minus_one (
                sqlite3_open db ∷ t₁,
                o₃ ∙ o₂,
                inl (refl, sym r_eq ∙ bad, omega (arith, n₁, n₂, n₃)),
              ))
        ]

  -- The same for one statement.
  pub run_update_one-Answers :
      (fuel : ℕ) (db sql : Bytes) (t : Trace)
      → NeverLocked e
      → sqlite_opt_cnt ≤ fuel
      → Answers e t (run_update db (execute fuel sql))
  run_update_one-Answers fuel db sql t free enough =
      run_update-Answers db (execute fuel sql) t λ conn u. execute-execs fuel sql conn u free enough

  module _ (refuses : Refuses e) where
    conn-refused :
        (path : Bytes) (t : Trace)
        → Ends
            (λ (r, h) t'. (r ≡ pos 0) × ((h == 0) ≡ false) × (execs t' ≡ execs t))
            (sqlite_conn (some path) e t)
    unfolding sqlite_conn pure ◌>>=◌ and_then call call_ret_out
    conn-refused path t = Ends-of _ (ground (arith, refuses.opens path t, refuses.connects path t))

    execute-refused :
        (fuel : ℕ) (sql : Bytes) (conn : ℕ) (t : Trace)
        → sqlite_opt_cnt ≤ fuel
        → (conn == 0) ≡ false
        → Ends (λ _ t'. execs t' ≡ execs t + sqlite_opt_cnt) (execute fuel sql conn e t)
    unfolding execute
    execute-refused fuel sql conn t enough live =
        bind _ _
          (sqlite_execute-refused e fuel conn sql t refuses.fails
            (λ h s u _. refuses.unlocked h s u) enough live)
          λ r t₁ (_, n₁). pure-Ends e t₁ tt n₁

    -- A write answers 0 although SQLite refused its statement 200 times.
    pub run_update-refused :
        (fuel : ℕ) (db sql : Bytes) (t : Trace)
        → sqlite_opt_cnt ≤ fuel
        → Ends
            (λ r t'. (r ≡ pos 0) × (execs t' ≡ execs t + sqlite_opt_cnt))
            (run_update db (execute fuel sql) e t)
    unfolding run_update
    run_update-refused fuel db sql t enough = bind _ _ (file_lock-execs _ _ t) λ fd t₁ (n₁, _).
        bind _ _ (conn-refused db t₁) λ (r, conn) t₂ (ok, live, n₂). rw ok (
          bind _ _ (execute-refused fuel sql conn t₂ enough live) λ _ t₃ n₃.
            mono (finish-execs fd conn (pos 0) t₃)
              λ r' t₄ (r_eq, n₄, _). (r_eq, omega (arith, n₁, n₂, n₃, n₄)))
