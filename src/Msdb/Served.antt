-- ===== src/Msdb/Served.antt =====
-- What a query gives back: what its rows were read as, or the failure value.
use build_project.Prelude.{
  ℕ, zero, suc, ℤ, pos, is_zero, Bool, true, false, ◌&&◌, Option, none, some, ◌∷◌, Bytes, ◌≡◌, refl,
  ◌⊎◌, inl, inr, ◌==◌, arith, Bool-cases,
}
use build_project.Sys.{
  Trace, Env, M, pure, and_then, ◌>>=◌, call, call_ret, call_ret_out, sqlite3_step, sqlite3_open,
  sqlite3_prepare_v2, sqlite3_column_count,
}
use build_project.Sys.Ends.{Ends, Ends-of, bind, mono, pure-Ends}
use build_project.Ccsqlite.{
  sqlite_row, row, sqlite_conn, sqlite_disconn, sqlite_clear_stmt, sqlite_query_next, prepare_loop,
  step_loop, sqlite_query_record,
}
use build_project.Ccsqlite.Query.{sqlite_query_record-Outcome}
use build_project.Msdb.{
  Mode, file_lock, file_unlock, misses, finish, clear_if_any, queried, run_query,
}

-- The database opens, a statement is prepared, and it has a row with at least one column.
pub record Finds (e : Env) : Type 0 where
  pub opens : (db : Bytes) (t : Trace) → e.ret (sqlite3_open db ∷ t) ≡ pos 0
  pub connects : (db : Bytes) (t : Trace) → (e.out (sqlite3_open db ∷ t) == 0) ≡ false
  pub prepares : (h : ℕ) (sql : Bytes) (t : Trace) → e.ret (sqlite3_prepare_v2 h sql ∷ t) ≡ pos 0
  pub states :
      (h : ℕ) (sql : Bytes) (t : Trace) → (e.out (sqlite3_prepare_v2 h sql ∷ t) == 0) ≡ false
  pub steps : (stmt : ℕ) (t : Trace) → e.ret (sqlite3_step stmt ∷ t) ≡ sqlite_row
  pub counts : (stmt : ℕ) (t : Trace) → is_zero (e.ret (sqlite3_column_count stmt ∷ t)) ≡ false

and_false : (b : Bool) → (b && false) ≡ false
and_false true = refl
and_false false = refl

-- The parts of a session always return.
module _ (e : Env) where
  file_lock-Ends :
      (path : Option Bytes) (mode : Mode) (t : Trace)
      → Ends (λ _ _. Unit {0}) (file_lock path mode e t)
  unfolding file_lock pure ◌>>=◌ and_then call call_ret
  file_lock-Ends none mode t = Ends-of _ (ground arith)
  file_lock-Ends (some path) mode t = Ends-of _ (ground arith)

  file_unlock-Ends : (fd : ℤ) (t : Trace) → Ends (λ _ _. Unit {0}) (file_unlock fd e t)
  unfolding file_unlock pure ◌>>=◌ and_then call
  file_unlock-Ends fd t = Ends-of _ (ground arith)

  sqlite_conn-Ends :
      (path : Option Bytes) (t : Trace) → Ends (λ _ _. Unit {0}) (sqlite_conn path e t)
  unfolding sqlite_conn pure ◌>>=◌ and_then call call_ret_out
  sqlite_conn-Ends none t = Ends-of _ (ground arith)
  sqlite_conn-Ends (some path) t = Ends-of _ (ground arith)

  sqlite_disconn-Ends : (h : ℕ) (t : Trace) → Ends (λ _ _. Unit {0}) (sqlite_disconn h e t)
  unfolding sqlite_disconn pure ◌>>=◌ and_then call call_ret
  sqlite_disconn-Ends h t = Ends-of _ (ground arith)

  sqlite_clear_stmt-Ends :
      (stmt : ℕ) (t : Trace) → Ends (λ _ _. Unit {0}) (sqlite_clear_stmt stmt e t)
  unfolding sqlite_clear_stmt pure ◌>>=◌ and_then call
  sqlite_clear_stmt-Ends stmt t = Ends-of _ (ground arith)

  pub sqlite_query_next-Ends :
      (stmt : ℕ) (t : Trace) → Ends (λ _ _. Unit {0}) (sqlite_query_next stmt e t)
  unfolding sqlite_query_next pure ◌>>=◌ and_then call call_ret
  sqlite_query_next-Ends stmt t = Ends-of _ (ground arith)

  clear_if_any-Ends : (stmt : ℕ) (t : Trace) → Ends (λ _ _. Unit {0}) (clear_if_any stmt e t)
  unfolding clear_if_any sqlite_clear_stmt pure ◌>>=◌ and_then call
  clear_if_any-Ends stmt t = Ends-of _ (ground arith)

  finish-Ends :
      {A : Type 0} (fd : ℤ) (conn : ℕ) (a : A) (t : Trace)
      → Ends (λ a' _. a' ≡ a) (finish fd conn a e t)
  unfolding finish
  finish-Ends fd conn a t =
      bind _ _ (sqlite_disconn-Ends conn t)
        λ _ t₁ _. bind _ _ (file_unlock-Ends fd t₁) λ _ t₂ _. pure-Ends e t₂ a refl

  sqlite_query_record-Ends :
      (h : ℕ) (sql : Bytes) (t : Trace)
      → Ends (λ _ _. Unit {0}) (sqlite_query_record h (some sql) e t)
  sqlite_query_record-Ends h sql t = elim (Bool-cases (h == 0)) [
    | inl none' ↦
        unfold sqlite_query_record in (rw none' (Ends-of _ (unfold pure ◌>>=◌ and_then call in tt)))
    | inr live ↦ mono (sqlite_query_record-Outcome e h sql t live) λ o u k. tt
  ]

  -- Whatever SQLite does, a query gives back what `rows` makes of a statement, or `unopened`
  -- or `failed`.
  pub run_query-either :
      {A : Type 0} {P : A → Type 0} (db sql : Bytes) (check : Bool) (rows : ℕ → M A)
      (unopened failed : A) (t : Trace)
      → ((stmt : ℕ) (u : Trace) → Ends (λ a _. P a) (rows stmt e u))
      → Ends
          (λ a _. P a ⊎ ((a ≡ unopened) ⊎ (a ≡ failed)))
          (run_query db sql check rows unopened failed e t)
  unfolding run_query queried
  run_query-either db sql check rows unopened failed t good =
      bind _ _ (file_lock-Ends _ _ t) λ fd t₁ _.
        bind _ _ (sqlite_conn-Ends (some db) t₁) λ (r, conn) t₂ _. elim (Bool-cases (is_zero r)) [
          | inr bad ↦
              rw bad (
                bind _ _ (file_unlock-Ends fd t₂)
                  λ _ t₃ _. pure-Ends e t₃ unopened (inr (inl refl)))
          | inl ok ↦ rw ok (
              bind _ _ (sqlite_query_record-Ends conn sql t₂) λ (r', stmt, cnt) t₃ _.
                elim (Bool-cases (misses check r' cnt)) [
                  | inl miss ↦ rw miss (
                      bind _ _ (clear_if_any-Ends stmt t₃)
                        λ _ t₄ _. mono (finish-Ends fd conn failed t₄) λ a u k. inr (inr k))
                  | inr hit ↦ rw hit (
                      bind _ _ (good stmt t₃) λ a t₄ p.
                        bind _ _ (sqlite_clear_stmt-Ends stmt t₄)
                          λ _ t₅ _. mono (finish-Ends fd conn a t₅) λ a' u k. inl (rw k p))
                ])
        ]

  -- The same if the two are one value.
  pub run_query_one-either :
      {A : Type 0} {P : A → Type 0} (db sql : Bytes) (check : Bool) (rows : ℕ → M A) (failed : A)
      (t : Trace)
      → ((stmt : ℕ) (u : Trace) → Ends (λ a _. P a) (rows stmt e u))
      → Ends (λ a _. P a ⊎ (a ≡ failed)) (run_query db sql check rows failed failed e t)
  run_query_one-either db sql check rows failed t good =
      mono (run_query-either db sql check rows failed failed t good) λ a u o. elim o [
        | inl fine ↦ inl fine
        | inr (inl same) ↦ inr same
        | inr (inr same) ↦ inr same
      ]

  module _ (finds : Finds e) where
    sqlite_conn-found :
        (db : Bytes) (t : Trace)
        → Ends (λ (r, h) _. (r ≡ pos 0) × ((h == 0) ≡ false)) (sqlite_conn (some db) e t)
    unfolding sqlite_conn pure ◌>>=◌ and_then call call_ret_out
    sqlite_conn-found db t = Ends-of _ (ground (arith, finds.opens db t, finds.connects db t))

    prepare_loop-found :
        (what : Bytes) (left h : ℕ) (sql : Bytes) (t : Trace)
        → Ends
            (λ (r, stmt) _. (r ≡ pos 0) × ((stmt == 0) ≡ false))
            (prepare_loop what left h sql e t)
    unfolding prepare_loop pure ◌>>=◌ and_then call call_ret_out
    prepare_loop-found what zero h sql t =
        rw (finds.prepares h sql t) (Ends-of _ (refl, finds.states h sql t))
    prepare_loop-found what (suc left) h sql t =
        rw (finds.prepares h sql t) (Ends-of _ (refl, finds.states h sql t))

    step_loop-found :
        (what sql : Bytes) (left stmt : ℕ) (t : Trace)
        → Ends (λ o _. o ≡ row) (step_loop what sql left stmt e t)
    unfolding step_loop pure ◌>>=◌ and_then call call_ret
    step_loop-found what sql zero stmt t = rw (finds.steps stmt t) (Ends-of _ refl)
    step_loop-found what sql (suc left) stmt t = rw (finds.steps stmt t) (Ends-of _ refl)

    count-found :
        (stmt : ℕ) (t : Trace)
        → Ends (λ cnt _. is_zero cnt ≡ false) (call_ret (sqlite3_column_count stmt) e t)
    unfolding call_ret
    count-found stmt t = Ends-of _ (finds.counts stmt t)

    sqlite_query_record-found :
        (h : ℕ) (sql : Bytes) (t : Trace)
        → (h == 0) ≡ false
        → Ends
            (λ (r, stmt, cnt) _. (r ≡ pos 0) × ((stmt == 0) ≡ false) × (is_zero cnt ≡ false))
            (sqlite_query_record h (some sql) e t)
    unfolding sqlite_query_record
    sqlite_query_record-found h sql t live = rw live (
        bind _ _ (prepare_loop-found _ _ h sql t) λ (r, stmt) t₁ (ok, live'). rw ok (
          bind _ _ (step_loop-found _ _ _ stmt t₁) λ o t₂ got.
            rw got (
              bind _ _ (count-found stmt t₂)
                λ cnt t₃ some'. pure-Ends e t₃ _ (refl, live', some'))))

    -- If SQLite finds a row, a query gives back what `rows` makes of it.
    pub run_query-found :
        {A : Type 0} {P : A → Type 0} (db sql : Bytes) (check : Bool) (rows : ℕ → M A)
        (unopened failed : A) (t : Trace)
        → ((stmt : ℕ) (u : Trace) → (stmt == 0) ≡ false → Ends (λ a _. P a) (rows stmt e u))
        → Ends (λ a _. P a) (run_query db sql check rows unopened failed e t)
    unfolding run_query queried
    run_query-found db sql check rows unopened failed t good =
        bind _ _ (file_lock-Ends _ _ t) λ fd t₁ _.
          bind _ _ (sqlite_conn-found db t₁) λ (r, conn) t₂ (ok, live). rw ok (
            bind _ _ (sqlite_query_record-found conn sql t₂ live)
              λ (r', stmt, cnt) t₃ (ok', live', some').
                rw (ok', some', and_false check)
                  (bind _ _ (good stmt t₃ live') λ a t₄ p.
                    bind _ _ (sqlite_clear_stmt-Ends stmt t₄)
                      λ _ t₅ _. mono (finish-Ends fd conn a t₅) λ a' u k. rw k p))
