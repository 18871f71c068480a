-- ===== src/Msdb/Course.antt =====
-- The calls of a write function on a system where nothing fails.
use build_project.Prelude.{
  ℕ, suc, ℤ, pos, negsuc, is_negative, eq_ℤ, minus_one, false, some, Bytes, ◌≡◌, refl, ◌==◌, ◌∷◌,
  arith,
}
use build_project.Sys.{
  Trace, Env, done, pure, ◌>>=◌, and_then, call, call_ret, call_ret_out, call_ret_text, open_file,
  rwlock_wrlock, rwlock_unlock, lockf_lock, lockf_unlock, close_file, sqlite3_open,
  sqlite3_busy_handler, sqlite3_exec, sqlite3_close,
}
use build_project.Ccsqlite.{sqlite_conn, sqlite_disconn, sqlite_execute, exec_loop}
use build_project.Msdb.{
  write_mode, file_lock_name, file_lock, file_unlock, finish, run_update, execute,
}

-- The lock file and the database open, statements are executed at once, and connections close.
pub record Works (e : Env) : Type 0 where
  pub locks : (path : Bytes) (t : Trace) → is_negative (e.ret (open_file path ∷ t)) ≡ false
  pub opens : (db : Bytes) (t : Trace) → e.ret (sqlite3_open db ∷ t) ≡ pos 0
  pub connects : (db : Bytes) (t : Trace) → (e.out (sqlite3_open db ∷ t) == 0) ≡ false
  pub executes : (h : ℕ) (sql : Bytes) (t : Trace) → e.ret (sqlite3_exec h sql ∷ t) ≡ pos 0
  pub closes : (h : ℕ) (t : Trace) → e.ret (sqlite3_close h ∷ t) ≡ pos 0

-- The history after a write from the history `t`, the latest call first: the file lock and the write
-- lock, the connection, the statement, and all of it given back in the other order, but for the
-- read-write lock, which is given back before the lock on the file.
abbrev pub update_course : Env → Bytes → Bytes → Trace → Trace
update_course e db sql t =
    let t₁ = open_file file_lock_name ∷ t in
    let fd = e.ret t₁ in
    let t₂ = sqlite3_open db ∷ lockf_lock fd ∷ rwlock_wrlock ∷ t₁ in
    let h = e.out t₂ in
    close_file fd
    ∷ lockf_unlock fd
    ∷ rwlock_unlock
    ∷ sqlite3_close h
    ∷ sqlite3_exec h sql
    ∷ sqlite3_busy_handler h
    ∷ t₂

not_minus_one : (z : ℤ) → is_negative z ≡ false → eq_ℤ z minus_one ≡ false
not_minus_one (pos n) h = refl
not_minus_one (negsuc n) h = absurd (ground arith)

module _ (e : Env) (works : Works e) where
  pub file_lock-course :
      (path : Bytes) (t : Trace)
      → file_lock (some path) write_mode e t
        ≡ done
            (e.ret (open_file path ∷ t))
            (lockf_lock (e.ret (open_file path ∷ t)) ∷ rwlock_wrlock ∷ open_file path ∷ t)
  unfolding file_lock pure ◌>>=◌ and_then call call_ret
  file_lock-course path t = rw (not_minus_one _ (works.locks path t)) refl

  pub sqlite_conn-course :
      (db : Bytes) (t : Trace)
      → sqlite_conn (some db) e t
        ≡ done
            (pos 0, e.out (sqlite3_open db ∷ t))
            (sqlite3_busy_handler (e.out (sqlite3_open db ∷ t)) ∷ sqlite3_open db ∷ t)
  unfolding sqlite_conn pure ◌>>=◌ and_then call call_ret_out
  sqlite_conn-course db t = rw (works.opens db t) refl

  pub execute-course :
      (fuel : ℕ) (sql : Bytes) (h : ℕ) (t : Trace)
      → (h == 0) ≡ false
      → execute (suc fuel) sql h e t ≡ done tt (sqlite3_exec h sql ∷ t)
  unfolding execute sqlite_execute exec_loop pure ◌>>=◌ and_then call_ret_text
  execute-course fuel sql h t live = rw (live, works.executes h sql t) refl

  finish-course :
      (fd : ℤ) (h : ℕ) (r : ℤ) (t : Trace)
      → is_negative fd ≡ false
      → (h == 0) ≡ false
      → finish fd h r e t
        ≡ done r (close_file fd ∷ lockf_unlock fd ∷ rwlock_unlock ∷ sqlite3_close h ∷ t)
  unfolding finish sqlite_disconn file_unlock pure ◌>>=◌ and_then call call_ret
  finish-course fd h r t locked live = rw (live, works.closes h t, locked) refl

  -- A write executes its statement once, inside the locks and the connection, and answers 0.
  pub run_update-course :
      (fuel : ℕ) (db sql : Bytes) (t : Trace)
      → run_update db (execute (suc fuel) sql) e t ≡ done (pos 0) (update_course e db sql t)
  unfolding run_update ◌>>=◌ and_then
  run_update-course fuel db sql t = rw (file_lock-course file_lock_name t) (
      rw (sqlite_conn-course db _) (
        rw (execute-course fuel sql _ _ (works.connects db _))
          (finish-course _ _ (pos 0) _ (works.locks file_lock_name t) (works.connects db _))))
