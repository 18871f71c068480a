-- ===== src/Sys/Monitor.antt =====
-- What the calls of a history have acquired and not yet given back.
use build_project.Prelude.{
  ℕ, ℤ, pos, negsuc, Bool, true, false, ◌&&◌, not, List, [], ◌∷◌, is_zero, ◌==◌, eq_ℤ,
  if◌then◌else◌, Bytes, ◌≡◌, is_negative, minus_one, ◌⊎◌,
}
use build_project.Sys.{
  Call, Trace, Env, open_file, rwlock_rdlock, rwlock_wrlock, rwlock_unlock, lockf_lock,
  lockf_unlock, close_file, sqlite3_open, sqlite3_busy_handler, sqlite3_close, sqlite3_exec,
  sqlite3_prepare_v2, sqlite3_step, sqlite3_finalize, sqlite3_column_count, sqlite3_column_name,
  sqlite3_column_int, sqlite3_column_double, sqlite3_column_text, sqlite3_column_blob,
  sqlite3_column_bytes, sqlite3_bind_blob,
}

-- `fd`: the open lock file (-1 for none); `rwlock`, `flock`: the locks held; `conn`, `stmt`: the
-- live connection and statement (0 for none); `lost`: connections of failed opens, which nobody
-- can close any more; `bad`: a call was made that the state does not allow.
pub record Held : Type 0 where
  pub fd : ℤ
  pub rwlock : Bool
  pub flock : Bool
  pub conn : ℕ
  pub stmt : ℕ
  pub lost : List ℕ
  pub bad : Bool

abbrev pub idle : List ℕ → Held
idle lost = record {
  fd = negsuc 0;
  rwlock = false;
  flock = false;
  conn = 0;
  stmt = 0;
  lost = lost;
  bad = false;
}

-- Between the lock and the unlock of the file `fd`, whether or not that file could be opened; `rw`
-- says that the read-write lock is part of the lock.
abbrev pub using : Bool → ℤ → ℕ → ℕ → List ℕ → Held
using rw fd conn stmt lost = record {
  fd = fd;
  rwlock = rw && not (is_negative fd);
  flock = not (is_negative fd);
  conn = conn;
  stmt = stmt;
  lost = lost;
  bad = false;
}

-- The state after a call that needs the test to hold.
abbrev needs : Bool → Held → Held
needs true s = s
needs false s = record s { bad = true }

-- A call on a live statement.
abbrev on_stmt : ℕ → Held → Held
on_stmt p s = needs (p == s.stmt && not (p == 0)) s

-- The handle of a failed open, if there is one, is lost.
abbrev pub lose : ℕ → List ℕ → List ℕ
lose p lost = if p == 0 then lost else p ∷ lost

abbrev pub observe : Call → ℤ → ℕ → Held → Held
observe (open_file path) r p s = needs (eq_ℤ s.fd (negsuc 0)) (record s { fd = r })
observe rwlock_rdlock r p s = needs (not s.rwlock) (record s { rwlock = true })
observe rwlock_wrlock r p s = needs (not s.rwlock) (record s { rwlock = true })
observe rwlock_unlock r p s = needs s.rwlock (record s { rwlock = false })
observe (lockf_lock fd) r p s = needs (eq_ℤ fd s.fd && not s.flock) (record s { flock = true })
observe (lockf_unlock fd) r p s = needs (eq_ℤ fd s.fd && s.flock) (record s { flock = false })
observe (close_file fd) r p s = needs (eq_ℤ fd s.fd && not s.flock) (record s { fd = negsuc 0 })
observe (sqlite3_open path) r p s =
    needs (s.conn == 0)
      (if is_zero r then record s { conn = p } else record s { lost = lose p s.lost })
observe (sqlite3_busy_handler h) r p s = needs (h == s.conn) s
-- A connection with a live statement is not closed by SQLite.
observe (sqlite3_close h) r p s =
    needs (h == s.conn && not (h == 0) && s.stmt == 0)
      (if is_zero r then record s { conn = 0 } else s)
observe (sqlite3_exec h sql) r p s = needs (h == s.conn && not (h == 0)) s
observe (sqlite3_prepare_v2 h sql) r p s =
    needs (h == s.conn && not (h == 0) && s.stmt == 0)
      (if is_zero r then record s { stmt = p } else s)
-- SQLite answers SQLITE_MISUSE for a NULL statement.
observe (sqlite3_step p) r q s = needs (p == s.stmt) s
observe (sqlite3_finalize p) r q s = needs (p == s.stmt && not (p == 0)) (record s { stmt = 0 })
-- SQLite answers 0 for a NULL statement.
observe (sqlite3_column_count p) r q s = needs (p == s.stmt) s
observe (sqlite3_column_name p i) r q s = on_stmt p s
observe (sqlite3_column_int p i) r q s = on_stmt p s
observe (sqlite3_column_double p i) r q s = on_stmt p s
observe (sqlite3_column_text p i) r q s = on_stmt p s
observe (sqlite3_column_blob p i) r q s = on_stmt p s
observe (sqlite3_column_bytes p i) r q s = on_stmt p s
observe (sqlite3_bind_blob p i d n) r q s = on_stmt p s
observe c r p s = s

unfoldable pub held : Env → Trace → Held
held e [] = idle []
held e (c ∷ t) = observe c (e.ret (c ∷ t)) (e.out (c ∷ t)) (held e t)

-- What the system documents and the code relies on: `open` answers -1 or a descriptor, a failed
-- prepare stores NULL, and SQLite closes a connection that has no live statement.
pub record IsDocumented (e : Env) : Type 0 where
  pub open_range :
      (path : Bytes) (t : Trace)
      → is_negative (e.ret (open_file path ∷ t)) ≡ true
      → e.ret (open_file path ∷ t) ≡ minus_one
  pub prepare_null :
      (h : ℕ) (sql : Bytes) (t : Trace)
      → is_zero (e.ret (sqlite3_prepare_v2 h sql ∷ t)) ≡ false
      → e.out (sqlite3_prepare_v2 h sql ∷ t) ≡ 0
  pub close_ok :
      (h : ℕ) (t : Trace)
      → (held e t).conn ≡ h
      → (held e t).stmt ≡ 0
      → e.ret (sqlite3_close h ∷ t) ≡ pos 0

-- Nothing is held, no call was out of place, and the connections of failed opens that are lost are
-- those of `lost`.
pub record IsIdle (lost : List ℕ) (s : Held) : Type 0 where
  pub fd_closed : s.fd ≡ minus_one
  pub rwlock_free : s.rwlock ≡ false
  pub flock_free : s.flock ≡ false
  pub conn_closed : s.conn ≡ 0
  pub stmt_closed : s.stmt ≡ 0
  pub in_order : s.bad ≡ false
  pub same_lost : s.lost ≡ lost

-- All is given back, or all but the connection `h` of one open that failed.
abbrev pub GivenBack : List ℕ → Held → Type 0
GivenBack lost s = IsIdle lost s ⊎ (h : ℕ) × ((h == 0) ≡ false) × IsIdle (h ∷ lost) s
