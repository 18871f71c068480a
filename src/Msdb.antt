-- ===== src/Msdb.antt =====
-- libs/msdb/msdb.c: the lock round every access, and the course that its functions share.
pub mod Held
pub mod Quote
pub mod Select
pub mod Served
pub mod Rows
pub mod Sessions
pub mod Writes
pub mod Course
pub mod Written
pub mod Outcomes
pub mod Osd
pub mod Motion
pub mod Reboot
pub mod Disk
pub mod Ddns
pub mod Pppoe
pub mod Upnp
pub mod Layout
pub mod Storage
pub mod Time
pub mod AudioIn
pub mod PtzSpeed
pub mod Holiday
pub mod PtzPort
pub mod Record
pub mod VideoLoss
pub mod AlarmOut
use build_project.Prelude.{
  ℕ, zero, suc, ◌+◌, ◌-◌, ◌%◌, ◌^◌, ltb, negsuc, ℤ, pos, minus_one, is_zero, is_negative, eq_ℤ,
  Bool, true, false, ◌&&◌, ◌||◌, not, Option, none, some, List, [], ◌∷◌, Bytes, codes, get_or, ◌==◌,
  if◌then◌else◌,
}
use build_project.Sys.{
  M, pure, ◌>>=◌, ◌>>◌, call, call_ret, open_file, rwlock_rdlock, rwlock_wrlock, rwlock_unlock,
  lockf_lock, lockf_unlock, close_file, system,
}
use build_project.Ccsqlite.{
  sqlite_conn, sqlite_disconn, sqlite_execute, sqlite_query_record, sqlite_query_next,
  sqlite_query_column, sqlite_query_column_double, sqlite_query_column_text, sqlite_clear_stmt,
}

pub data Mode : Type 0 where
  read_mode write_mode : Mode

abbrev rwlock_call : Mode → M (Unit {0})
rwlock_call read_mode = call rwlock_rdlock
rwlock_call write_mode = call rwlock_wrlock

-- FILE_LOCK_NAME
unfoldable pub file_lock_name : Bytes
file_lock_name = codes "/tmp/msdb.fl"

lock_failed : Bytes → M ℤ
lock_failed line = do call (system line); pure minus_one

-- FileLock: the descriptor of the lock file, or -1 with nothing locked.
unfoldable pub file_lock : Option Bytes → Mode → M ℤ
unfolding lock_failed
file_lock none mode =
    lock_failed (codes "echo \"===FileLock Faild===00===\" >> /mnt/nand/err_log.txt")
file_lock (some path) mode = do
  fd ← call_ret (open_file path)
  if eq_ℤ fd minus_one
      then lock_failed (codes "echo \"===FileLock Faild===11===\" >> /mnt/nand/err_log.txt")
      else do rwlock_call mode; call (lockf_lock fd); pure fd

-- FileUnlock
unfoldable pub file_unlock : ℤ → M (Unit {0})
file_unlock fd =
    if is_negative fd
    then pure tt
    else do call rwlock_unlock; call (lockf_unlock fd); call (close_file fd)

-- `if(hStmt) sqlite_clear_stmt(hStmt);`
unfoldable pub clear_if_any : ℕ → M (Unit {0})
clear_if_any stmt = if stmt == 0 then pure tt else do _ ← sqlite_clear_stmt stmt; pure tt

-- `sqlite_disconn(hConn); FileUnlock(nFd, &global_rwlock);`
unfoldable pub finish : {A : Type 0} → ℤ → ℕ → A → M A
finish fd conn a = do _ ← sqlite_disconn conn; file_unlock fd; pure a

-- The test behind the query: every function tests the result, and those with `check` test the count
-- of the columns, too.
abbrev pub misses : Bool → ℤ → ℤ → Bool
misses check r cnt = not (is_zero r) || check && is_zero cnt

-- The rest of a query once there is a connection: `rows` reads the rows of the statement, and
-- `failed` is what the function gives back if there is none.
queried : {A : Type 0} → ℤ → ℕ → Bytes → Bool → (ℕ → M A) → A → M A
queried fd conn sql check rows failed = do
  (r, stmt, cnt) ← sqlite_query_record conn (some sql)
  if misses check r cnt
      then (do clear_if_any stmt; finish fd conn failed)
      else do a ← rows stmt; _ ← sqlite_clear_stmt stmt; finish fd conn a

-- The course of a read function behind its guard; `unopened` is what it gives back if the database
-- does not open.
unfoldable pub run_query : {A : Type 0} → Bytes → Bytes → Bool → (ℕ → M A) → A → A → M A
unfolding queried
run_query db sql check rows unopened failed = do
  fd ← file_lock (some file_lock_name) read_mode
  (r, conn) ← sqlite_conn (some db)
  if is_zero r then queried fd conn sql check rows failed else do file_unlock fd; pure unopened

-- The course of a write function behind its guard: `body` executes its statements on the connection,
-- and what they answer is dropped.
unfoldable pub run_update : Bytes → (ℕ → M (Unit {0})) → M ℤ
run_update db body = do
  fd ← file_lock (some file_lock_name) write_mode
  (r, conn) ← sqlite_conn (some db)
  if is_zero r then (do body conn; finish fd conn (pos 0)) else do file_unlock fd; pure minus_one

-- `sqlite_execute(hConn, sExec);`
unfoldable pub execute : ℕ → Bytes → ℕ → M (Unit {0})
execute fuel sql conn = do _ ← sqlite_execute fuel conn (some sql); pure tt

-- A column into a field that holds `old`.
unfoldable pub int_column : ℕ → ℤ → ℤ → M ℤ
int_column stmt i old = do (_, v) ← sqlite_query_column stmt i old; pure v

-- An int read through `(int*)&field` into an unsigned field, and back.
abbrev pub u32 : ℤ → ℕ
u32 (pos n) = n % 2 ^ 32
u32 (negsuc n) = 2 ^ 32 - 1 - n % 2 ^ 32

abbrev pub i32 : ℕ → ℤ
i32 n = if ltb n (2 ^ 31) then pos n else negsuc (2 ^ 32 - 1 - n)

unfoldable pub uint_column : ℕ → ℤ → ℕ → M ℕ
uint_column stmt i old = do v ← int_column stmt i (i32 old); pure (u32 v)

unfoldable pub double_column : ℕ → ℤ → ℕ → M ℕ
double_column stmt i old = do (_, v) ← sqlite_query_column_double stmt i old; pure v

unfoldable pub text_column : ℕ → ℤ → Bytes → ℕ → M Bytes
text_column stmt i old size = do (_, v) ← sqlite_query_column_text stmt i old size; pure v

-- What a pointer to an array sees: a cell at each place. Which of them are the caller's is not known to
-- the code, which writes as many as its bound allows.
abbrev pub Array : Type 0 → Type 0
Array A = ℕ → A

abbrev pub store : {A : Type 0} → Array A → ℕ → A → Array A
store cells i x k = if k == i then x else cells k

-- `for(i=0; i<MAX; i++) { row; if(sqlite_query_next(hStmt) != 0){i++; break;} }` from `i` on, with `left`
-- rounds to go: the cells and the final `i`.
module _ {A : Type 0} (stmt : ℕ) (row : A → M A) where
  unfoldable pub rows_loop : ℕ → ℕ → Array A → M (Array A × ℕ)
  rows_loop zero i cells = pure (cells, i)
  rows_loop (suc left) i cells = do
    x ← row (cells i)
    r ← sqlite_query_next stmt
    if is_zero r then rows_loop left (i + 1) (store cells i x) else pure (store cells i x, i + 1)
