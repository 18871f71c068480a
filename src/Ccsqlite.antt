-- ===== src/Ccsqlite.antt =====
-- libs/msdb/ccsqlite.c: the wrappers round SQLite, with their retry loops. A handle is a number,
-- and 0 is NULL. Where every caller passes the address of a variable, the out argument is part of
-- the result and its NULL test is left out; the old value comes in where the code may keep it.
-- A line of the log has `%x` and `%s` for an address and for sqlite3_errmsg, which are not modelled.
pub mod Blob
pub mod Execute
pub mod Held
pub mod Query
use build_project.Prelude.{
  ℕ, zero, suc, ◌+◌, ◌-◌, ◌%◌, ℤ, pos, negsuc, minus_one, is_zero, is_negative, eq_ℤ, Bool, true,
  false, ◌&&◌, ◌||◌, Option, none, some, [], ◌∷◌, Bytes, codes, ◌++◌, fmt_d, snprintf, leb, ◌==◌,
  if◌then◌else◌,
}
use build_project.Sys.{
  M, pure, ◌>>=◌, ◌>>◌, call, call_ret, call_out, call_ret_out, call_ret_text, call_text,
  still_running, system, usleep, vsprintf, mslogerr, sqlite3_open, sqlite3_busy_handler,
  sqlite3_close, sqlite3_exec, sqlite3_free, sqlite3_prepare_v2, sqlite3_step, sqlite3_finalize,
  sqlite3_column_count, sqlite3_column_name, sqlite3_column_int, sqlite3_column_double,
  sqlite3_column_text,
}

-- SQLITE_OPT_CNT
abbrev pub sqlite_opt_cnt : ℕ
sqlite_opt_cnt = 200

-- The result codes SQLITE_ROW and SQLITE_DONE.
abbrev pub sqlite_row : ℤ
sqlite_row = pos 100

abbrev pub sqlite_done : ℤ
sqlite_done = pos 101

-- The line goes through a buffer of 1024 bytes, whatever its length: a longer one is written behind it.
abbrev pub sqlite_debug : Bytes → M (Unit {0})
sqlite_debug line = call (vsprintf 1024 line) >> call mslogerr

-- A line in the log, and a result.
abbrev pub invalid : {A : Type 0} → Bytes → A → M A
invalid line a = sqlite_debug line >> pure a

-- The line of a loop that used up its tries; `what` is how it starts.
abbrev pub fail_line : Bytes → ℤ → Bytes → Bytes
fail_line what r sql =
    what
    ++ (fmt_d r
        ++ (codes ", "
            ++ (sql ++ (codes "==count:" ++ (fmt_d (pos sqlite_opt_cnt) ++ codes "=\n")))))

-- `phConn` comes in as NULL from every caller.
unfoldable pub sqlite_conn : Option Bytes → M (ℤ × ℕ)
sqlite_conn none = invalid (codes "param is invalid, SqlFile:%x  Handle:%x\n") (minus_one, 0)
sqlite_conn (some path) = do
  (r, h) ← call_ret_out (sqlite3_open path)
  if is_zero r
      then (do call (sqlite3_busy_handler h); pure (pos 0, h))
      else invalid (codes "open sqlite:" ++ (path ++ (codes " fail with:" ++ fmt_d r)))
          (minus_one, h)

unfoldable pub sqlite_disconn : ℕ → M ℤ
sqlite_disconn h = if h == 0 then pure minus_one else do
  r ← call_ret (sqlite3_close h)
  if is_zero r then pure (pos 0) else invalid (codes "sqlite close fail, error:%s\n") minus_one

-- The text `needle` stands at the front of a text, or somewhere in it.
starts_with : Bytes → Bytes → Bool
starts_with [] s = true
starts_with (c ∷ cs) [] = false
starts_with (c ∷ cs) (d ∷ ds) = c == d && starts_with cs ds

strstr : Bytes → Bytes → Bool
unfolding starts_with
strstr [] needle = starts_with needle []
strstr (c ∷ s) needle = starts_with needle (c ∷ s) || strstr s needle

unfoldable pub is_locked : Option Bytes → Bool
unfolding strstr
is_locked none = false
is_locked (some msg) = strstr msg (codes "database is locked")

-- `if(pErrMsg) sqlite3_free(pErrMsg);`
free_msg : Option Bytes → M (Unit {0})
free_msg none = pure tt
free_msg (some msg) = call sqlite3_free

fuser : Bytes
fuser = codes "fuser -m /mnt/nand/app/msdb.db >> /mnt/nand/err_log.txt"

abbrev pub get_or_null : Option Bytes → Bytes
get_or_null none = codes "(null)"
get_or_null (some msg) = msg

-- The C library prints a NULL text as `(null)`.
abbrev pub exec_line : Bytes → ℕ → Option Bytes → Bytes
exec_line sql count msg =
    codes "sql execute fail, "
    ++ (sql
        ++ (codes "=count:"
            ++ (fmt_d (pos count) ++ (codes "=pErrMsg:" ++ (get_or_null msg ++ codes "===\n")))))

-- The body of the loop after a failed round, for `count` as it is after `count++`. `again` is the
-- next round.
exec_failed : Bytes → ℕ → Option Bytes → M ℤ → M ℤ
unfolding is_locked free_msg fuser
exec_failed sql count msg again =
    if leb sqlite_opt_cnt count
    then (if is_locked msg
        then (do call (system fuser); call sqlite3_free; call (usleep 10000); again)
        else do sqlite_debug (exec_line sql count msg); free_msg msg; pure minus_one)
    else do free_msg msg; call (usleep 10000); again

-- `while (sqlite3_exec(...) != SQLITE_OK)`, which has no bound while the database stays locked.
unfoldable pub exec_loop : ℕ → ℕ → ℕ → Bytes → M ℤ
unfolding exec_failed
exec_loop zero count h sql = still_running
exec_loop (suc fuel) count h sql = do
  (r, msg) ← call_ret_text (sqlite3_exec h sql)
  if is_zero r
      then pure (pos 0)
      else exec_failed sql (count + 1) msg (exec_loop fuel (count + 1) h sql)

abbrev pub execute_line : Bytes
execute_line = codes "sql execute param is invalid\n"

unfoldable pub sqlite_execute : ℕ → ℕ → Option Bytes → M ℤ
sqlite_execute fuel h none = invalid execute_line minus_one
sqlite_execute fuel h (some sql) =
    if h == 0 then invalid execute_line minus_one else exec_loop fuel 0 h sql

-- The text of a column's name; `none` is NULL.
unfoldable pub sqlite_query_column_name : ℕ → ℕ → ℤ → M (Option Bytes)
sqlite_query_column_name h stmt i =
    if h == 0 || stmt == 0 then pure none else call_text (sqlite3_column_name stmt i)

-- The prepare loop, whose line starts with `what`, with `left` further tries after the next one.
unfoldable pub prepare_loop : Bytes → ℕ → ℕ → Bytes → M (ℤ × ℕ)
prepare_loop what zero h sql = do
  (r, stmt) ← call_ret_out (sqlite3_prepare_v2 h sql)
  if is_zero r then pure (pos 0, stmt) else invalid (fail_line what r sql) (minus_one, stmt)
prepare_loop what (suc left) h sql = do
  (r, stmt) ← call_ret_out (sqlite3_prepare_v2 h sql)
  if is_zero r then pure (pos 0, stmt) else do call (usleep 10000); prepare_loop what left h sql

-- The outcome of the step loop: a row is there, the function returns a code, or the tries are used
-- up by an answer.
pub data Stepped : Type 0 where
  row : Stepped
  no_row : Stepped
  gave_up : ℤ → Stepped

unfoldable pub step_loop : Bytes → Bytes → ℕ → ℕ → M Stepped
step_loop what sql zero stmt = do
  r ← call_ret (sqlite3_step stmt)
  if eq_ℤ r sqlite_row
      then pure row
      else if eq_ℤ r sqlite_done
      then pure no_row
      else invalid (fail_line what r sql) (gave_up r)
step_loop what sql (suc left) stmt = do
  r ← call_ret (sqlite3_step stmt)
  if eq_ℤ r sqlite_row
      then pure row
      else if eq_ℤ r sqlite_done
      then pure no_row
      else do call (usleep 10000); step_loop what sql left stmt

-- The result, `*pStmt` (NULL on entry) and `*pClmCnt` (0 on entry).
query_stepped : ℕ → Stepped → M (ℤ × ℕ × ℤ)
query_stepped stmt row = do cnt ← call_ret (sqlite3_column_count stmt); pure (pos 0, stmt, cnt)
query_stepped stmt no_row = pure (pos 1, stmt, pos 0)
query_stepped stmt (gave_up r) = pure (r, stmt, pos 0)

abbrev pub query_line : Bytes
query_line = codes "sql query record, param is invalid\n"

abbrev pub prepare_what : Bytes
prepare_what = codes "sql query record fail,ret="

abbrev pub step_what : Bytes
step_what = codes "sql query record sqlite3_step fail,ret="

unfoldable pub sqlite_query_record : ℕ → Option Bytes → M (ℤ × ℕ × ℤ)
unfolding query_stepped
sqlite_query_record h none = invalid query_line (minus_one, 0, pos 0)
sqlite_query_record h (some sql) = if h == 0 then invalid query_line (minus_one, 0, pos 0) else do
  (r, stmt) ← prepare_loop prepare_what (sqlite_opt_cnt - 1) h sql
  if is_zero r
      then (do s ← step_loop step_what sql (sqlite_opt_cnt - 1) stmt; query_stepped stmt s)
      else pure (minus_one, stmt, pos 0)

unfoldable pub sqlite_query_next : ℕ → M ℤ
sqlite_query_next stmt =
    if stmt == 0 then invalid (codes "sql query record fail, param is invalid\n") minus_one else do
      r ← call_ret (sqlite3_step stmt)
      if eq_ℤ r sqlite_row then pure (pos 0) else pure (pos 1)

abbrev data_line : Bytes
data_line = codes "sql query data fail, param is invalid\n"

-- The column functions return the result and the new value of the variable that they fill.
unfoldable pub sqlite_query_column : ℕ → ℤ → ℤ → M (ℤ × ℤ)
sqlite_query_column stmt i old =
    if stmt == 0 || is_negative i
    then invalid data_line (minus_one, old)
    else do v ← call_ret (sqlite3_column_int stmt i); pure (pos 0, v)

unfoldable pub sqlite_query_column_double : ℕ → ℤ → ℕ → M (ℤ × ℕ)
sqlite_query_column_double stmt i old =
    if stmt == 0 || is_negative i
    then invalid data_line (minus_one, old)
    else do v ← call_out (sqlite3_column_double stmt i); pure (pos 0, v)

unfoldable pub sqlite_clear_stmt : ℕ → M ℤ
sqlite_clear_stmt stmt =
    if stmt == 0
    then invalid (codes "sql clear fail\n") minus_one
    else do call (sqlite3_finalize stmt); pure (pos 0)

-- `(unsigned char)value`
abbrev byte_of : ℤ → ℕ
byte_of (pos n) = n % 256
byte_of (negsuc n) = 255 - n % 256

unfoldable pub sqlite_query_column_byte : ℕ → ℤ → ℕ → M (ℤ × ℕ)
sqlite_query_column_byte stmt i old =
    if stmt == 0 || is_negative i
    then invalid data_line (minus_one, old)
    else do v ← call_ret (sqlite3_column_int stmt i); pure (pos 0, byte_of v)

-- A NULL text leaves the buffer as it was.
unfoldable pub store_text : ℕ → Bytes → Option Bytes → Bytes
store_text size old none = old
store_text size old (some text) = snprintf size text

unfoldable pub sqlite_query_column_text : ℕ → ℤ → Bytes → ℕ → M (ℤ × Bytes)
unfolding store_text
sqlite_query_column_text stmt i old size =
    if stmt == 0 || is_negative i || size == 0
    then invalid data_line (minus_one, old)
    else do v ← call_text (sqlite3_column_text stmt i); pure (pos 0, store_text size old v)
