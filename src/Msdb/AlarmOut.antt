-- ===== src/Msdb/AlarmOut.antt =====
-- The alarm outputs: struct alarm_out and its functions in libs/msdb/msdb.c.
pub mod Fields
pub mod Held
use build_project.Prelude.{
  ℕ, ◌+◌, ℤ, pos, minus_one, is_negative, is_zero, Bool, true, false, Option, none, some, List, [],
  ◌∷◌, ◌++◌, Bytes, codes, fmt_d, snprintf, ◌==◌, if◌then◌else◌,
}
use build_project.Sys.{M, pure, ◌>>=◌, ◌>>◌}
use build_project.Ccsqlite.{sqlite_conn}
use build_project.Msdb.{
  Array, file_lock, file_lock_name, write_mode, file_unlock, run_query, run_update, execute, i32,
  int_column, uint_column, double_column, text_column, rows_loop,
}

pub record AlarmOut : Type 0 where
  pub id : ℤ
  pub name : Bytes
  pub type : ℤ
  pub enable : ℤ
  pub duration_time : ℤ

-- The columns of a row into a struct that holds `s`.
unfoldable pub alarm_out_row : ℕ → AlarmOut → M AlarmOut
alarm_out_row stmt s = do
  id ← int_column stmt (pos 0) s.id
  name ← text_column stmt (pos 1) s.name 256
  type ← int_column stmt (pos 2) s.type
  enable ← int_column stmt (pos 3) s.enable
  duration_time ← int_column stmt (pos 4) s.duration_time
  pure
      (record { id = id; name = name; type = type; enable = enable; duration_time = duration_time })

unfoldable pub alarm_out_query : ℤ → Bytes
alarm_out_query alarm_id = snprintf 256 (
    codes "select id,name,type,enable,duration_time from alarm_out where id="
    ++ (fmt_d alarm_id ++ codes ";"))

unfoldable pub read_alarm_out : Option Bytes → Option AlarmOut → ℤ → M (ℤ × Option AlarmOut)
unfolding alarm_out_row
read_alarm_out (some db) (some s) alarm_id =
    if is_negative alarm_id
    then pure (minus_one, some s)
    else run_query db (alarm_out_query alarm_id) true
        (λ stmt. do s' ← alarm_out_row stmt s; pure (pos 0, some s')) (minus_one, some s)
        (minus_one, some s)
read_alarm_out db s alarm_id = pure (minus_one, s)

unfoldable pub alarm_outs_query : Bytes
alarm_outs_query =
    snprintf 256 (codes "select id,name,type,enable,duration_time from alarm_out order by(id);")

-- MAX_ALARM_OUT rounds; the result, the array and the count, which holds `count` before;
-- the code writes through the pointer to it untested, and it is taken to be valid.
unfoldable pub read_alarm_outs :
    Option Bytes → Option (Array AlarmOut) → ℕ → M (ℤ × Option (Array AlarmOut) × ℕ)
unfolding alarm_out_row
read_alarm_outs (some db) (some cells) count =
    run_query db alarm_outs_query true
      (λ stmt. do
        (cells', i) ← rows_loop stmt (alarm_out_row stmt) 4 0 cells
        pure (pos 0, some cells', i))
      (minus_one, some cells, count) (minus_one, some cells, 0)
read_alarm_outs db cells count = pure (minus_one, cells, count)

unfoldable pub alarm_out_update : AlarmOut → Bytes
alarm_out_update s = snprintf 512 (
    codes "update alarm_out set name='"
    ++ (s.name
        ++ (codes "',type="
            ++ (fmt_d s.type
                ++ (codes ",enable="
                    ++ (fmt_d s.enable
                        ++ (codes ",duration_time="
                            ++ (fmt_d s.duration_time
                                ++ (codes " where id=" ++ (fmt_d s.id ++ codes ";"))))))))))

unfoldable pub write_alarm_out : ℕ → Option Bytes → Option AlarmOut → M ℤ
write_alarm_out fuel (some db) (some s) = run_update db (execute fuel (alarm_out_update s))
write_alarm_out fuel db s = pure minus_one
