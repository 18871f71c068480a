-- ===== src/Msdb/Motion.antt =====
-- Motion detection: struct motion and its functions in libs/msdb/msdb.c.
pub mod Fields
pub mod Held
use build_project.Prelude.{
  ℕ, ◌+◌, ℤ, pos, minus_one, is_negative, is_zero, Bool, true, false, Option, none, some, List, [],
  ◌∷◌, ◌++◌, Bytes, codes, fmt_d, snprintf, ◌==◌, if◌then◌else◌,
}
use build_project.Sys.{M, pure, ◌>>=◌, ◌>>◌}
use build_project.Ccsqlite.{sqlite_conn}
use build_project.Msdb.{
  Array, file_lock, file_lock_name, write_mode, file_unlock, run_query, run_update, execute, i32,
  int_column, uint_column, double_column, text_column, rows_loop,
}

pub record Motion : Type 0 where
  pub id : ℤ
  pub enable : ℤ
  pub sensitivity : ℤ
  pub tri_channels : ℕ
  pub tri_alarms : ℕ
  pub motion_table : Bytes
  pub buzzer_interval : ℤ
  pub ipc_sched_enable : ℤ
  pub tri_channels_ex : Bytes
  pub email_enable : ℤ
  pub email_buzzer_interval : ℤ

-- The columns of a row into a struct that holds `s`.
unfoldable pub motion_row : ℕ → Motion → M Motion
motion_row stmt s = do
  id ← int_column stmt (pos 0) s.id
  enable ← int_column stmt (pos 1) s.enable
  sensitivity ← int_column stmt (pos 2) s.sensitivity
  tri_channels ← uint_column stmt (pos 3) s.tri_channels
  tri_alarms ← uint_column stmt (pos 4) s.tri_alarms
  motion_table ← text_column stmt (pos 5) s.motion_table 368
  buzzer_interval ← int_column stmt (pos 6) s.buzzer_interval
  ipc_sched_enable ← int_column stmt (pos 7) s.ipc_sched_enable
  tri_channels_ex ← text_column stmt (pos 8) s.tri_channels_ex 66
  email_enable ← int_column stmt (pos 9) s.email_enable
  email_buzzer_interval ← int_column stmt (pos 10) s.email_buzzer_interval
  pure (record {
    id = id;
    enable = enable;
    sensitivity = sensitivity;
    tri_channels = tri_channels;
    tri_alarms = tri_alarms;
    motion_table = motion_table;
    buzzer_interval = buzzer_interval;
    ipc_sched_enable = ipc_sched_enable;
    tri_channels_ex = tri_channels_ex;
    email_enable = email_enable;
    email_buzzer_interval = email_buzzer_interval;
  })

unfoldable pub motion_query : ℤ → Bytes
motion_query id = snprintf 256 (
    codes
      "select id,enable,sensitivity,tri_channels,tri_alarms, motion_table,buzzer_interval,ipc_sched_enable,tri_channels_ex,email_enable,email_buzzer_interval from motion where id="
    ++ (fmt_d id ++ codes ";"))

unfoldable pub read_motion : Option Bytes → Option Motion → ℤ → M (ℤ × Option Motion)
unfolding motion_row
read_motion (some db) (some s) id =
    run_query db (motion_query id) true (λ stmt. do s' ← motion_row stmt s; pure (pos 0, some s'))
      (minus_one, some s) (minus_one, some s)
read_motion db s id = pure (minus_one, s)

unfoldable pub motions_query : Bytes
motions_query = snprintf 256 (
    codes
      "select id,enable,sensitivity,tri_channels,tri_alarms, motion_table, buzzer_interval,ipc_sched_enable,tri_channels_ex,email_enable,email_buzzer_interval from motion;")

-- MAX_CAMERA rounds; the result, the array and the count, which holds `count` before;
-- the code writes through the pointer to it untested, and it is taken to be valid.
unfoldable pub read_motions :
    Option Bytes → Option (Array Motion) → ℕ → M (ℤ × Option (Array Motion) × ℕ)
unfolding motion_row
read_motions (some db) (some cells) count =
    run_query db motions_query true
      (λ stmt. do
        (cells', i) ← rows_loop stmt (motion_row stmt) 64 0 cells
        pure (pos 0, some cells', i))
      (minus_one, some cells, count) (minus_one, some cells, 0)
read_motions db cells count = pure (minus_one, cells, count)
