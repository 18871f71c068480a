-- ===== src/Msdb/VideoLoss.antt =====
-- The alarm on a lost video signal: struct video_loss and its functions in libs/msdb/msdb.c.
pub mod Fields
pub mod Held
use build_project.Prelude.{
  ℕ, ◌+◌, ℤ, pos, minus_one, is_negative, is_zero, Bool, true, false, Option, none, some, List, [],
  ◌∷◌, ◌++◌, Bytes, codes, fmt_d, snprintf, ◌==◌, if◌then◌else◌,
}
use build_project.Sys.{M, pure, ◌>>=◌, ◌>>◌}
use build_project.Ccsqlite.{sqlite_conn}
use build_project.Msdb.{
  Array, file_lock, file_lock_name, write_mode, file_unlock, run_query, run_update, execute, i32,
  int_column, uint_column, double_column, text_column, rows_loop,
}

pub record VideoLoss : Type 0 where
  pub id : ℤ
  pub enable : ℤ
  pub tri_alarms : ℕ
  pub buzzer_interval : ℤ
  pub email_enable : ℤ
  pub email_buzzer_interval : ℤ

-- The columns of a row into a struct that holds `s`.
unfoldable pub video_loss_row : ℕ → VideoLoss → M VideoLoss
video_loss_row stmt s = do
  id ← int_column stmt (pos 0) s.id
  enable ← int_column stmt (pos 1) s.enable
  tri_alarms ← uint_column stmt (pos 2) s.tri_alarms
  buzzer_interval ← int_column stmt (pos 3) s.buzzer_interval
  email_enable ← int_column stmt (pos 4) s.email_enable
  email_buzzer_interval ← int_column stmt (pos 5) s.email_buzzer_interval
  pure (record {
    id = id;
    enable = enable;
    tri_alarms = tri_alarms;
    buzzer_interval = buzzer_interval;
    email_enable = email_enable;
    email_buzzer_interval = email_buzzer_interval;
  })

unfoldable pub video_lost_query : ℤ → Bytes
video_lost_query chn_id = snprintf 256 (
    codes
      "select id,enable,tri_alarms,buzzer_interval,email_enable,email_buzzer_interval from video_loss where id="
    ++ (fmt_d chn_id ++ codes ";"))

unfoldable pub read_video_lost : Option Bytes → Option VideoLoss → ℤ → M (ℤ × Option VideoLoss)
unfolding video_loss_row
read_video_lost (some db) (some s) chn_id =
    run_query db (video_lost_query chn_id) true
      (λ stmt. do s' ← video_loss_row stmt s; pure (pos 0, some s')) (minus_one, some s)
      (minus_one, some s)
read_video_lost db s chn_id = pure (minus_one, s)

unfoldable pub video_losts_query : Bytes
video_losts_query = snprintf 256 (
    codes
      "select id,enable,tri_alarms,buzzer_interval,email_enable,email_buzzer_interval from video_loss;")

-- MAX_CAMERA rounds; the result, the array and the count, which holds `count` before;
-- the code writes through the pointer to it untested, and it is taken to be valid.
unfoldable pub read_video_losts :
    Option Bytes → Option (Array VideoLoss) → ℕ → M (ℤ × Option (Array VideoLoss) × ℕ)
unfolding video_loss_row
read_video_losts (some db) (some cells) count =
    run_query db video_losts_query true
      (λ stmt. do
        (cells', i) ← rows_loop stmt (video_loss_row stmt) 64 0 cells
        pure (pos 0, some cells', i))
      (minus_one, some cells, count) (minus_one, some cells, 0)
read_video_losts db cells count = pure (minus_one, cells, count)

unfoldable pub video_lost_update : VideoLoss → Bytes
video_lost_update s = snprintf 512 (
    codes "update video_loss set enable="
    ++ (fmt_d s.enable
        ++ (codes ",tri_alarms="
            ++ (fmt_d (i32 s.tri_alarms)
                ++ (codes ",buzzer_interval="
                    ++ (fmt_d s.buzzer_interval
                        ++ (codes ",email_enable="
                            ++ (fmt_d s.email_enable
                                ++ (codes ",email_buzzer_interval="
                                    ++ (fmt_d s.email_buzzer_interval
                                        ++ (codes " where id="
                                            ++ (fmt_d s.id ++ codes ";"))))))))))))

unfoldable pub write_video_lost : ℕ → Option Bytes → Option VideoLoss → M ℤ
write_video_lost fuel (some db) (some s) = run_update db (execute fuel (video_lost_update s))
write_video_lost fuel db s = pure minus_one

unfoldable pub video_lost_insert : VideoLoss → Bytes
video_lost_insert s = snprintf 512 (
    codes
      "insert into video_loss(id,enable,tri_alarms,buzzer_interval,email_enable,email_buzzer_interval) values("
    ++ (fmt_d s.id
        ++ (codes ","
            ++ (fmt_d s.enable
                ++ (codes ","
                    ++ (fmt_d (i32 s.tri_alarms)
                        ++ (codes ","
                            ++ (fmt_d s.buzzer_interval
                                ++ (codes ","
                                    ++ (fmt_d s.email_enable
                                        ++ (codes ","
                                            ++ (fmt_d s.email_buzzer_interval
                                                ++ codes ");"))))))))))))

unfoldable pub insert_video_lost : ℕ → Option Bytes → Option VideoLoss → M ℤ
insert_video_lost fuel (some db) (some s) = run_update db (execute fuel (video_lost_insert s))
insert_video_lost fuel db s = pure minus_one
