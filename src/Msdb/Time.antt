-- ===== src/Msdb/Time.antt =====
-- The time zone and its server: struct time and its functions in libs/msdb/msdb.c.
pub mod Fields
pub mod Held
use build_project.Prelude.{
  ℕ, ◌+◌, ℤ, pos, minus_one, is_negative, is_zero, Bool, true, false, Option, none, some, List, [],
  ◌∷◌, ◌++◌, Bytes, codes, fmt_d, snprintf, ◌==◌, if◌then◌else◌,
}
use build_project.Sys.{M, pure, ◌>>=◌, ◌>>◌}
use build_project.Ccsqlite.{sqlite_conn}
use build_project.Msdb.{
  file_lock, file_lock_name, write_mode, file_unlock, run_query, run_update, execute, i32,
  int_column, uint_column, double_column, text_column, rows_loop,
}

pub record Time : Type 0 where
  pub ntp_enable : ℤ
  pub dst_enable : ℤ
  pub time_zone : Bytes
  pub time_zone_name : Bytes
  pub ntp_server : Bytes

-- The columns of a row into a struct that holds `s`.
unfoldable pub time_row : ℕ → Time → M Time
time_row stmt s = do
  ntp_enable ← int_column stmt (pos 0) s.ntp_enable
  dst_enable ← int_column stmt (pos 1) s.dst_enable
  time_zone ← text_column stmt (pos 2) s.time_zone 32
  time_zone_name ← text_column stmt (pos 3) s.time_zone_name 32
  ntp_server ← text_column stmt (pos 4) s.ntp_server 64
  pure (record {
    ntp_enable = ntp_enable;
    dst_enable = dst_enable;
    time_zone = time_zone;
    time_zone_name = time_zone_name;
    ntp_server = ntp_server;
  })

unfoldable pub time_query : Bytes
time_query =
    snprintf 512
      (codes "select ntp_enable,dst_enable,time_zone,time_zone_name,ntp_server from time;")

unfoldable pub read_time : Option Bytes → Option Time → M (ℤ × Option Time)
unfolding time_row
read_time (some db) (some s) =
    run_query db time_query false (λ stmt. do s' ← time_row stmt s; pure (pos 0, some s'))
      (minus_one, some s) (minus_one, some s)
read_time db s = pure (minus_one, s)

unfoldable pub time_update : Time → Bytes
time_update s = snprintf 512 (
    codes "update time set ntp_enable="
    ++ (fmt_d s.ntp_enable
        ++ (codes ",dst_enable="
            ++ (fmt_d s.dst_enable
                ++ (codes ",time_zone='"
                    ++ (s.time_zone
                        ++ (codes "',time_zone_name='"
                            ++ (s.time_zone_name
                                ++ (codes "',ntp_server='" ++ (s.ntp_server ++ codes "';"))))))))))

unfoldable pub write_time : ℕ → Option Bytes → Option Time → M ℤ
write_time fuel (some db) (some s) = run_update db (execute fuel (time_update s))
write_time fuel db s = pure minus_one
