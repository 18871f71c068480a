-- ===== src/Msdb/Reboot.antt =====
-- The planned reboot: reboot_conf and its functions in libs/msdb/msdb.c.
pub mod Fields
pub mod Held
use build_project.Prelude.{
  ℕ, ◌+◌, ℤ, pos, minus_one, is_negative, is_zero, Bool, true, false, Option, none, some, List, [],
  ◌∷◌, ◌++◌, Bytes, codes, fmt_d, snprintf, ◌==◌, if◌then◌else◌,
}
use build_project.Sys.{M, pure, ◌>>=◌, ◌>>◌}
use build_project.Ccsqlite.{sqlite_conn}
use build_project.Msdb.{
  file_lock, file_lock_name, write_mode, file_unlock, run_query, run_update, execute, i32,
  int_column, uint_column, double_column, text_column, rows_loop,
}

pub record Reboot : Type 0 where
  pub enable : ℤ
  pub wday : ℤ
  pub hour : ℤ
  pub login : ℤ
  pub username : Bytes
  pub reboot : ℤ

-- The columns of a row into a struct that holds `s`.
unfoldable pub reboot_row : ℕ → Reboot → M Reboot
reboot_row stmt s = do
  enable ← int_column stmt (pos 0) s.enable
  wday ← int_column stmt (pos 1) s.wday
  hour ← int_column stmt (pos 2) s.hour
  login ← int_column stmt (pos 3) s.login
  username ← text_column stmt (pos 4) s.username 100
  reboot ← int_column stmt (pos 5) s.reboot
  pure (record {
    enable = enable;
    wday = wday;
    hour = hour;
    login = login;
    username = username;
    reboot = reboot;
  })

unfoldable pub autoreboot_conf_update : Reboot → Bytes
autoreboot_conf_update s = snprintf 512 (
    codes "update auto_reboot set enable="
    ++ (fmt_d s.enable
        ++ (codes ",wday="
            ++ (fmt_d s.wday
                ++ (codes ",hour="
                    ++ (fmt_d s.hour
                        ++ (codes ",login="
                            ++ (fmt_d s.login
                                ++ (codes ",username='"
                                    ++ (s.username
                                        ++ (codes "',reboot="
                                            ++ (fmt_d s.reboot ++ codes "  where id=0;"))))))))))))

unfoldable pub write_autoreboot_conf : ℕ → Option Bytes → Option Reboot → M ℤ
write_autoreboot_conf fuel (some db) (some s) =
    run_update db (execute fuel (autoreboot_conf_update s))
write_autoreboot_conf fuel db s = pure minus_one

unfoldable pub autoreboot_conf_query : Bytes
autoreboot_conf_query =
    snprintf 512
      (codes "select enable,wday,hour,login,username,reboot from auto_reboot where id=0;")

unfoldable pub read_autoreboot_conf : Option Bytes → Option Reboot → M (ℤ × Option Reboot)
unfolding reboot_row
read_autoreboot_conf (some db) (some s) =
    run_query db autoreboot_conf_query true
      (λ stmt. do s' ← reboot_row stmt s; pure (pos 0, some s')) (minus_one, some s)
      (minus_one, some s)
read_autoreboot_conf db s = pure (minus_one, s)
