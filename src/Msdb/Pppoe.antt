-- ===== src/Msdb/Pppoe.antt =====
-- The PPPoE account: struct pppoe and its functions in libs/msdb/msdb.c.
pub mod Fields
pub mod Held
use build_project.Prelude.{
  ℕ, ◌+◌, ℤ, pos, minus_one, is_negative, is_zero, Bool, true, false, Option, none, some, List, [],
  ◌∷◌, ◌++◌, Bytes, codes, fmt_d, snprintf, ◌==◌, if◌then◌else◌,
}
use build_project.Sys.{M, pure, ◌>>=◌, ◌>>◌}
use build_project.Ccsqlite.{sqlite_conn}
use build_project.Msdb.{
  file_lock, file_lock_name, write_mode, file_unlock, run_query, run_update, execute, i32,
  int_column, uint_column, double_column, text_column, rows_loop,
}

pub record Pppoe : Type 0 where
  pub enable : ℤ
  pub auto_connect : ℤ
  pub username : Bytes
  pub password : Bytes

-- The columns of a row into a struct that holds `s`.
unfoldable pub pppoe_row : ℕ → Pppoe → M Pppoe
pppoe_row stmt s = do
  enable ← int_column stmt (pos 0) s.enable
  auto_connect ← int_column stmt (pos 1) s.auto_connect
  username ← text_column stmt (pos 2) s.username 64
  password ← text_column stmt (pos 3) s.password 64
  pure (record {
    enable = enable;
    auto_connect = auto_connect;
    username = username;
    password = password;
  })

unfoldable pub pppoe_query : Bytes
pppoe_query = snprintf 512 (codes "select enable,auto_connect,username,password from pppoe;")

unfoldable pub read_pppoe : Option Bytes → Option Pppoe → M (ℤ × Option Pppoe)
unfolding pppoe_row
read_pppoe (some db) (some s) =
    run_query db pppoe_query false (λ stmt. do s' ← pppoe_row stmt s; pure (pos 0, some s'))
      (minus_one, some s) (minus_one, some s)
read_pppoe db s = pure (minus_one, s)

unfoldable pub pppoe_update : Pppoe → Bytes
pppoe_update s = snprintf 512 (
    codes "update pppoe set enable="
    ++ (fmt_d s.enable
        ++ (codes ", auto_connect="
            ++ (fmt_d s.auto_connect
                ++ (codes ", username='"
                    ++ (s.username ++ (codes "', password='" ++ (s.password ++ codes "';"))))))))

unfoldable pub write_pppoe : ℕ → Option Bytes → Option Pppoe → M ℤ
write_pppoe fuel (some db) (some s) = run_update db (execute fuel (pppoe_update s))
write_pppoe fuel db s = pure minus_one
