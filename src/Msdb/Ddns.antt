-- ===== src/Msdb/Ddns.antt =====
-- The dynamic name service: struct ddns and its functions in libs/msdb/msdb.c.
pub mod Fields
pub mod Held
use build_project.Prelude.{
  ℕ, ◌+◌, ℤ, pos, minus_one, is_negative, is_zero, Bool, true, false, Option, none, some, List, [],
  ◌∷◌, ◌++◌, Bytes, codes, fmt_d, snprintf, ◌==◌, if◌then◌else◌,
}
use build_project.Sys.{M, pure, ◌>>=◌, ◌>>◌}
use build_project.Ccsqlite.{sqlite_conn}
use build_project.Msdb.{
  file_lock, file_lock_name, write_mode, file_unlock, run_query, run_update, execute, i32,
  int_column, uint_column, double_column, text_column, rows_loop,
}

pub record Ddns : Type 0 where
  pub enable : ℤ
  pub domain : Bytes
  pub username : Bytes
  pub password : Bytes
  pub host_name : Bytes
  pub free_dns_hash : Bytes
  pub update_freq : ℤ
  pub http_port : ℤ
  pub rtsp_port : ℤ
  pub ddnsurl : Bytes

-- The columns of a row into a struct that holds `s`.
unfoldable pub ddns_row : ℕ → Ddns → M Ddns
ddns_row stmt s = do
  enable ← int_column stmt (pos 0) s.enable
  domain ← text_column stmt (pos 1) s.domain 64
  username ← text_column stmt (pos 2) s.username 32
  password ← text_column stmt (pos 3) s.password 32
  host_name ← text_column stmt (pos 4) s.host_name 128
  free_dns_hash ← text_column stmt (pos 5) s.free_dns_hash 128
  update_freq ← int_column stmt (pos 6) s.update_freq
  http_port ← int_column stmt (pos 7) s.http_port
  rtsp_port ← int_column stmt (pos 8) s.rtsp_port
  ddnsurl ← text_column stmt (pos 9) s.ddnsurl 128
  pure (record {
    enable = enable;
    domain = domain;
    username = username;
    password = password;
    host_name = host_name;
    free_dns_hash = free_dns_hash;
    update_freq = update_freq;
    http_port = http_port;
    rtsp_port = rtsp_port;
    ddnsurl = ddnsurl;
  })

unfoldable pub ddns_query : Bytes
ddns_query = snprintf 512 (
    codes
      "select enable, domain, username, password, host_name, free_dns_hash, update_freq, http_port, rtsp_port, ddnsurl from ddns;")

unfoldable pub read_ddns : Option Bytes → Option Ddns → M (ℤ × Option Ddns)
unfolding ddns_row
read_ddns (some db) (some s) =
    run_query db ddns_query false (λ stmt. do s' ← ddns_row stmt s; pure (pos 0, some s'))
      (minus_one, some s) (minus_one, some s)
read_ddns db s = pure (minus_one, s)

unfoldable pub ddns_update : Ddns → Bytes
ddns_update s = snprintf 512 (
    codes "update ddns set enable="
    ++ (fmt_d s.enable
        ++ (codes ",domain='"
            ++ (s.domain
                ++ (codes "',username='"
                    ++ (s.username
                        ++ (codes "', password='"
                            ++ (s.password
                                ++ (codes "', host_name='"
                                    ++ (s.host_name
                                        ++ (codes "', free_dns_hash='"
                                            ++ (s.free_dns_hash
                                                ++ (codes "', update_freq="
                                                    ++ (fmt_d s.update_freq
                                                        ++ (codes ", http_port="
                                                            ++ (fmt_d s.http_port
                                                            ++ (codes ", rtsp_port="
                                                            ++ (fmt_d s.rtsp_port
                                                            ++ (codes ", ddnsurl='"
                                                            ++ (s.ddnsurl
                                                            ++ codes "';"))))))))))))))))))))

unfoldable pub write_ddns : ℕ → Option Bytes → Option Ddns → M ℤ
write_ddns fuel (some db) (some s) = run_update db (execute fuel (ddns_update s))
write_ddns fuel db s = pure minus_one
