-- ===== src/Msdb/Upnp.antt =====
-- The port mappings: struct upnp and its functions in libs/msdb/msdb.c.
pub mod Fields
pub mod Held
use build_project.Prelude.{
  ℕ, ◌+◌, ℤ, pos, minus_one, is_negative, is_zero, Bool, true, false, Option, none, some, List, [],
  ◌∷◌, ◌++◌, Bytes, codes, fmt_d, snprintf, ◌==◌, if◌then◌else◌,
}
use build_project.Sys.{M, pure, ◌>>=◌, ◌>>◌}
use build_project.Ccsqlite.{sqlite_conn}
use build_project.Msdb.{
  file_lock, file_lock_name, write_mode, file_unlock, run_query, run_update, execute, i32,
  int_column, uint_column, double_column, text_column, rows_loop,
}

pub record Upnp : Type 0 where
  pub enable : ℤ
  pub type : ℤ
  pub name : Bytes
  pub extern_ip : Bytes
  pub http_port : ℤ
  pub http_status : ℤ
  pub rtsp_port : ℤ
  pub rtsp_status : ℤ

-- The columns of a row into a struct that holds `s`.
unfoldable pub upnp_row : ℕ → Upnp → M Upnp
upnp_row stmt s = do
  enable ← int_column stmt (pos 0) s.enable
  type ← int_column stmt (pos 1) s.type
  name ← text_column stmt (pos 2) s.name 64
  extern_ip ← text_column stmt (pos 3) s.extern_ip 64
  http_port ← int_column stmt (pos 4) s.http_port
  http_status ← int_column stmt (pos 5) s.http_status
  rtsp_port ← int_column stmt (pos 6) s.rtsp_port
  rtsp_status ← int_column stmt (pos 7) s.rtsp_status
  pure (record {
    enable = enable;
    type = type;
    name = name;
    extern_ip = extern_ip;
    http_port = http_port;
    http_status = http_status;
    rtsp_port = rtsp_port;
    rtsp_status = rtsp_status;
  })

unfoldable pub upnp_query : Bytes
upnp_query = snprintf 512 (
    codes
      "select enable, type, name, extern_ip, http_port, http_status, rtsp_port, rtsp_status from upnp;")

unfoldable pub read_upnp : Option Bytes → Option Upnp → M (ℤ × Option Upnp)
unfolding upnp_row
read_upnp (some db) (some s) =
    run_query db upnp_query false (λ stmt. do s' ← upnp_row stmt s; pure (pos 0, some s'))
      (minus_one, some s) (minus_one, some s)
read_upnp db s = pure (minus_one, s)

unfoldable pub upnp_update : Upnp → Bytes
upnp_update s = snprintf 512 (
    codes "update upnp set enable="
    ++ (fmt_d s.enable
        ++ (codes ",type="
            ++ (fmt_d s.type
                ++ (codes ",name='"
                    ++ (s.name
                        ++ (codes "', extern_ip='"
                            ++ (s.extern_ip
                                ++ (codes "', http_port="
                                    ++ (fmt_d s.http_port
                                        ++ (codes ", http_status="
                                            ++ (fmt_d s.http_status
                                                ++ (codes ", rtsp_port="
                                                    ++ (fmt_d s.rtsp_port
                                                        ++ (codes ", rtsp_status="
                                                            ++ (fmt_d s.rtsp_status
                                                            ++ codes ";"))))))))))))))))

unfoldable pub write_upnp : ℕ → Option Bytes → Option Upnp → M ℤ
write_upnp fuel (some db) (some s) = run_update db (execute fuel (upnp_update s))
write_upnp fuel db s = pure minus_one
