-- ===== src/Msdb/PtzPort.antt =====
-- The serial ports of the pan-tilt-zoom units: struct ptz_port and its functions in libs/msdb/msdb.c.
pub mod Fields
pub mod Held
use build_project.Prelude.{
  ℕ, ◌+◌, ℤ, pos, minus_one, is_negative, is_zero, Bool, true, false, Option, none, some, List, [],
  ◌∷◌, ◌++◌, Bytes, codes, fmt_d, snprintf, ◌==◌, if◌then◌else◌,
}
use build_project.Sys.{M, pure, ◌>>=◌, ◌>>◌}
use build_project.Ccsqlite.{sqlite_conn}
use build_project.Msdb.{
  Array, file_lock, file_lock_name, write_mode, file_unlock, run_query, run_update, execute, i32,
  int_column, uint_column, double_column, text_column, rows_loop,
}

pub record PtzPort : Type 0 where
  pub id : ℤ
  pub baudrate : ℤ
  pub data_bit : ℤ
  pub stop_bit : ℤ
  pub parity_type : ℤ
  pub protocol : ℤ
  pub address : ℤ
  pub com_type : ℤ
  pub connect_type : ℤ

-- The columns of a row into a struct that holds `s`.
unfoldable pub ptz_port_row : ℕ → PtzPort → M PtzPort
ptz_port_row stmt s = do
  id ← int_column stmt (pos 0) s.id
  baudrate ← int_column stmt (pos 1) s.baudrate
  data_bit ← int_column stmt (pos 2) s.data_bit
  stop_bit ← int_column stmt (pos 3) s.stop_bit
  parity_type ← int_column stmt (pos 4) s.parity_type
  protocol ← int_column stmt (pos 5) s.protocol
  address ← int_column stmt (pos 6) s.address
  com_type ← int_column stmt (pos 7) s.com_type
  connect_type ← int_column stmt (pos 8) s.connect_type
  pure (record {
    id = id;
    baudrate = baudrate;
    data_bit = data_bit;
    stop_bit = stop_bit;
    parity_type = parity_type;
    protocol = protocol;
    address = address;
    com_type = com_type;
    connect_type = connect_type;
  })

unfoldable pub ptz_port_query : ℤ → Bytes
ptz_port_query chn_id = snprintf 512 (
    codes
      "select id, baudrate,data_bit,stop_bit,parity_type,protocol,address,com_type,connect_type from ptz_port where id="
    ++ (fmt_d chn_id ++ codes ";"))

unfoldable pub read_ptz_port : Option Bytes → Option PtzPort → ℤ → M (ℤ × Option PtzPort)
unfolding ptz_port_row
read_ptz_port (some db) (some s) chn_id =
    if is_negative chn_id
    then pure (minus_one, some s)
    else run_query db (ptz_port_query chn_id) true
        (λ stmt. do s' ← ptz_port_row stmt s; pure (pos 0, some s')) (minus_one, some s)
        (minus_one, some s)
read_ptz_port db s chn_id = pure (minus_one, s)

unfoldable pub ptz_port_update : PtzPort → Bytes
ptz_port_update s = snprintf 512 (
    codes "update ptz_port set baudrate="
    ++ (fmt_d s.baudrate
        ++ (codes ",data_bit="
            ++ (fmt_d s.data_bit
                ++ (codes ",stop_bit="
                    ++ (fmt_d s.stop_bit
                        ++ (codes ",parity_type="
                            ++ (fmt_d s.parity_type
                                ++ (codes ",protocol="
                                    ++ (fmt_d s.protocol
                                        ++ (codes ",address="
                                            ++ (fmt_d s.address
                                                ++ (codes ",com_type="
                                                    ++ (fmt_d s.com_type
                                                        ++ (codes ",connect_type="
                                                            ++ (fmt_d s.connect_type
                                                            ++ (codes " where id="
                                                            ++ (fmt_d s.id
                                                            ++ codes ";"))))))))))))))))))

unfoldable pub write_ptz_port : ℕ → Option Bytes → Option PtzPort → M ℤ
write_ptz_port fuel (some db) (some s) = run_update db (execute fuel (ptz_port_update s))
write_ptz_port fuel db s = pure minus_one

unfoldable pub ptz_ports_query : Bytes
ptz_ports_query = snprintf 256 (
    codes
      "select id,baudrate,data_bit,stop_bit,parity_type,protocol,address,com_type,connect_type from ptz_port;")

-- MAX_CAMERA rounds; the result, the array and the count, which holds `count` before;
-- the code writes through the pointer to it untested, and it is taken to be valid.
unfoldable pub read_ptz_ports :
    Option Bytes → Option (Array PtzPort) → ℕ → M (ℤ × Option (Array PtzPort) × ℕ)
unfolding ptz_port_row
read_ptz_ports (some db) (some cells) count =
    run_query db ptz_ports_query true
      (λ stmt. do
        (cells', i) ← rows_loop stmt (ptz_port_row stmt) 64 0 cells
        pure (pos 0, some cells', i))
      (minus_one, some cells, count) (minus_one, some cells, 0)
read_ptz_ports db cells count = pure (minus_one, cells, count)
