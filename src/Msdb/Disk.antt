-- ===== src/Msdb/Disk.antt =====
-- The disks: struct diskInfo and its functions in libs/msdb/msdb.c.
pub mod Fields
pub mod Held
pub mod Leak
use build_project.Prelude.{
  ℕ, ◌+◌, ℤ, pos, minus_one, is_negative, is_zero, Bool, true, false, Option, none, some, List, [],
  ◌∷◌, ◌++◌, Bytes, codes, fmt_d, snprintf, ◌==◌, if◌then◌else◌,
}
use build_project.Sys.{M, pure, ◌>>=◌, ◌>>◌}
use build_project.Ccsqlite.{sqlite_conn}
use build_project.Msdb.{
  Array, file_lock, file_lock_name, write_mode, file_unlock, run_query, run_update, execute, i32,
  int_column, uint_column, double_column, text_column, rows_loop,
}

pub record Disk : Type 0 where
  pub disk_port : ℤ
  pub enable : ℤ
  pub disk_vendor : Bytes
  pub disk_address : Bytes
  pub disk_directory : Bytes
  pub disk_type : ℤ
  pub disk_group : ℤ
  pub disk_property : ℤ
  pub raid_level : ℤ
  pub type : ℤ
  pub country : Bytes
  pub common_name : Bytes
  pub validity : ℤ
  pub password : Bytes
  pub province : Bytes
  pub region : Bytes
  pub organization : Bytes
  pub company : Bytes
  pub email : Bytes
  pub subject : Bytes
  pub dates : Bytes
  pub option_company : Bytes
  pub start_time : Bytes
  pub end_time : Bytes

-- The columns of a row into a struct that holds `s`.
unfoldable pub disk_row : ℕ → Disk → M Disk
disk_row stmt s = do
  disk_port ← int_column stmt (pos 0) s.disk_port
  enable ← int_column stmt (pos 1) s.enable
  disk_vendor ← text_column stmt (pos 2) s.disk_vendor 64
  disk_address ← text_column stmt (pos 3) s.disk_address 64
  disk_directory ← text_column stmt (pos 4) s.disk_directory 128
  disk_type ← int_column stmt (pos 5) s.disk_type
  disk_group ← int_column stmt (pos 6) s.disk_group
  disk_property ← int_column stmt (pos 7) s.disk_property
  raid_level ← int_column stmt (pos 8) s.raid_level
  pure (record s {
    disk_port = disk_port;
    enable = enable;
    disk_vendor = disk_vendor;
    disk_address = disk_address;
    disk_directory = disk_directory;
    disk_type = disk_type;
    disk_group = disk_group;
    disk_property = disk_property;
    raid_level = raid_level;
  })

unfoldable pub disks_query : Bytes
disks_query = snprintf 256 (
    codes
      "select disk_port,enable,disk_vendor,disk_address,disk_directory,disk_type,disk_group,disk_property,raid_level from disk;")

-- MAX_MSDK_NUM rounds; the result, the array and the count, which holds `count` before;
-- the code writes through the pointer to it untested, and it is taken to be valid.
unfoldable pub read_disks : Option Bytes → Option (Array Disk) → ℕ → M (ℤ × Option (Array Disk) × ℕ)
unfolding disk_row
read_disks (some db) (some cells) count =
    run_query db disks_query true
      (λ stmt. do
        (cells', i) ← rows_loop stmt (disk_row stmt) 36 0 cells
        pure (pos 0, some cells', i))
      (minus_one, some cells, count) (minus_one, some cells, 0)
read_disks db cells count = pure (minus_one, cells, count)

unfoldable pub disk_query : ℤ → Bytes
disk_query port_id = snprintf 256 (
    codes
      "select disk_port,enable,disk_vendor,disk_address,disk_directory,disk_type,disk_group,disk_property,raid_level from disk where disk_port="
    ++ (fmt_d port_id ++ codes ";"))

unfoldable pub read_disk : Option Bytes → Option Disk → ℤ → M (ℤ × Option Disk)
unfolding disk_row
read_disk (some db) (some s) port_id =
    run_query db (disk_query port_id) true (λ stmt. do s' ← disk_row stmt s; pure (pos 0, some s'))
      (minus_one, some s) (minus_one, some s)
read_disk db s port_id = pure (minus_one, s)

unfoldable pub disk_update : Disk → Bytes
disk_update s = snprintf 512 (
    codes "update disk set disk_port="
    ++ (fmt_d s.disk_port
        ++ (codes ",enable="
            ++ (fmt_d s.enable
                ++ (codes ",disk_vendor='"
                    ++ (s.disk_vendor
                        ++ (codes "',disk_address='"
                            ++ (s.disk_address
                                ++ (codes "',disk_directory='"
                                    ++ (s.disk_directory
                                        ++ (codes "',disk_type="
                                            ++ (fmt_d s.disk_type
                                                ++ (codes ",disk_group="
                                                    ++ (fmt_d s.disk_group
                                                        ++ (codes ",disk_property="
                                                            ++ (fmt_d s.disk_property
                                                            ++ (codes ",raid_level="
                                                            ++ (fmt_d s.raid_level
                                                            ++ (codes " where disk_port="
                                                            ++ (fmt_d s.disk_port
                                                            ++ codes ";"))))))))))))))))))))

unfoldable pub write_disk : ℕ → Option Bytes → Option Disk → M ℤ
write_disk fuel (some db) (some s) = run_update db (execute fuel (disk_update s))
write_disk fuel db s = pure minus_one

unfoldable pub disk_insert : Disk → Bytes
disk_insert s = snprintf 256 (
    codes
      "insert into disk(disk_port,enable,disk_vendor,disk_address,disk_directory,disk_type,disk_group,disk_property,raid_level) values("
    ++ (fmt_d s.disk_port
        ++ (codes ","
            ++ (fmt_d s.enable
                ++ (codes ","
                    ++ (s.disk_vendor
                        ++ (codes ","
                            ++ (s.disk_address
                                ++ (codes ","
                                    ++ (s.disk_directory
                                        ++ (codes ","
                                            ++ (fmt_d s.disk_type
                                                ++ (codes ","
                                                    ++ (fmt_d s.disk_group
                                                        ++ (codes ","
                                                            ++ (fmt_d s.disk_property
                                                            ++ (codes ","
                                                            ++ (fmt_d s.raid_level
                                                            ++ codes ");"))))))))))))))))))

-- Without `sqlite_disconn`.
unfoldable pub insert_disk : ℕ → Option Bytes → Option Disk → M ℤ
insert_disk fuel (some db) (some s) = do
  fd ← file_lock (some file_lock_name) write_mode
  (r, conn) ← sqlite_conn (some db)
  if is_zero r
      then (do execute fuel (disk_insert s) conn; file_unlock fd; pure (pos 0))
      else do file_unlock fd; pure minus_one
insert_disk fuel db s = pure minus_one
