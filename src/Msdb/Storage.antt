-- ===== src/Msdb/Storage.antt =====
-- The recycling of disks: struct storage and its functions in libs/msdb/msdb.c.
pub mod Fields
pub mod Held
use build_project.Prelude.{
  ℕ, ◌+◌, ℤ, pos, minus_one, is_negative, is_zero, Bool, true, false, Option, none, some, List, [],
  ◌∷◌, ◌++◌, Bytes, codes, fmt_d, snprintf, ◌==◌, if◌then◌else◌,
}
use build_project.Sys.{M, pure, ◌>>=◌, ◌>>◌}
use build_project.Ccsqlite.{sqlite_conn}
use build_project.Msdb.{
  Array, file_lock, file_lock_name, write_mode, file_unlock, run_query, run_update, execute, i32,
  int_column, uint_column, double_column, text_column, rows_loop,
}

pub record Storage : Type 0 where
  pub id : ℤ
  pub recycle_mode : ℤ

-- The columns of a row into a struct that holds `s`.
unfoldable pub storage_row : ℕ → Storage → M Storage
storage_row stmt s = do
  id ← int_column stmt (pos 0) s.id
  recycle_mode ← int_column stmt (pos 1) s.recycle_mode
  pure (record { id = id; recycle_mode = recycle_mode })

unfoldable pub storages_query : Bytes
storages_query = snprintf 256 (codes "select id, recycle_mode from storage;")

-- SATA_MAX rounds; the result, the array and the count, which holds `count` before;
-- the code writes through the pointer to it untested, and it is taken to be valid.
unfoldable pub read_storages :
    Option Bytes → Option (Array Storage) → ℕ → M (ℤ × Option (Array Storage) × ℕ)
unfolding storage_row
read_storages (some db) (some cells) count =
    run_query db storages_query true
      (λ stmt. do
        (cells', i) ← rows_loop stmt (storage_row stmt) 16 0 cells
        pure (pos 0, some cells', i))
      (minus_one, some cells, count) (minus_one, some cells, 0)
read_storages db cells count = pure (minus_one, cells, count)

unfoldable pub storage_query : ℤ → Bytes
storage_query port_id =
    snprintf 256
      (codes "select id, recycle_mode from storage where id=" ++ (fmt_d port_id ++ codes ";"))

unfoldable pub read_storage : Option Bytes → Option Storage → ℤ → M (ℤ × Option Storage)
unfolding storage_row
read_storage (some db) (some s) port_id =
    if is_negative port_id
    then pure (minus_one, some s)
    else run_query db (storage_query port_id) true
        (λ stmt. do s' ← storage_row stmt s; pure (pos 0, some s')) (minus_one, some s)
        (minus_one, some s)
read_storage db s port_id = pure (minus_one, s)

unfoldable pub storage_update : Storage → Bytes
storage_update s = snprintf 256 (
    codes "update storage set recycle_mode="
    ++ (fmt_d s.recycle_mode ++ (codes " where id=" ++ (fmt_d s.id ++ codes ";"))))

unfoldable pub write_storage : ℕ → Option Bytes → Option Storage → M ℤ
write_storage fuel (some db) (some s) = run_update db (execute fuel (storage_update s))
write_storage fuel db s = pure minus_one
