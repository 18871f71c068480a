-- ===== src/Msdb/Storage/Held.antt =====
-- The functions on struct storage give back all that they acquire.
use build_project.Msdb.{Array}
use build_project.Prelude.{ℕ, ℤ, true, Option, none, some, Bytes, is_negative, Bool-cases, inl, inr}
use build_project.Msdb.Held.{
  Reads, Reads-bind, Reads-pure, int_column-Reads, uint_column-Reads, double_column-Reads,
  text_column-Reads, rows_loop-Reads, execute-Writes, Balanced, Balanced-pure, Settles,
  Settles-of_Balanced, run_query-Balanced, run_update-Settles,
}
use build_project.Msdb.Storage.{
  read_storages, read_storage, write_storage, storages_query, storage_query, storage_update,
  storage_row, Storage,
}

pub storage_row-Reads : (stmt : ℕ) (s : Storage) → Reads stmt (storage_row stmt s)
unfolding storage_row
storage_row-Reads stmt s =
    search
      (
        Reads-bind, Reads-pure, int_column-Reads, uint_column-Reads, double_column-Reads,
        text_column-Reads,
      )
      depth 45

pub read_storages-Balanced :
    (db : Option Bytes) (cells : Option (Array Storage)) (count : ℕ)
    → Balanced (read_storages db cells count)
unfolding read_storages
read_storages-Balanced none cells count = Balanced-pure _
read_storages-Balanced (some db) none count = Balanced-pure _
read_storages-Balanced (some db) (some cells) count =
    run_query-Balanced db storages_query true _ _ _ λ stmt.
      Reads-bind (rows_loop-Reads stmt (storage_row stmt) (storage_row-Reads stmt) 16 0 cells)
        λ (cells', i). Reads-pure _

pub read_storage-Balanced :
    (db : Option Bytes) (s : Option Storage) (port_id : ℤ) → Balanced (read_storage db s port_id)
unfolding read_storage
read_storage-Balanced none s port_id = Balanced-pure _
read_storage-Balanced (some db) none port_id = Balanced-pure _
read_storage-Balanced (some db) (some s) port_id = elim (Bool-cases (is_negative port_id)) [
  | inl neg ↦ rw neg (Balanced-pure _)
  | inr fine ↦ rw fine (
      run_query-Balanced db (storage_query port_id) true _ _ _
        λ stmt. Reads-bind (storage_row-Reads stmt s) λ s'. Reads-pure _)
]

pub write_storage-Settles :
    (fuel : ℕ) (db : Option Bytes) (s : Option Storage) → Settles (write_storage fuel db s)
unfolding write_storage
write_storage-Settles fuel none s = Settles-of_Balanced (Balanced-pure _)
write_storage-Settles fuel (some db) none = Settles-of_Balanced (Balanced-pure _)
write_storage-Settles fuel (some db) (some s) =
    run_update-Settles db _ (execute-Writes fuel (storage_update s))
