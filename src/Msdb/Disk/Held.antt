-- ===== src/Msdb/Disk/Held.antt =====
-- The functions on struct diskInfo give back all that they acquire.
use build_project.Msdb.{Array}
use build_project.Prelude.{ℕ, ℤ, true, Option, none, some, Bytes}
use build_project.Msdb.Held.{
  Reads, Reads-bind, Reads-pure, int_column-Reads, uint_column-Reads, double_column-Reads,
  text_column-Reads, rows_loop-Reads, execute-Writes, Balanced, Balanced-pure, Settles,
  Settles-of_Balanced, run_query-Balanced, run_update-Settles,
}
use build_project.Msdb.Disk.{
  read_disks, read_disk, write_disk, disks_query, disk_query, disk_update, disk_row, Disk,
}

pub disk_row-Reads : (stmt : ℕ) (s : Disk) → Reads stmt (disk_row stmt s)
unfolding disk_row
disk_row-Reads stmt s =
    search
      (
        Reads-bind, Reads-pure, int_column-Reads, uint_column-Reads, double_column-Reads,
        text_column-Reads,
      )
      depth 45

pub read_disks-Balanced :
    (db : Option Bytes) (cells : Option (Array Disk)) (count : ℕ)
    → Balanced (read_disks db cells count)
unfolding read_disks
read_disks-Balanced none cells count = Balanced-pure _
read_disks-Balanced (some db) none count = Balanced-pure _
read_disks-Balanced (some db) (some cells) count =
    run_query-Balanced db disks_query true _ _ _ λ stmt.
      Reads-bind (rows_loop-Reads stmt (disk_row stmt) (disk_row-Reads stmt) 36 0 cells)
        λ (cells', i). Reads-pure _

pub read_disk-Balanced :
    (db : Option Bytes) (s : Option Disk) (port_id : ℤ) → Balanced (read_disk db s port_id)
unfolding read_disk
read_disk-Balanced none s port_id = Balanced-pure _
read_disk-Balanced (some db) none port_id = Balanced-pure _
read_disk-Balanced (some db) (some s) port_id =
    run_query-Balanced db (disk_query port_id) true _ _ _
      λ stmt. Reads-bind (disk_row-Reads stmt s) λ s'. Reads-pure _

pub write_disk-Settles :
    (fuel : ℕ) (db : Option Bytes) (s : Option Disk) → Settles (write_disk fuel db s)
unfolding write_disk
write_disk-Settles fuel none s = Settles-of_Balanced (Balanced-pure _)
write_disk-Settles fuel (some db) none = Settles-of_Balanced (Balanced-pure _)
write_disk-Settles fuel (some db) (some s) =
    run_update-Settles db _ (execute-Writes fuel (disk_update s))
