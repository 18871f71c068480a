-- ===== src/Msdb/Osd/Held.antt =====
-- The functions on struct osd give back all that they acquire.
use build_project.Msdb.{Array}
use build_project.Prelude.{true, ℕ, ℤ, Option, none, some, Bytes, inl, inr, is_negative, Bool-cases}
use build_project.Msdb.Held.{
  Reads, Reads-bind, Reads-pure, int_column-Reads, double_column-Reads, text_column-Reads,
  rows_loop-Reads, Writes-bind, execute-Writes, float_format-Writes, Balanced, Balanced-pure,
  Settles, Settles-of_Balanced, run_query-Balanced, run_update-Settles,
}
use build_project.Msdb.Osd.{
  Osd, osd_row, read_osd, read_osd_name, write_osd, insert_osd, read_osds, osd_query, max_camera,
  osd_name_query, osds_query, osd_update, osd_insert,
}

pub osd_row-Reads : (stmt : ℕ) (o : Osd) → Reads stmt (osd_row stmt o)
unfolding osd_row
osd_row-Reads stmt o =
    search (Reads-bind, Reads-pure, int_column-Reads, double_column-Reads, text_column-Reads) depth
      30

pub read_osd-Balanced :
    (db : Option Bytes) (osd : Option Osd) (chn_id : ℤ) → Balanced (read_osd db osd chn_id)
unfolding read_osd
read_osd-Balanced none osd chn_id = Balanced-pure _
read_osd-Balanced (some db) none chn_id = Balanced-pure _
read_osd-Balanced (some db) (some osd) chn_id = elim (Bool-cases (is_negative chn_id)) [
  | inl neg ↦ rw neg (Balanced-pure _)
  | inr ok ↦ rw ok (
      run_query-Balanced db (osd_query chn_id) true _ _ _
        λ stmt. Reads-bind (osd_row-Reads stmt osd) λ o. Reads-pure _)
]

pub read_osd_name-Balanced :
    (db name : Option Bytes) (chn_id : ℤ) → Balanced (read_osd_name db name chn_id)
unfolding read_osd_name
read_osd_name-Balanced none name chn_id = Balanced-pure _
read_osd_name-Balanced (some db) none chn_id = Balanced-pure _
read_osd_name-Balanced (some db) (some name) chn_id = elim (Bool-cases (is_negative chn_id)) [
  | inl neg ↦ rw neg (Balanced-pure _)
  | inr ok ↦ rw ok (
      run_query-Balanced db (osd_name_query chn_id) true _ _ _
        λ stmt. Reads-bind (text_column-Reads stmt _ _ _) λ v. Reads-pure _)
]

pub read_osds-Balanced :
    (db : Option Bytes) (osds : Option (Array Osd)) (count : ℕ) → Balanced (read_osds db osds count)
unfolding read_osds
read_osds-Balanced none osds count = Balanced-pure _
read_osds-Balanced (some db) none count = Balanced-pure _
read_osds-Balanced (some db) (some osds) count = run_query-Balanced db osds_query true _ _ _ λ stmt.
    Reads-bind (rows_loop-Reads stmt (osd_row stmt) (osd_row-Reads stmt) max_camera 0 osds)
      λ (cells, i). Reads-pure _

pub write_osd-Settles :
    (fuel : ℕ) (db : Option Bytes) (osd : Option Osd) → Settles (write_osd fuel db osd)
unfolding write_osd
write_osd-Settles fuel none osd = Settles-of_Balanced (Balanced-pure _)
write_osd-Settles fuel (some db) none = Settles-of_Balanced (Balanced-pure _)
write_osd-Settles fuel (some db) (some osd) =
    run_update-Settles db _ λ conn.
      Writes-bind (float_format-Writes conn) λ f. execute-Writes fuel (osd_update f osd) conn

pub insert_osd-Settles :
    (fuel : ℕ) (db : Option Bytes) (osd : Option Osd) → Settles (insert_osd fuel db osd)
unfolding insert_osd
insert_osd-Settles fuel none osd = Settles-of_Balanced (Balanced-pure _)
insert_osd-Settles fuel (some db) none = Settles-of_Balanced (Balanced-pure _)
insert_osd-Settles fuel (some db) (some osd) =
    run_update-Settles db _ λ conn.
      Writes-bind (float_format-Writes conn) λ f. execute-Writes fuel (osd_insert f osd) conn
