-- ===== src/Msdb/Record/Held.antt =====
-- The functions on struct record give back all that they acquire.
use build_project.Msdb.{Array}
use build_project.Prelude.{ℕ, ℤ, true, Option, none, some, Bytes, is_negative, Bool-cases, inl, inr}
use build_project.Msdb.Held.{
  Reads, Reads-bind, Reads-pure, int_column-Reads, uint_column-Reads, double_column-Reads,
  text_column-Reads, rows_loop-Reads, execute-Writes, Balanced, Balanced-pure, Settles,
  Settles-of_Balanced, run_query-Balanced, run_update-Settles,
}
use build_project.Msdb.Record.{
  read_record, read_records, write_record, insert_record, write_record_prev_post, record_query,
  records_query, record_update, record_insert, record_prev_post_update, record_row, Record,
}

pub record_row-Reads : (stmt : ℕ) (s : Record) → Reads stmt (record_row stmt s)
unfolding record_row
record_row-Reads stmt s =
    search
      (
        Reads-bind, Reads-pure, int_column-Reads, uint_column-Reads, double_column-Reads,
        text_column-Reads,
      )
      depth 45

pub read_record-Balanced :
    (db : Option Bytes) (s : Option Record) (chn_id : ℤ) → Balanced (read_record db s chn_id)
unfolding read_record
read_record-Balanced none s chn_id = Balanced-pure _
read_record-Balanced (some db) none chn_id = Balanced-pure _
read_record-Balanced (some db) (some s) chn_id = elim (Bool-cases (is_negative chn_id)) [
  | inl neg ↦ rw neg (Balanced-pure _)
  | inr fine ↦ rw fine (
      run_query-Balanced db (record_query chn_id) true _ _ _
        λ stmt. Reads-bind (record_row-Reads stmt s) λ s'. Reads-pure _)
]

pub read_records-Balanced :
    (db : Option Bytes) (cells : Option (Array Record)) (count : ℕ)
    → Balanced (read_records db cells count)
unfolding read_records
read_records-Balanced none cells count = Balanced-pure _
read_records-Balanced (some db) none count = Balanced-pure _
read_records-Balanced (some db) (some cells) count =
    run_query-Balanced db records_query true _ _ _ λ stmt.
      Reads-bind (rows_loop-Reads stmt (record_row stmt) (record_row-Reads stmt) 64 0 cells)
        λ (cells', i). Reads-pure _

pub write_record-Settles :
    (fuel : ℕ) (db : Option Bytes) (s : Option Record) → Settles (write_record fuel db s)
unfolding write_record
write_record-Settles fuel none s = Settles-of_Balanced (Balanced-pure _)
write_record-Settles fuel (some db) none = Settles-of_Balanced (Balanced-pure _)
write_record-Settles fuel (some db) (some s) =
    run_update-Settles db _ (execute-Writes fuel (record_update s))

pub insert_record-Settles :
    (fuel : ℕ) (db : Option Bytes) (s : Option Record) → Settles (insert_record fuel db s)
unfolding insert_record
insert_record-Settles fuel none s = Settles-of_Balanced (Balanced-pure _)
insert_record-Settles fuel (some db) none = Settles-of_Balanced (Balanced-pure _)
insert_record-Settles fuel (some db) (some s) =
    run_update-Settles db _ (execute-Writes fuel (record_insert s))

pub write_record_prev_post-Settles :
    (fuel : ℕ) (db : Option Bytes) (s : Option Record) → Settles (write_record_prev_post fuel db s)
unfolding write_record_prev_post
write_record_prev_post-Settles fuel none s = Settles-of_Balanced (Balanced-pure _)
write_record_prev_post-Settles fuel (some db) none = Settles-of_Balanced (Balanced-pure _)
write_record_prev_post-Settles fuel (some db) (some s) =
    run_update-Settles db _ (execute-Writes fuel (record_prev_post_update s))
