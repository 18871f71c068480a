-- ===== src/Msdb/AlarmOut/Held.antt =====
-- The functions on struct alarm_out give back all that they acquire.
use build_project.Msdb.{Array}
use build_project.Prelude.{ℕ, ℤ, true, Option, none, some, Bytes, is_negative, Bool-cases, inl, inr}
use build_project.Msdb.Held.{
  Reads, Reads-bind, Reads-pure, int_column-Reads, uint_column-Reads, double_column-Reads,
  text_column-Reads, rows_loop-Reads, execute-Writes, Balanced, Balanced-pure, Settles,
  Settles-of_Balanced, run_query-Balanced, run_update-Settles,
}
use build_project.Msdb.AlarmOut.{
  read_alarm_out, read_alarm_outs, write_alarm_out, alarm_out_query, alarm_outs_query,
  alarm_out_update, alarm_out_row, AlarmOut,
}

pub alarm_out_row-Reads : (stmt : ℕ) (s : AlarmOut) → Reads stmt (alarm_out_row stmt s)
unfolding alarm_out_row
alarm_out_row-Reads stmt s =
    search
      (
        Reads-bind, Reads-pure, int_column-Reads, uint_column-Reads, double_column-Reads,
        text_column-Reads,
      )
      depth 45

pub read_alarm_out-Balanced :
    (db : Option Bytes) (s : Option AlarmOut) (alarm_id : ℤ)
    → Balanced (read_alarm_out db s alarm_id)
unfolding read_alarm_out
read_alarm_out-Balanced none s alarm_id = Balanced-pure _
read_alarm_out-Balanced (some db) none alarm_id = Balanced-pure _
read_alarm_out-Balanced (some db) (some s) alarm_id = elim (Bool-cases (is_negative alarm_id)) [
  | inl neg ↦ rw neg (Balanced-pure _)
  | inr fine ↦ rw fine (
      run_query-Balanced db (alarm_out_query alarm_id) true _ _ _
        λ stmt. Reads-bind (alarm_out_row-Reads stmt s) λ s'. Reads-pure _)
]

pub read_alarm_outs-Balanced :
    (db : Option Bytes) (cells : Option (Array AlarmOut)) (count : ℕ)
    → Balanced (read_alarm_outs db cells count)
unfolding read_alarm_outs
read_alarm_outs-Balanced none cells count = Balanced-pure _
read_alarm_outs-Balanced (some db) none count = Balanced-pure _
read_alarm_outs-Balanced (some db) (some cells) count =
    run_query-Balanced db alarm_outs_query true _ _ _ λ stmt.
      Reads-bind (rows_loop-Reads stmt (alarm_out_row stmt) (alarm_out_row-Reads stmt) 4 0 cells)
        λ (cells', i). Reads-pure _

pub write_alarm_out-Settles :
    (fuel : ℕ) (db : Option Bytes) (s : Option AlarmOut) → Settles (write_alarm_out fuel db s)
unfolding write_alarm_out
write_alarm_out-Settles fuel none s = Settles-of_Balanced (Balanced-pure _)
write_alarm_out-Settles fuel (some db) none = Settles-of_Balanced (Balanced-pure _)
write_alarm_out-Settles fuel (some db) (some s) =
    run_update-Settles db _ (execute-Writes fuel (alarm_out_update s))
