-- ===== src/Msdb/Time/Held.antt =====
-- The functions on struct time give back all that they acquire.
use build_project.Prelude.{ℕ, false, Option, none, some, Bytes}
use build_project.Msdb.Held.{
  Reads, Reads-bind, Reads-pure, int_column-Reads, uint_column-Reads, double_column-Reads,
  text_column-Reads, execute-Writes, Balanced, Balanced-pure, Settles, Settles-of_Balanced,
  run_query-Balanced, run_update-Settles,
}
use build_project.Msdb.Time.{read_time, write_time, time_query, time_update, time_row, Time}

pub time_row-Reads : (stmt : ℕ) (s : Time) → Reads stmt (time_row stmt s)
unfolding time_row
time_row-Reads stmt s =
    search
      (
        Reads-bind, Reads-pure, int_column-Reads, uint_column-Reads, double_column-Reads,
        text_column-Reads,
      )
      depth 45

pub read_time-Balanced : (db : Option Bytes) (s : Option Time) → Balanced (read_time db s)
unfolding read_time
read_time-Balanced none s = Balanced-pure _
read_time-Balanced (some db) none = Balanced-pure _
read_time-Balanced (some db) (some s) =
    run_query-Balanced db time_query false _ _ _
      λ stmt. Reads-bind (time_row-Reads stmt s) λ s'. Reads-pure _

pub write_time-Settles :
    (fuel : ℕ) (db : Option Bytes) (s : Option Time) → Settles (write_time fuel db s)
unfolding write_time
write_time-Settles fuel none s = Settles-of_Balanced (Balanced-pure _)
write_time-Settles fuel (some db) none = Settles-of_Balanced (Balanced-pure _)
write_time-Settles fuel (some db) (some s) =
    run_update-Settles db _ (execute-Writes fuel (time_update s))
