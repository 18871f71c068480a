-- ===== src/Msdb/Holiday/Held.antt =====
-- The functions on struct holiday give back all that they acquire.
use build_project.Msdb.{Array}
use build_project.Prelude.{ℕ, true, Option, none, some, Bytes}
use build_project.Msdb.Held.{
  Reads, Reads-bind, Reads-pure, int_column-Reads, uint_column-Reads, double_column-Reads,
  text_column-Reads, rows_loop-Reads, execute-Writes, Balanced, Balanced-pure, Settles,
  Settles-of_Balanced, run_query-Balanced, run_update-Settles,
}
use build_project.Msdb.Holiday.{
  read_holidays, write_holiday, holidays_query, holiday_update, holiday_row, Holiday,
}

pub holiday_row-Reads : (stmt : ℕ) (s : Holiday) → Reads stmt (holiday_row stmt s)
unfolding holiday_row
holiday_row-Reads stmt s =
    search
      (
        Reads-bind, Reads-pure, int_column-Reads, uint_column-Reads, double_column-Reads,
        text_column-Reads,
      )
      depth 45

pub read_holidays-Balanced :
    (db : Option Bytes) (cells : Option (Array Holiday)) (count : ℕ)
    → Balanced (read_holidays db cells count)
unfolding read_holidays
read_holidays-Balanced none cells count = Balanced-pure _
read_holidays-Balanced (some db) none count = Balanced-pure _
read_holidays-Balanced (some db) (some cells) count =
    run_query-Balanced db holidays_query true _ _ _ λ stmt.
      Reads-bind (rows_loop-Reads stmt (holiday_row stmt) (holiday_row-Reads stmt) 64 0 cells)
        λ (cells', i). Reads-pure _

pub write_holiday-Settles :
    (fuel : ℕ) (db : Option Bytes) (s : Option Holiday) → Settles (write_holiday fuel db s)
unfolding write_holiday
write_holiday-Settles fuel none s = Settles-of_Balanced (Balanced-pure _)
write_holiday-Settles fuel (some db) none = Settles-of_Balanced (Balanced-pure _)
write_holiday-Settles fuel (some db) (some s) =
    run_update-Settles db _ (execute-Writes fuel (holiday_update s))
