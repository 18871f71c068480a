-- ===== src/Msdb/PtzSpeed/Held.antt =====
-- The functions on struct ptz_speed give back all that they acquire.
use build_project.Msdb.{Array}
use build_project.Prelude.{
  ℕ, ℤ, false, Option, none, some, Bytes, is_negative, Bool-cases, inl, inr,
}
use build_project.Msdb.Held.{
  Reads, Reads-bind, Reads-pure, int_column-Reads, uint_column-Reads, double_column-Reads,
  text_column-Reads, rows_loop-Reads, execute-Writes, Balanced, Balanced-pure, Settles,
  Settles-of_Balanced, run_query-Balanced, run_update-Settles,
}
use build_project.Msdb.PtzSpeed.{
  read_ptz_speeds, read_ptz_speed, write_ptz_speed, ptz_speeds_query, ptz_speed_query,
  ptz_speed_update, ptz_speed_row, PtzSpeed,
}

pub ptz_speed_row-Reads : (stmt : ℕ) (s : PtzSpeed) → Reads stmt (ptz_speed_row stmt s)
unfolding ptz_speed_row
ptz_speed_row-Reads stmt s =
    search
      (
        Reads-bind, Reads-pure, int_column-Reads, uint_column-Reads, double_column-Reads,
        text_column-Reads,
      )
      depth 45

pub read_ptz_speeds-Balanced :
    (db : Option Bytes) (cells : Option (Array PtzSpeed)) (count : ℕ)
    → Balanced (read_ptz_speeds db cells count)
unfolding read_ptz_speeds
read_ptz_speeds-Balanced none cells count = Balanced-pure _
read_ptz_speeds-Balanced (some db) none count = Balanced-pure _
read_ptz_speeds-Balanced (some db) (some cells) count =
    run_query-Balanced db ptz_speeds_query false _ _ _ λ stmt.
      Reads-bind (rows_loop-Reads stmt (ptz_speed_row stmt) (ptz_speed_row-Reads stmt) 64 0 cells)
        λ (cells', i). Reads-pure _

pub read_ptz_speed-Balanced :
    (db : Option Bytes) (s : Option PtzSpeed) (chn_id : ℤ) → Balanced (read_ptz_speed db s chn_id)
unfolding read_ptz_speed
read_ptz_speed-Balanced none s chn_id = Balanced-pure _
read_ptz_speed-Balanced (some db) none chn_id = Balanced-pure _
read_ptz_speed-Balanced (some db) (some s) chn_id = elim (Bool-cases (is_negative chn_id)) [
  | inl neg ↦ rw neg (Balanced-pure _)
  | inr fine ↦ rw fine (
      run_query-Balanced db (ptz_speed_query chn_id) false _ _ _
        λ stmt. Reads-bind (ptz_speed_row-Reads stmt s) λ s'. Reads-pure _)
]

pub write_ptz_speed-Settles :
    (fuel : ℕ) (db : Option Bytes) (s : Option PtzSpeed) → Settles (write_ptz_speed fuel db s)
unfolding write_ptz_speed
write_ptz_speed-Settles fuel none s = Settles-of_Balanced (Balanced-pure _)
write_ptz_speed-Settles fuel (some db) none = Settles-of_Balanced (Balanced-pure _)
write_ptz_speed-Settles fuel (some db) (some s) =
    run_update-Settles db _ (execute-Writes fuel (ptz_speed_update s))
