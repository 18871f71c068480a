-- ===== src/Msdb/PtzPort/Held.antt =====
-- The functions on struct ptz_port give back all that they acquire.
use build_project.Msdb.{Array}
use build_project.Prelude.{ℕ, ℤ, true, Option, none, some, Bytes, is_negative, Bool-cases, inl, inr}
use build_project.Msdb.Held.{
  Reads, Reads-bind, Reads-pure, int_column-Reads, uint_column-Reads, double_column-Reads,
  text_column-Reads, rows_loop-Reads, execute-Writes, Balanced, Balanced-pure, Settles,
  Settles-of_Balanced, run_query-Balanced, run_update-Settles,
}
use build_project.Msdb.PtzPort.{
  read_ptz_port, write_ptz_port, read_ptz_ports, ptz_port_query, ptz_port_update, ptz_ports_query,
  ptz_port_row, PtzPort,
}

pub ptz_port_row-Reads : (stmt : ℕ) (s : PtzPort) → Reads stmt (ptz_port_row stmt s)
unfolding ptz_port_row
ptz_port_row-Reads stmt s =
    search
      (
        Reads-bind, Reads-pure, int_column-Reads, uint_column-Reads, double_column-Reads,
        text_column-Reads,
      )
      depth 45

pub read_ptz_port-Balanced :
    (db : Option Bytes) (s : Option PtzPort) (chn_id : ℤ) → Balanced (read_ptz_port db s chn_id)
unfolding read_ptz_port
read_ptz_port-Balanced none s chn_id = Balanced-pure _
read_ptz_port-Balanced (some db) none chn_id = Balanced-pure _
read_ptz_port-Balanced (some db) (some s) chn_id = elim (Bool-cases (is_negative chn_id)) [
  | inl neg ↦ rw neg (Balanced-pure _)
  | inr fine ↦ rw fine (
      run_query-Balanced db (ptz_port_query chn_id) true _ _ _
        λ stmt. Reads-bind (ptz_port_row-Reads stmt s) λ s'. Reads-pure _)
]

pub write_ptz_port-Settles :
    (fuel : ℕ) (db : Option Bytes) (s : Option PtzPort) → Settles (write_ptz_port fuel db s)
unfolding write_ptz_port
write_ptz_port-Settles fuel none s = Settles-of_Balanced (Balanced-pure _)
write_ptz_port-Settles fuel (some db) none = Settles-of_Balanced (Balanced-pure _)
write_ptz_port-Settles fuel (some db) (some s) =
    run_update-Settles db _ (execute-Writes fuel (ptz_port_update s))

pub read_ptz_ports-Balanced :
    (db : Option Bytes) (cells : Option (Array PtzPort)) (count : ℕ)
    → Balanced (read_ptz_ports db cells count)
unfolding read_ptz_ports
read_ptz_ports-Balanced none cells count = Balanced-pure _
read_ptz_ports-Balanced (some db) none count = Balanced-pure _
read_ptz_ports-Balanced (some db) (some cells) count =
    run_query-Balanced db ptz_ports_query true _ _ _ λ stmt.
      Reads-bind (rows_loop-Reads stmt (ptz_port_row stmt) (ptz_port_row-Reads stmt) 64 0 cells)
        λ (cells', i). Reads-pure _
