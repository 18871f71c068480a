-- ===== src/Msdb/Ddns/Held.antt =====
-- The functions on struct ddns give back all that they acquire.
use build_project.Prelude.{ℕ, false, Option, none, some, Bytes}
use build_project.Msdb.Held.{
  Reads, Reads-bind, Reads-pure, int_column-Reads, uint_column-Reads, double_column-Reads,
  text_column-Reads, execute-Writes, Balanced, Balanced-pure, Settles, Settles-of_Balanced,
  run_query-Balanced, run_update-Settles,
}
use build_project.Msdb.Ddns.{read_ddns, write_ddns, ddns_query, ddns_update, ddns_row, Ddns}

pub ddns_row-Reads : (stmt : ℕ) (s : Ddns) → Reads stmt (ddns_row stmt s)
unfolding ddns_row
ddns_row-Reads stmt s =
    search
      (
        Reads-bind, Reads-pure, int_column-Reads, uint_column-Reads, double_column-Reads,
        text_column-Reads,
      )
      depth 45

pub read_ddns-Balanced : (db : Option Bytes) (s : Option Ddns) → Balanced (read_ddns db s)
unfolding read_ddns
read_ddns-Balanced none s = Balanced-pure _
read_ddns-Balanced (some db) none = Balanced-pure _
read_ddns-Balanced (some db) (some s) =
    run_query-Balanced db ddns_query false _ _ _
      λ stmt. Reads-bind (ddns_row-Reads stmt s) λ s'. Reads-pure _

pub write_ddns-Settles :
    (fuel : ℕ) (db : Option Bytes) (s : Option Ddns) → Settles (write_ddns fuel db s)
unfolding write_ddns
write_ddns-Settles fuel none s = Settles-of_Balanced (Balanced-pure _)
write_ddns-Settles fuel (some db) none = Settles-of_Balanced (Balanced-pure _)
write_ddns-Settles fuel (some db) (some s) =
    run_update-Settles db _ (execute-Writes fuel (ddns_update s))
