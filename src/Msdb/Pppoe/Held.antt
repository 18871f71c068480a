-- ===== src/Msdb/Pppoe/Held.antt =====
-- The functions on struct pppoe give back all that they acquire.
use build_project.Prelude.{ℕ, false, Option, none, some, Bytes}
use build_project.Msdb.Held.{
  Reads, Reads-bind, Reads-pure, int_column-Reads, uint_column-Reads, double_column-Reads,
  text_column-Reads, execute-Writes, Balanced, Balanced-pure, Settles, Settles-of_Balanced,
  run_query-Balanced, run_update-Settles,
}
use build_project.Msdb.Pppoe.{read_pppoe, write_pppoe, pppoe_query, pppoe_update, pppoe_row, Pppoe}

pub pppoe_row-Reads : (stmt : ℕ) (s : Pppoe) → Reads stmt (pppoe_row stmt s)
unfolding pppoe_row
pppoe_row-Reads stmt s =
    search
      (
        Reads-bind, Reads-pure, int_column-Reads, uint_column-Reads, double_column-Reads,
        text_column-Reads,
      )
      depth 45

pub read_pppoe-Balanced : (db : Option Bytes) (s : Option Pppoe) → Balanced (read_pppoe db s)
unfolding read_pppoe
read_pppoe-Balanced none s = Balanced-pure _
read_pppoe-Balanced (some db) none = Balanced-pure _
read_pppoe-Balanced (some db) (some s) =
    run_query-Balanced db pppoe_query false _ _ _
      λ stmt. Reads-bind (pppoe_row-Reads stmt s) λ s'. Reads-pure _

pub write_pppoe-Settles :
    (fuel : ℕ) (db : Option Bytes) (s : Option Pppoe) → Settles (write_pppoe fuel db s)
unfolding write_pppoe
write_pppoe-Settles fuel none s = Settles-of_Balanced (Balanced-pure _)
write_pppoe-Settles fuel (some db) none = Settles-of_Balanced (Balanced-pure _)
write_pppoe-Settles fuel (some db) (some s) =
    run_update-Settles db _ (execute-Writes fuel (pppoe_update s))
