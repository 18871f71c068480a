-- ===== src/Msdb/Upnp/Held.antt =====
-- The functions on struct upnp give back all that they acquire.
use build_project.Prelude.{ℕ, false, Option, none, some, Bytes}
use build_project.Msdb.Held.{
  Reads, Reads-bind, Reads-pure, int_column-Reads, uint_column-Reads, double_column-Reads,
  text_column-Reads, execute-Writes, Balanced, Balanced-pure, Settles, Settles-of_Balanced,
  run_query-Balanced, run_update-Settles,
}
use build_project.Msdb.Upnp.{read_upnp, write_upnp, upnp_query, upnp_update, upnp_row, Upnp}

pub upnp_row-Reads : (stmt : ℕ) (s : Upnp) → Reads stmt (upnp_row stmt s)
unfolding upnp_row
upnp_row-Reads stmt s =
    search
      (
        Reads-bind, Reads-pure, int_column-Reads, uint_column-Reads, double_column-Reads,
        text_column-Reads,
      )
      depth 45

pub read_upnp-Balanced : (db : Option Bytes) (s : Option Upnp) → Balanced (read_upnp db s)
unfolding read_upnp
read_upnp-Balanced none s = Balanced-pure _
read_upnp-Balanced (some db) none = Balanced-pure _
read_upnp-Balanced (some db) (some s) =
    run_query-Balanced db upnp_query false _ _ _
      λ stmt. Reads-bind (upnp_row-Reads stmt s) λ s'. Reads-pure _

pub write_upnp-Settles :
    (fuel : ℕ) (db : Option Bytes) (s : Option Upnp) → Settles (write_upnp fuel db s)
unfolding write_upnp
write_upnp-Settles fuel none s = Settles-of_Balanced (Balanced-pure _)
write_upnp-Settles fuel (some db) none = Settles-of_Balanced (Balanced-pure _)
write_upnp-Settles fuel (some db) (some s) =
    run_update-Settles db _ (execute-Writes fuel (upnp_update s))
