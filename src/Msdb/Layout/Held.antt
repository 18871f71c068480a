-- ===== src/Msdb/Layout/Held.antt =====
-- The functions on struct layout give back all that they acquire.
use build_project.Prelude.{ℕ, false, Option, none, some, Bytes}
use build_project.Msdb.Held.{
  Reads, Reads-bind, Reads-pure, int_column-Reads, uint_column-Reads, double_column-Reads,
  text_column-Reads, execute-Writes, Balanced, Balanced-pure, Settles, Settles-of_Balanced,
  run_query-Balanced, run_update-Settles,
}
use build_project.Msdb.Layout.{
  read_layout, write_layout, layout_query, layout_update, layout_row, Layout,
}

pub layout_row-Reads : (stmt : ℕ) (s : Layout) → Reads stmt (layout_row stmt s)
unfolding layout_row
layout_row-Reads stmt s =
    search
      (
        Reads-bind, Reads-pure, int_column-Reads, uint_column-Reads, double_column-Reads,
        text_column-Reads,
      )
      depth 45

pub read_layout-Balanced : (db : Option Bytes) (s : Option Layout) → Balanced (read_layout db s)
unfolding read_layout
read_layout-Balanced none s = Balanced-pure _
read_layout-Balanced (some db) none = Balanced-pure _
read_layout-Balanced (some db) (some s) =
    run_query-Balanced db layout_query false _ _ _
      λ stmt. Reads-bind (layout_row-Reads stmt s) λ s'. Reads-pure _

pub write_layout-Settles :
    (fuel : ℕ) (db : Option Bytes) (s : Option Layout) → Settles (write_layout fuel db s)
unfolding write_layout
write_layout-Settles fuel none s = Settles-of_Balanced (Balanced-pure _)
write_layout-Settles fuel (some db) none = Settles-of_Balanced (Balanced-pure _)
write_layout-Settles fuel (some db) (some s) =
    run_update-Settles db _ (execute-Writes fuel (layout_update s))
