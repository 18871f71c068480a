-- ===== src/Msdb/Motion/Held.antt =====
-- The functions on struct motion give back all that they acquire.
use build_project.Msdb.{Array}
use build_project.Prelude.{ℕ, ℤ, true, Option, none, some, Bytes}
use build_project.Msdb.Held.{
  Reads, Reads-bind, Reads-pure, int_column-Reads, uint_column-Reads, double_column-Reads,
  text_column-Reads, rows_loop-Reads, Balanced, Balanced-pure, run_query-Balanced,
}
use build_project.Msdb.Motion.{
  read_motion, read_motions, motion_query, motions_query, motion_row, Motion,
}

pub motion_row-Reads : (stmt : ℕ) (s : Motion) → Reads stmt (motion_row stmt s)
unfolding motion_row
motion_row-Reads stmt s =
    search
      (
        Reads-bind, Reads-pure, int_column-Reads, uint_column-Reads, double_column-Reads,
        text_column-Reads,
      )
      depth 45

pub read_motion-Balanced :
    (db : Option Bytes) (s : Option Motion) (id : ℤ) → Balanced (read_motion db s id)
unfolding read_motion
read_motion-Balanced none s id = Balanced-pure _
read_motion-Balanced (some db) none id = Balanced-pure _
read_motion-Balanced (some db) (some s) id =
    run_query-Balanced db (motion_query id) true _ _ _
      λ stmt. Reads-bind (motion_row-Reads stmt s) λ s'. Reads-pure _

pub read_motions-Balanced :
    (db : Option Bytes) (cells : Option (Array Motion)) (count : ℕ)
    → Balanced (read_motions db cells count)
unfolding read_motions
read_motions-Balanced none cells count = Balanced-pure _
read_motions-Balanced (some db) none count = Balanced-pure _
read_motions-Balanced (some db) (some cells) count =
    run_query-Balanced db motions_query true _ _ _ λ stmt.
      Reads-bind (rows_loop-Reads stmt (motion_row stmt) (motion_row-Reads stmt) 64 0 cells)
        λ (cells', i). Reads-pure _
