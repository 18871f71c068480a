-- ===== src/Msdb/VideoLoss/Held.antt =====
-- The functions on struct video_loss give back all that they acquire.
use build_project.Msdb.{Array}
use build_project.Prelude.{ℕ, ℤ, true, Option, none, some, Bytes}
use build_project.Msdb.Held.{
  Reads, Reads-bind, Reads-pure, int_column-Reads, uint_column-Reads, double_column-Reads,
  text_column-Reads, rows_loop-Reads, execute-Writes, Balanced, Balanced-pure, Settles,
  Settles-of_Balanced, run_query-Balanced, run_update-Settles,
}
use build_project.Msdb.VideoLoss.{
  read_video_lost, read_video_losts, write_video_lost, insert_video_lost, video_lost_query,
  video_losts_query, video_lost_update, video_lost_insert, video_loss_row, VideoLoss,
}

pub video_loss_row-Reads : (stmt : ℕ) (s : VideoLoss) → Reads stmt (video_loss_row stmt s)
unfolding video_loss_row
video_loss_row-Reads stmt s =
    search
      (
        Reads-bind, Reads-pure, int_column-Reads, uint_column-Reads, double_column-Reads,
        text_column-Reads,
      )
      depth 45

pub read_video_lost-Balanced :
    (db : Option Bytes) (s : Option VideoLoss) (chn_id : ℤ) → Balanced (read_video_lost db s chn_id)
unfolding read_video_lost
read_video_lost-Balanced none s chn_id = Balanced-pure _
read_video_lost-Balanced (some db) none chn_id = Balanced-pure _
read_video_lost-Balanced (some db) (some s) chn_id =
    run_query-Balanced db (video_lost_query chn_id) true _ _ _
      λ stmt. Reads-bind (video_loss_row-Reads stmt s) λ s'. Reads-pure _

pub read_video_losts-Balanced :
    (db : Option Bytes) (cells : Option (Array VideoLoss)) (count : ℕ)
    → Balanced (read_video_losts db cells count)
unfolding read_video_losts
read_video_losts-Balanced none cells count = Balanced-pure _
read_video_losts-Balanced (some db) none count = Balanced-pure _
read_video_losts-Balanced (some db) (some cells) count =
    run_query-Balanced db video_losts_query true _ _ _ λ stmt.
      Reads-bind (rows_loop-Reads stmt (video_loss_row stmt) (video_loss_row-Reads stmt) 64 0 cells)
        λ (cells', i). Reads-pure _

pub write_video_lost-Settles :
    (fuel : ℕ) (db : Option Bytes) (s : Option VideoLoss) → Settles (write_video_lost fuel db s)
unfolding write_video_lost
write_video_lost-Settles fuel none s = Settles-of_Balanced (Balanced-pure _)
write_video_lost-Settles fuel (some db) none = Settles-of_Balanced (Balanced-pure _)
write_video_lost-Settles fuel (some db) (some s) =
    run_update-Settles db _ (execute-Writes fuel (video_lost_update s))

pub insert_video_lost-Settles :
    (fuel : ℕ) (db : Option Bytes) (s : Option VideoLoss) → Settles (insert_video_lost fuel db s)
unfolding insert_video_lost
insert_video_lost-Settles fuel none s = Settles-of_Balanced (Balanced-pure _)
insert_video_lost-Settles fuel (some db) none = Settles-of_Balanced (Balanced-pure _)
insert_video_lost-Settles fuel (some db) (some s) =
    run_update-Settles db _ (execute-Writes fuel (video_lost_insert s))
