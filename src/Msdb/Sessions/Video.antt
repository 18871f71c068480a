-- ===== src/Msdb/Sessions/Video.antt =====
-- The sessions of the functions of libs/msdb/msdb.c on the tables of this group.
use build_project.Msdb.{Array}
use build_project.Prelude.{ℕ, ℤ, Option, List, Bytes}
use build_project.Sys.{Trace, Env}
use build_project.Sys.Monitor.{held, IsDocumented, IsIdle}
use build_project.Msdb.Sessions.{ReturnsIdle, SettlesIdle}
use build_project.Msdb.Osd.{Osd, read_osd, read_osds, write_osd, insert_osd, read_osd_name}
use build_project.Msdb.Osd.Held.{
  read_osd-Balanced, read_osds-Balanced, write_osd-Settles, insert_osd-Settles,
  read_osd_name-Balanced,
}
use build_project.Msdb.Record.{
  Record, read_record, read_records, write_record, insert_record, write_record_prev_post,
}
use build_project.Msdb.Record.Held.{
  read_record-Balanced, read_records-Balanced, write_record-Settles, insert_record-Settles,
  write_record_prev_post-Settles,
}
use build_project.Msdb.Layout.{Layout, read_layout, write_layout}
use build_project.Msdb.Layout.Held.{read_layout-Balanced, write_layout-Settles}
use build_project.Msdb.Motion.{Motion, read_motion, read_motions}
use build_project.Msdb.Motion.Held.{read_motion-Balanced, read_motions-Balanced}

-- If the system keeps to what it documents and nothing is held, each of these readers returns with
-- nothing held: the lock file, both locks, the connection and the statement are given back, and no
-- call is out of order, on success and on every error, and for a NULL file name, struct or array too
-- (`count` is what pCount points to, which is taken to be valid);
-- but for the handle of a sqlite3_open that fails, which may be lost.
pub video_reads-IsIdle :
    (e : Env) (lost : List ℕ) (t : Trace) (db : Option Bytes) (id : ℤ) (count : ℕ)
    (osd : Option Osd) (osds : Option (Array Osd)) (name : Option Bytes) (rec : Option Record)
    (recs : Option (Array Record)) (layout : Option Layout) (motion : Option Motion)
    (motions : Option (Array Motion))
    → IsDocumented e
    → IsIdle lost (held e t)
    → ReturnsIdle e lost t (read_osd db osd id)
      × ReturnsIdle e lost t (read_osds db osds count)
      × ReturnsIdle e lost t (read_osd_name db name id)
      × ReturnsIdle e lost t (read_record db rec id)
      × ReturnsIdle e lost t (read_records db recs count)
      × ReturnsIdle e lost t (read_layout db layout)
      × ReturnsIdle e lost t (read_motion db motion id)
      × ReturnsIdle e lost t (read_motions db motions count)
video_reads-IsIdle e lost t db id count osd osds name rec recs layout motion motions doc i = (
  (read_osd-Balanced db osd id).returns e doc lost t i,
  (read_osds-Balanced db osds count).returns e doc lost t i,
  (read_osd_name-Balanced db name id).returns e doc lost t i,
  (read_record-Balanced db rec id).returns e doc lost t i,
  (read_records-Balanced db recs count).returns e doc lost t i,
  (read_layout-Balanced db layout).returns e doc lost t i,
  (read_motion-Balanced db motion id).returns e doc lost t i,
  (read_motions-Balanced db motions count).returns e doc lost t i,
)

-- If the system keeps to what it documents and nothing is held, each of these writers gives back all
-- that it acquired if it returns, but for the handle of a sqlite3_open that fails, which may be lost;
-- and it has made no call out of order if it is still trying to execute its statement.
pub video_writes-IsIdle :
    (e : Env) (lost : List ℕ) (t : Trace) (db : Option Bytes) (fuel : ℕ) (osd : Option Osd)
    (rec : Option Record) (layout : Option Layout)
    → IsDocumented e
    → IsIdle lost (held e t)
    → SettlesIdle e lost t (write_osd fuel db osd)
      × SettlesIdle e lost t (insert_osd fuel db osd)
      × SettlesIdle e lost t (write_record fuel db rec)
      × SettlesIdle e lost t (insert_record fuel db rec)
      × SettlesIdle e lost t (write_record_prev_post fuel db rec)
      × SettlesIdle e lost t (write_layout fuel db layout)
video_writes-IsIdle e lost t db fuel osd rec layout doc i = (
  (write_osd-Settles fuel db osd).returns e doc lost t i,
  (insert_osd-Settles fuel db osd).returns e doc lost t i,
  (write_record-Settles fuel db rec).returns e doc lost t i,
  (insert_record-Settles fuel db rec).returns e doc lost t i,
  (write_record_prev_post-Settles fuel db rec).returns e doc lost t i,
  (write_layout-Settles fuel db layout).returns e doc lost t i,
)
