-- ===== src/Msdb/Outcomes/Video.antt =====
-- What the readers of this group leave in the caller's struct or array.
use build_project.Sys.Ends.{Ends}
use build_project.Msdb.Osd.{Osd}
use build_project.Msdb.Record.{Record}
use build_project.Msdb.Layout.{Layout}
use build_project.Msdb.Motion.{Motion}
