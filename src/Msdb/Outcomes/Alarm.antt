-- ===== src/Msdb/Outcomes/Alarm.antt =====
-- What the readers of this group leave in the caller's struct or array.
use build_project.Sys.Ends.{Ends}
use build_project.Msdb.AlarmOut.{AlarmOut}
use build_project.Msdb.VideoLoss.{VideoLoss}
use build_project.Msdb.AudioIn.{AudioIn}
use build_project.Msdb.Holiday.{Holiday}
use build_project.Msdb.PtzPort.{PtzPort}
use build_project.Msdb.PtzSpeed.{PtzSpeed}
