-- ===== src/Msdb/Sessions/Alarm.antt =====
-- The sessions of the functions of libs/msdb/msdb.c on the tables of this group.
use build_project.Msdb.{Array}
use build_project.Prelude.{ℕ, ℤ, Option, List, Bytes}
use build_project.Sys.{Trace, Env}
use build_project.Sys.Monitor.{held, IsDocumented, IsIdle}
use build_project.Msdb.Sessions.{ReturnsIdle, SettlesIdle}
use build_project.Msdb.AlarmOut.{AlarmOut, read_alarm_out, read_alarm_outs, write_alarm_out}
use build_project.Msdb.AlarmOut.Held.{
  read_alarm_out-Balanced, read_alarm_outs-Balanced, write_alarm_out-Settles,
}
use build_project.Msdb.VideoLoss.{
  VideoLoss, read_video_lost, read_video_losts, write_video_lost, insert_video_lost,
}
use build_project.Msdb.VideoLoss.Held.{
  read_video_lost-Balanced, read_video_losts-Balanced, write_video_lost-Settles,
  insert_video_lost-Settles,
}
use build_project.Msdb.AudioIn.{AudioIn, read_audio_ins, write_audio_in}
use build_project.Msdb.AudioIn.Held.{read_audio_ins-Balanced, write_audio_in-Settles}
use build_project.Msdb.Holiday.{Holiday, read_holidays, write_holiday}
use build_project.Msdb.Holiday.Held.{read_holidays-Balanced, write_holiday-Settles}
use build_project.Msdb.PtzPort.{PtzPort, read_ptz_port, write_ptz_port, read_ptz_ports}
use build_project.Msdb.PtzPort.Held.{
  read_ptz_port-Balanced, write_ptz_port-Settles, read_ptz_ports-Balanced,
}
use build_project.Msdb.PtzSpeed.{PtzSpeed, read_ptz_speeds, read_ptz_speed, write_ptz_speed}
use build_project.Msdb.PtzSpeed.Held.{
  read_ptz_speeds-Balanced, read_ptz_speed-Balanced, write_ptz_speed-Settles,
}

-- If the system keeps to what it documents and nothing is held, each of these readers returns with
-- nothing held: the lock file, both locks, the connection and the statement are given back, and no
-- call is out of order, on success and on every error, and for a NULL file name, struct or array too
-- (`count` is what pCount points to, which is taken to be valid);
-- but for the handle of a sqlite3_open that fails, which may be lost.
pub alarm_reads-IsIdle :
    (e : Env) (lost : List ℕ) (t : Trace) (db : Option Bytes) (id : ℤ) (count : ℕ)
    (alarm_out : Option AlarmOut) (alarm_outs : Option (Array AlarmOut))
    (video_loss : Option VideoLoss) (video_losss : Option (Array VideoLoss))
    (audio_ins : Option (Array AudioIn)) (holidays : Option (Array Holiday))
    (ptz_port : Option PtzPort) (ptz_ports : Option (Array PtzPort)) (ptz_speed : Option PtzSpeed)
    (ptz_speeds : Option (Array PtzSpeed))
    → IsDocumented e
    → IsIdle lost (held e t)
    → ReturnsIdle e lost t (read_alarm_out db alarm_out id)
      × ReturnsIdle e lost t (read_alarm_outs db alarm_outs count)
      × ReturnsIdle e lost t (read_video_lost db video_loss id)
      × ReturnsIdle e lost t (read_video_losts db video_losss count)
      × ReturnsIdle e lost t (read_audio_ins db audio_ins count)
      × ReturnsIdle e lost t (read_holidays db holidays count)
      × ReturnsIdle e lost t (read_ptz_port db ptz_port id)
      × ReturnsIdle e lost t (read_ptz_ports db ptz_ports count)
      × ReturnsIdle e lost t (read_ptz_speeds db ptz_speeds count)
      × ReturnsIdle e lost t (read_ptz_speed db ptz_speed id)
alarm_reads-IsIdle e lost t db id count alarm_out alarm_outs video_loss video_losss audio_ins
      holidays ptz_port ptz_ports ptz_speed ptz_speeds doc i =
    (
      (read_alarm_out-Balanced db alarm_out id).returns e doc lost t i,
      (read_alarm_outs-Balanced db alarm_outs count).returns e doc lost t i,
      (read_video_lost-Balanced db video_loss id).returns e doc lost t i,
      (read_video_losts-Balanced db video_losss count).returns e doc lost t i,
      (read_audio_ins-Balanced db audio_ins count).returns e doc lost t i,
      (read_holidays-Balanced db holidays count).returns e doc lost t i,
      (read_ptz_port-Balanced db ptz_port id).returns e doc lost t i,
      (read_ptz_ports-Balanced db ptz_ports count).returns e doc lost t i,
      (read_ptz_speeds-Balanced db ptz_speeds count).returns e doc lost t i,
      (read_ptz_speed-Balanced db ptz_speed id).returns e doc lost t i,
    )

-- If the system keeps to what it documents and nothing is held, each of these writers gives back all
-- that it acquired if it returns, but for the handle of a sqlite3_open that fails, which may be lost;
-- and it has made no call out of order if it is still trying to execute its statement.
pub alarm_writes-IsIdle :
    (e : Env) (lost : List ℕ) (t : Trace) (db : Option Bytes) (fuel : ℕ)
    (alarm_out : Option AlarmOut) (video_loss : Option VideoLoss) (audio_in : Option AudioIn)
    (holiday : Option Holiday) (ptz_port : Option PtzPort) (ptz_speed : Option PtzSpeed)
    → IsDocumented e
    → IsIdle lost (held e t)
    → SettlesIdle e lost t (write_alarm_out fuel db alarm_out)
      × SettlesIdle e lost t (write_video_lost fuel db video_loss)
      × SettlesIdle e lost t (insert_video_lost fuel db video_loss)
      × SettlesIdle e lost t (write_audio_in fuel db audio_in)
      × SettlesIdle e lost t (write_holiday fuel db holiday)
      × SettlesIdle e lost t (write_ptz_port fuel db ptz_port)
      × SettlesIdle e lost t (write_ptz_speed fuel db ptz_speed)
alarm_writes-IsIdle e lost t db fuel alarm_out video_loss audio_in holiday ptz_port ptz_speed doc
      i =
    (
      (write_alarm_out-Settles fuel db alarm_out).returns e doc lost t i,
      (write_video_lost-Settles fuel db video_loss).returns e doc lost t i,
      (insert_video_lost-Settles fuel db video_loss).returns e doc lost t i,
      (write_audio_in-Settles fuel db audio_in).returns e doc lost t i,
      (write_holiday-Settles fuel db holiday).returns e doc lost t i,
      (write_ptz_port-Settles fuel db ptz_port).returns e doc lost t i,
      (write_ptz_speed-Settles fuel db ptz_speed).returns e doc lost t i,
    )
