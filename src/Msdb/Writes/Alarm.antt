-- ===== src/Msdb/Writes/Alarm.antt =====
-- What the writers of this group do and answer.
use build_project.Prelude.{ℕ, suc, pos, Bytes, some, ◌≡◌, ◌≤◌}
use build_project.Sys.{Trace, Env, done}
use build_project.Ccsqlite.{sqlite_opt_cnt}
use build_project.Ccsqlite.Execute.{NeverLocked}
use build_project.Msdb.Course.{Works, update_course, run_update-course}
use build_project.Msdb.Written.{Answers, run_update_one-Answers}
use build_project.Msdb.AlarmOut.{AlarmOut, write_alarm_out, alarm_out_update}
use build_project.Msdb.VideoLoss.{
  VideoLoss, write_video_lost, insert_video_lost, video_lost_update, video_lost_insert,
}
use build_project.Msdb.AudioIn.{AudioIn, write_audio_in, audio_in_update}
use build_project.Msdb.Holiday.{Holiday, write_holiday, holiday_update}
use build_project.Msdb.PtzPort.{PtzPort, write_ptz_port, ptz_port_update}
use build_project.Msdb.PtzSpeed.{PtzSpeed, write_ptz_speed, ptz_speed_update}

-- On a system where nothing fails, each of these writers answers 0 after exactly these calls: the file
-- lock and the write lock, the connection, its statement once, and all of it given back.
pub alarm_writes-course :
    (e : Env) (t : Trace) (db : Bytes) (fuel : ℕ) (alarm_out : AlarmOut) (video_loss : VideoLoss)
    (audio_in : AudioIn) (holiday : Holiday) (ptz_port : PtzPort) (ptz_speed : PtzSpeed)
    → Works e
    → (write_alarm_out (suc fuel) (some db) (some alarm_out) e t
        ≡ done (pos 0) (update_course e db (alarm_out_update alarm_out) t))
      × (write_video_lost (suc fuel) (some db) (some video_loss) e t
          ≡ done (pos 0) (update_course e db (video_lost_update video_loss) t))
      × (insert_video_lost (suc fuel) (some db) (some video_loss) e t
          ≡ done (pos 0) (update_course e db (video_lost_insert video_loss) t))
      × (write_audio_in (suc fuel) (some db) (some audio_in) e t
          ≡ done (pos 0) (update_course e db (audio_in_update audio_in) t))
      × (write_holiday (suc fuel) (some db) (some holiday) e t
          ≡ done (pos 0) (update_course e db (holiday_update holiday) t))
      × (write_ptz_port (suc fuel) (some db) (some ptz_port) e t
          ≡ done (pos 0) (update_course e db (ptz_port_update ptz_port) t))
      × (write_ptz_speed (suc fuel) (some db) (some ptz_speed) e t
          ≡ done (pos 0) (update_course e db (ptz_speed_update ptz_speed) t))
unfolding write_alarm_out write_video_lost insert_video_lost write_audio_in write_holiday
    write_ptz_port write_ptz_speed
alarm_writes-course e t db fuel alarm_out video_loss audio_in holiday ptz_port ptz_speed works = (
  run_update-course e works fuel db (alarm_out_update alarm_out) t,
  run_update-course e works fuel db (video_lost_update video_loss) t,
  run_update-course e works fuel db (video_lost_insert video_loss) t,
  run_update-course e works fuel db (audio_in_update audio_in) t,
  run_update-course e works fuel db (holiday_update holiday) t,
  run_update-course e works fuel db (ptz_port_update ptz_port) t,
  run_update-course e works fuel db (ptz_speed_update ptz_speed) t,
)

-- Unless SQLite reports a lock, each of these writers returns with fuel for 200 tries: -1 if its open of
-- the database failed, with no statement tried; and 0 if it did not, behind at least one try of its
-- statement, unless the handle is NULL, and at most 200 tries.
pub alarm_writes-Answers :
    (e : Env) (t : Trace) (db : Bytes) (fuel : ℕ) (alarm_out : AlarmOut) (video_loss : VideoLoss)
    (audio_in : AudioIn) (holiday : Holiday) (ptz_port : PtzPort) (ptz_speed : PtzSpeed)
    → NeverLocked e
    → sqlite_opt_cnt ≤ fuel
    → Answers e t (write_alarm_out fuel (some db) (some alarm_out))
      × Answers e t (write_video_lost fuel (some db) (some video_loss))
      × Answers e t (insert_video_lost fuel (some db) (some video_loss))
      × Answers e t (write_audio_in fuel (some db) (some audio_in))
      × Answers e t (write_holiday fuel (some db) (some holiday))
      × Answers e t (write_ptz_port fuel (some db) (some ptz_port))
      × Answers e t (write_ptz_speed fuel (some db) (some ptz_speed))
unfolding write_alarm_out write_video_lost insert_video_lost write_audio_in write_holiday
    write_ptz_port write_ptz_speed
alarm_writes-Answers e t db fuel alarm_out video_loss audio_in holiday ptz_port ptz_speed free
      enough =
    (
      run_update_one-Answers e fuel db (alarm_out_update alarm_out) t free enough,
      run_update_one-Answers e fuel db (video_lost_update video_loss) t free enough,
      run_update_one-Answers e fuel db (video_lost_insert video_loss) t free enough,
      run_update_one-Answers e fuel db (audio_in_update audio_in) t free enough,
      run_update_one-Answers e fuel db (holiday_update holiday) t free enough,
      run_update_one-Answers e fuel db (ptz_port_update ptz_port) t free enough,
      run_update_one-Answers e fuel db (ptz_speed_update ptz_speed) t free enough,
    )
