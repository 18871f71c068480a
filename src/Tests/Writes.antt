-- ===== src/Tests/Writes.antt =====
-- The theorems of Msdb/Writes at concrete inputs.
use build_project.Prelude.{pos, some, [], ◌≡◌, arith}
use build_project.Sys.{done}
use build_project.Msdb.Written.{Answers, Refused}
use build_project.Msdb.Course.{update_course}
use build_project.Tests.Systems.{
  working, refusing, working-Works, refusing-NeverLocked, refusing-Refuses,
}
use build_project.Tests.Samples.{
  db_path, osd_sample, record_sample, layout_sample, alarm_out_sample, video_loss_sample,
  audio_in_sample, holiday_sample, ptz_port_sample, ptz_speed_sample, upnp_sample, pppoe_sample,
  ddns_sample, time_sample, disk_sample, storage_sample, reboot_sample,
}
use build_project.Msdb.Writes.Video.{
  video_writes-course, video_writes-Answers, video_writes-Refused,
}
use build_project.Msdb.Osd.{write_osd, osd_update, insert_osd, osd_insert}
use build_project.Msdb.Record.{
  write_record, record_update, insert_record, record_insert, write_record_prev_post,
  record_prev_post_update,
}
use build_project.Msdb.Layout.{write_layout, layout_update}
use build_project.Msdb.Writes.Alarm.{alarm_writes-course}
use build_project.Msdb.AlarmOut.{write_alarm_out, alarm_out_update}
use build_project.Msdb.VideoLoss.{
  write_video_lost, video_lost_update, insert_video_lost, video_lost_insert,
}
use build_project.Msdb.AudioIn.{write_audio_in, audio_in_update}
use build_project.Msdb.Holiday.{write_holiday, holiday_update}
use build_project.Msdb.PtzPort.{write_ptz_port, ptz_port_update}
use build_project.Msdb.PtzSpeed.{write_ptz_speed, ptz_speed_update}
use build_project.Msdb.Writes.Network.{network_writes-course}
use build_project.Msdb.Upnp.{write_upnp, upnp_update}
use build_project.Msdb.Pppoe.{write_pppoe, pppoe_update}
use build_project.Msdb.Ddns.{write_ddns, ddns_update}
use build_project.Msdb.Time.{write_time, time_update}
use build_project.Msdb.Disk.{write_disk, disk_update}
use build_project.Msdb.Storage.{write_storage, storage_update}
use build_project.Msdb.Reboot.{write_autoreboot_conf, autoreboot_conf_update}

video_writes-course_example :
    (write_osd 5 (some db_path) (some osd_sample) working []
      ≡ done (pos 0) (update_course working db_path (osd_update working.fmt_f osd_sample) []))
    × (insert_osd 5 (some db_path) (some osd_sample) working []
        ≡ done (pos 0) (update_course working db_path (osd_insert working.fmt_f osd_sample) []))
    × (write_record 5 (some db_path) (some record_sample) working []
        ≡ done (pos 0) (update_course working db_path (record_update record_sample) []))
    × (insert_record 5 (some db_path) (some record_sample) working []
        ≡ done (pos 0) (update_course working db_path (record_insert record_sample) []))
    × (write_record_prev_post 5 (some db_path) (some record_sample) working []
        ≡ done (pos 0) (update_course working db_path (record_prev_post_update record_sample) []))
    × (write_layout 5 (some db_path) (some layout_sample) working []
        ≡ done (pos 0) (update_course working db_path (layout_update layout_sample) []))
video_writes-course_example =
    video_writes-course working [] db_path 4 osd_sample record_sample layout_sample working-Works

video_writes-Answers_example :
    Answers refusing [] (write_osd 200 (some db_path) (some osd_sample))
    × Answers refusing [] (insert_osd 200 (some db_path) (some osd_sample))
    × Answers refusing [] (write_record 200 (some db_path) (some record_sample))
    × Answers refusing [] (insert_record 200 (some db_path) (some record_sample))
    × Answers refusing [] (write_record_prev_post 200 (some db_path) (some record_sample))
    × Answers refusing [] (write_layout 200 (some db_path) (some layout_sample))
video_writes-Answers_example =
    video_writes-Answers refusing [] db_path 200 osd_sample record_sample layout_sample
      refusing-NeverLocked (omega arith)

video_writes-Refused_example :
    Refused refusing [] (write_osd 200 (some db_path) (some osd_sample))
    × Refused refusing [] (insert_osd 200 (some db_path) (some osd_sample))
    × Refused refusing [] (write_record 200 (some db_path) (some record_sample))
    × Refused refusing [] (insert_record 200 (some db_path) (some record_sample))
    × Refused refusing [] (write_record_prev_post 200 (some db_path) (some record_sample))
    × Refused refusing [] (write_layout 200 (some db_path) (some layout_sample))
video_writes-Refused_example =
    video_writes-Refused refusing [] db_path 200 osd_sample record_sample layout_sample
      refusing-Refuses (omega arith)

alarm_writes-course_example :
    (write_alarm_out 5 (some db_path) (some alarm_out_sample) working []
      ≡ done (pos 0) (update_course working db_path (alarm_out_update alarm_out_sample) []))
    × (write_video_lost 5 (some db_path) (some video_loss_sample) working []
        ≡ done (pos 0) (update_course working db_path (video_lost_update video_loss_sample) []))
    × (insert_video_lost 5 (some db_path) (some video_loss_sample) working []
        ≡ done (pos 0) (update_course working db_path (video_lost_insert video_loss_sample) []))
    × (write_audio_in 5 (some db_path) (some audio_in_sample) working []
        ≡ done (pos 0) (update_course working db_path (audio_in_update audio_in_sample) []))
    × (write_holiday 5 (some db_path) (some holiday_sample) working []
        ≡ done (pos 0) (update_course working db_path (holiday_update holiday_sample) []))
    × (write_ptz_port 5 (some db_path) (some ptz_port_sample) working []
        ≡ done (pos 0) (update_course working db_path (ptz_port_update ptz_port_sample) []))
    × (write_ptz_speed 5 (some db_path) (some ptz_speed_sample) working []
        ≡ done (pos 0) (update_course working db_path (ptz_speed_update ptz_speed_sample) []))
alarm_writes-course_example =
    alarm_writes-course working [] db_path 4 alarm_out_sample video_loss_sample audio_in_sample
      holiday_sample ptz_port_sample ptz_speed_sample working-Works

network_writes-course_example :
    (write_upnp 5 (some db_path) (some upnp_sample) working []
      ≡ done (pos 0) (update_course working db_path (upnp_update upnp_sample) []))
    × (write_pppoe 5 (some db_path) (some pppoe_sample) working []
        ≡ done (pos 0) (update_course working db_path (pppoe_update pppoe_sample) []))
    × (write_ddns 5 (some db_path) (some ddns_sample) working []
        ≡ done (pos 0) (update_course working db_path (ddns_update ddns_sample) []))
    × (write_time 5 (some db_path) (some time_sample) working []
        ≡ done (pos 0) (update_course working db_path (time_update time_sample) []))
    × (write_disk 5 (some db_path) (some disk_sample) working []
        ≡ done (pos 0) (update_course working db_path (disk_update disk_sample) []))
    × (write_storage 5 (some db_path) (some storage_sample) working []
        ≡ done (pos 0) (update_course working db_path (storage_update storage_sample) []))
    × (write_autoreboot_conf 5 (some db_path) (some reboot_sample) working []
        ≡ done (pos 0) (update_course working db_path (autoreboot_conf_update reboot_sample) []))
network_writes-course_example =
    network_writes-course working [] db_path 4 upnp_sample pppoe_sample ddns_sample time_sample
      disk_sample storage_sample reboot_sample working-Works
