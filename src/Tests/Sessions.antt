-- ===== src/Tests/Sessions.antt =====
-- The theorems of Msdb/Sessions at concrete inputs.
use build_project.Prelude.{pos, some, [], codes}
use build_project.Msdb.Sessions.{ReturnsIdle, SettlesIdle}
use build_project.Tests.Systems.{working, working-IsDocumented, start-IsIdle}
use build_project.Tests.Samples.{
  db_path, osd_sample, osd_cells, record_sample, record_cells, layout_sample, motion_sample,
  motion_cells, alarm_out_sample, alarm_out_cells, video_loss_sample, video_loss_cells,
  audio_in_sample, audio_in_cells, holiday_sample, holiday_cells, ptz_port_sample, ptz_port_cells,
  ptz_speed_sample, ptz_speed_cells, upnp_sample, pppoe_sample, ddns_sample, time_sample,
  disk_sample, disk_cells, storage_sample, storage_cells, reboot_sample,
}
use build_project.Msdb.Sessions.Video.{video_reads-IsIdle, video_writes-IsIdle}
use build_project.Msdb.Osd.{read_osd, read_osds, read_osd_name, write_osd, insert_osd}
use build_project.Msdb.Record.{
  read_record, read_records, write_record, insert_record, write_record_prev_post,
}
use build_project.Msdb.Layout.{read_layout, write_layout}
use build_project.Msdb.Motion.{read_motion, read_motions}
use build_project.Msdb.Sessions.Alarm.{alarm_reads-IsIdle, alarm_writes-IsIdle}
use build_project.Msdb.AlarmOut.{read_alarm_out, read_alarm_outs, write_alarm_out}
use build_project.Msdb.VideoLoss.{
  read_video_lost, read_video_losts, write_video_lost, insert_video_lost,
}
use build_project.Msdb.AudioIn.{read_audio_ins, write_audio_in}
use build_project.Msdb.Holiday.{read_holidays, write_holiday}
use build_project.Msdb.PtzPort.{read_ptz_port, read_ptz_ports, write_ptz_port}
use build_project.Msdb.PtzSpeed.{read_ptz_speeds, read_ptz_speed, write_ptz_speed}
use build_project.Msdb.Sessions.Network.{network_reads-IsIdle, network_writes-IsIdle}
use build_project.Msdb.Upnp.{read_upnp, write_upnp}
use build_project.Msdb.Pppoe.{read_pppoe, write_pppoe}
use build_project.Msdb.Ddns.{read_ddns, write_ddns}
use build_project.Msdb.Time.{read_time, write_time}
use build_project.Msdb.Disk.{read_disks, read_disk, write_disk}
use build_project.Msdb.Storage.{read_storages, read_storage, write_storage}
use build_project.Msdb.Reboot.{read_autoreboot_conf, write_autoreboot_conf}

video_reads-IsIdle_example :
    ReturnsIdle working [] [] (read_osd (some db_path) (some osd_sample) (pos 1))
    × ReturnsIdle working [] [] (read_osds (some db_path) (some osd_cells) 0)
    × ReturnsIdle working [] [] (read_osd_name (some db_path) (some (codes "door")) (pos 1))
    × ReturnsIdle working [] [] (read_record (some db_path) (some record_sample) (pos 1))
    × ReturnsIdle working [] [] (read_records (some db_path) (some record_cells) 0)
    × ReturnsIdle working [] [] (read_layout (some db_path) (some layout_sample))
    × ReturnsIdle working [] [] (read_motion (some db_path) (some motion_sample) (pos 1))
    × ReturnsIdle working [] [] (read_motions (some db_path) (some motion_cells) 0)
video_reads-IsIdle_example =
    video_reads-IsIdle working [] [] (some db_path) (pos 1) 0 (some osd_sample) (some osd_cells)
      (some (codes "door")) (some record_sample) (some record_cells) (some layout_sample)
      (some motion_sample) (some motion_cells) working-IsDocumented start-IsIdle

video_writes-IsIdle_example :
    SettlesIdle working [] [] (write_osd 200 (some db_path) (some osd_sample))
    × SettlesIdle working [] [] (insert_osd 200 (some db_path) (some osd_sample))
    × SettlesIdle working [] [] (write_record 200 (some db_path) (some record_sample))
    × SettlesIdle working [] [] (insert_record 200 (some db_path) (some record_sample))
    × SettlesIdle working [] [] (write_record_prev_post 200 (some db_path) (some record_sample))
    × SettlesIdle working [] [] (write_layout 200 (some db_path) (some layout_sample))
video_writes-IsIdle_example =
    video_writes-IsIdle working [] [] (some db_path) 200 (some osd_sample) (some record_sample)
      (some layout_sample) working-IsDocumented start-IsIdle

alarm_reads-IsIdle_example :
    ReturnsIdle working [] [] (read_alarm_out (some db_path) (some alarm_out_sample) (pos 1))
    × ReturnsIdle working [] [] (read_alarm_outs (some db_path) (some alarm_out_cells) 0)
    × ReturnsIdle working [] [] (read_video_lost (some db_path) (some video_loss_sample) (pos 1))
    × ReturnsIdle working [] [] (read_video_losts (some db_path) (some video_loss_cells) 0)
    × ReturnsIdle working [] [] (read_audio_ins (some db_path) (some audio_in_cells) 0)
    × ReturnsIdle working [] [] (read_holidays (some db_path) (some holiday_cells) 0)
    × ReturnsIdle working [] [] (read_ptz_port (some db_path) (some ptz_port_sample) (pos 1))
    × ReturnsIdle working [] [] (read_ptz_ports (some db_path) (some ptz_port_cells) 0)
    × ReturnsIdle working [] [] (read_ptz_speeds (some db_path) (some ptz_speed_cells) 0)
    × ReturnsIdle working [] [] (read_ptz_speed (some db_path) (some ptz_speed_sample) (pos 1))
alarm_reads-IsIdle_example =
    alarm_reads-IsIdle working [] [] (some db_path) (pos 1) 0 (some alarm_out_sample)
      (some alarm_out_cells) (some video_loss_sample) (some video_loss_cells) (some audio_in_cells)
      (some holiday_cells) (some ptz_port_sample) (some ptz_port_cells) (some ptz_speed_sample)
      (some ptz_speed_cells) working-IsDocumented start-IsIdle

alarm_writes-IsIdle_example :
    SettlesIdle working [] [] (write_alarm_out 200 (some db_path) (some alarm_out_sample))
    × SettlesIdle working [] [] (write_video_lost 200 (some db_path) (some video_loss_sample))
    × SettlesIdle working [] [] (insert_video_lost 200 (some db_path) (some video_loss_sample))
    × SettlesIdle working [] [] (write_audio_in 200 (some db_path) (some audio_in_sample))
    × SettlesIdle working [] [] (write_holiday 200 (some db_path) (some holiday_sample))
    × SettlesIdle working [] [] (write_ptz_port 200 (some db_path) (some ptz_port_sample))
    × SettlesIdle working [] [] (write_ptz_speed 200 (some db_path) (some ptz_speed_sample))
alarm_writes-IsIdle_example =
    alarm_writes-IsIdle working [] [] (some db_path) 200 (some alarm_out_sample)
      (some video_loss_sample) (some audio_in_sample) (some holiday_sample) (some ptz_port_sample)
      (some ptz_speed_sample) working-IsDocumented start-IsIdle

network_reads-IsIdle_example :
    ReturnsIdle working [] [] (read_upnp (some db_path) (some upnp_sample))
    × ReturnsIdle working [] [] (read_pppoe (some db_path) (some pppoe_sample))
    × ReturnsIdle working [] [] (read_ddns (some db_path) (some ddns_sample))
    × ReturnsIdle working [] [] (read_time (some db_path) (some time_sample))
    × ReturnsIdle working [] [] (read_disks (some db_path) (some disk_cells) 0)
    × ReturnsIdle working [] [] (read_disk (some db_path) (some disk_sample) (pos 1))
    × ReturnsIdle working [] [] (read_storages (some db_path) (some storage_cells) 0)
    × ReturnsIdle working [] [] (read_storage (some db_path) (some storage_sample) (pos 1))
    × ReturnsIdle working [] [] (read_autoreboot_conf (some db_path) (some reboot_sample))
network_reads-IsIdle_example =
    network_reads-IsIdle working [] [] (some db_path) (pos 1) 0 (some upnp_sample)
      (some pppoe_sample) (some ddns_sample) (some time_sample) (some disk_sample) (some disk_cells)
      (some storage_sample) (some storage_cells) (some reboot_sample) working-IsDocumented
      start-IsIdle

network_writes-IsIdle_example :
    SettlesIdle working [] [] (write_upnp 200 (some db_path) (some upnp_sample))
    × SettlesIdle working [] [] (write_pppoe 200 (some db_path) (some pppoe_sample))
    × SettlesIdle working [] [] (write_ddns 200 (some db_path) (some ddns_sample))
    × SettlesIdle working [] [] (write_time 200 (some db_path) (some time_sample))
    × SettlesIdle working [] [] (write_disk 200 (some db_path) (some disk_sample))
    × SettlesIdle working [] [] (write_storage 200 (some db_path) (some storage_sample))
    × SettlesIdle working [] [] (write_autoreboot_conf 200 (some db_path) (some reboot_sample))
network_writes-IsIdle_example =
    network_writes-IsIdle working [] [] (some db_path) 200 (some upnp_sample) (some pppoe_sample)
      (some ddns_sample) (some time_sample) (some disk_sample) (some storage_sample)
      (some reboot_sample) working-IsDocumented start-IsIdle
