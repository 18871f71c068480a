-- ===== src/Tests/Samples.antt =====
-- A struct and an array of each kind, as a caller may hold them.
use build_project.Msdb.{Array}
use build_project.Prelude.{pos, Bytes, codes}
use build_project.Msdb.Osd.{Osd}
use build_project.Msdb.Record.{Record}
use build_project.Msdb.Layout.{Layout}
use build_project.Msdb.Motion.{Motion}
use build_project.Msdb.AlarmOut.{AlarmOut}
use build_project.Msdb.VideoLoss.{VideoLoss}
use build_project.Msdb.AudioIn.{AudioIn}
use build_project.Msdb.Holiday.{Holiday}
use build_project.Msdb.PtzPort.{PtzPort}
use build_project.Msdb.PtzSpeed.{PtzSpeed}
use build_project.Msdb.Upnp.{Upnp}
use build_project.Msdb.Pppoe.{Pppoe}
use build_project.Msdb.Ddns.{Ddns}
use build_project.Msdb.Time.{Time}
use build_project.Msdb.Disk.{Disk}
use build_project.Msdb.Storage.{Storage}
use build_project.Msdb.Reboot.{Reboot}

abbrev pub db_path : Bytes
db_path = codes "/mnt/nand/app/msdb.db"

abbrev pub osd_sample : Osd
osd_sample = record {
  id = pos 1;
  name = codes "a'b";
  show_name = pos 1;
  show_date = pos 1;
  show_week = pos 1;
  date_format = pos 1;
  time_format = pos 1;
  date_pos_x = 2;
  date_pos_y = 2;
  name_pos_x = 2;
  name_pos_y = 2;
  alpha = pos 1;
}

abbrev pub record_sample : Record
record_sample = record {
  id = pos 1;
  mode = pos 1;
  input_video_signal_type = pos 1;
  codec_type = pos 1;
  resolution = pos 1;
  fps = pos 1;
  kbps = pos 1;
  iframe_interval = pos 1;
  bitrate_type = pos 1;
  audio_enable = pos 1;
  audio_codec_type = pos 1;
  audio_samplerate = pos 1;
  prev_record_on = pos 1;
  prev_record_duration = pos 1;
  post_record_on = pos 1;
  post_record_duration = pos 1;
  record_expiration_date = pos 1;
  photo_expiration_date = pos 1;
}

abbrev pub layout_sample : Layout
layout_sample = record {
  main_output = pos 1;
  sub_output = pos 1;
  main_layout_mode = pos 1;
  sub_layout_mode = pos 1;
}

abbrev pub motion_sample : Motion
motion_sample = record {
  id = pos 1;
  enable = pos 1;
  sensitivity = pos 1;
  tri_channels = 2;
  tri_alarms = 2;
  motion_table = codes "a'b";
  buzzer_interval = pos 1;
  ipc_sched_enable = pos 1;
  tri_channels_ex = codes "a'b";
  email_enable = pos 1;
  email_buzzer_interval = pos 1;
}

abbrev pub alarm_out_sample : AlarmOut
alarm_out_sample = record {
  id = pos 1;
  name = codes "a'b";
  type = pos 1;
  enable = pos 1;
  duration_time = pos 1;
}

abbrev pub video_loss_sample : VideoLoss
video_loss_sample = record {
  id = pos 1;
  enable = pos 1;
  tri_alarms = 2;
  buzzer_interval = pos 1;
  email_enable = pos 1;
  email_buzzer_interval = pos 1;
}

abbrev pub audio_in_sample : AudioIn
audio_in_sample = record { id = pos 1; enable = pos 1; samplerate = pos 1; volume = pos 1 }

abbrev pub holiday_sample : Holiday
holiday_sample = record {
  id = pos 1;
  name = codes "a'b";
  enable = pos 1;
  type = pos 1;
  start_year = pos 1;
  start_mon = pos 1;
  start_mday = pos 1;
  start_mweek = pos 1;
  start_wday = pos 1;
  end_year = pos 1;
  end_mon = pos 1;
  end_mday = pos 1;
  end_mweek = pos 1;
  end_wday = pos 1;
}

abbrev pub ptz_port_sample : PtzPort
ptz_port_sample = record {
  id = pos 1;
  baudrate = pos 1;
  data_bit = pos 1;
  stop_bit = pos 1;
  parity_type = pos 1;
  protocol = pos 1;
  address = pos 1;
  com_type = pos 1;
  connect_type = pos 1;
}

abbrev pub ptz_speed_sample : PtzSpeed
ptz_speed_sample = record {
  id = pos 1;
  pan = pos 1;
  tilt = pos 1;
  zoom = pos 1;
  focus = pos 1;
  timeout = pos 1;
}

abbrev pub upnp_sample : Upnp
upnp_sample = record {
  enable = pos 1;
  type = pos 1;
  name = codes "a'b";
  extern_ip = codes "a'b";
  http_port = pos 1;
  http_status = pos 1;
  rtsp_port = pos 1;
  rtsp_status = pos 1;
}

abbrev pub pppoe_sample : Pppoe
pppoe_sample = record {
  enable = pos 1;
  auto_connect = pos 1;
  username = codes "a'b";
  password = codes "a'b";
}

abbrev pub ddns_sample : Ddns
ddns_sample = record {
  enable = pos 1;
  domain = codes "a'b";
  username = codes "a'b";
  password = codes "a'b";
  host_name = codes "a'b";
  free_dns_hash = codes "a'b";
  update_freq = pos 1;
  http_port = pos 1;
  rtsp_port = pos 1;
  ddnsurl = codes "a'b";
}

abbrev pub time_sample : Time
time_sample = record {
  ntp_enable = pos 1;
  dst_enable = pos 1;
  time_zone = codes "a'b";
  time_zone_name = codes "a'b";
  ntp_server = codes "a'b";
}

abbrev pub disk_sample : Disk
disk_sample = record {
  disk_port = pos 1;
  enable = pos 1;
  disk_vendor = codes "a'b";
  disk_address = codes "a'b";
  disk_directory = codes "a'b";
  disk_type = pos 1;
  disk_group = pos 1;
  disk_property = pos 1;
  raid_level = pos 1;
  type = pos 1;
  country = codes "a'b";
  common_name = codes "a'b";
  validity = pos 1;
  password = codes "a'b";
  province = codes "a'b";
  region = codes "a'b";
  organization = codes "a'b";
  company = codes "a'b";
  email = codes "a'b";
  subject = codes "a'b";
  dates = codes "a'b";
  option_company = codes "a'b";
  start_time = codes "a'b";
  end_time = codes "a'b";
}

abbrev pub storage_sample : Storage
storage_sample = record { id = pos 1; recycle_mode = pos 1 }

abbrev pub reboot_sample : Reboot
reboot_sample = record {
  enable = pos 1;
  wday = pos 1;
  hour = pos 1;
  login = pos 1;
  username = codes "a'b";
  reboot = pos 1;
}

abbrev pub osd_cells : Array Osd
osd_cells = λ k. osd_sample

abbrev pub record_cells : Array Record
record_cells = λ k. record_sample

abbrev pub layout_cells : Array Layout
layout_cells = λ k. layout_sample

abbrev pub motion_cells : Array Motion
motion_cells = λ k. motion_sample

abbrev pub alarm_out_cells : Array AlarmOut
alarm_out_cells = λ k. alarm_out_sample

abbrev pub video_loss_cells : Array VideoLoss
video_loss_cells = λ k. video_loss_sample

abbrev pub audio_in_cells : Array AudioIn
audio_in_cells = λ k. audio_in_sample

abbrev pub holiday_cells : Array Holiday
holiday_cells = λ k. holiday_sample

abbrev pub ptz_port_cells : Array PtzPort
ptz_port_cells = λ k. ptz_port_sample

abbrev pub ptz_speed_cells : Array PtzSpeed
ptz_speed_cells = λ k. ptz_speed_sample

abbrev pub upnp_cells : Array Upnp
upnp_cells = λ k. upnp_sample

abbrev pub pppoe_cells : Array Pppoe
pppoe_cells = λ k. pppoe_sample

abbrev pub ddns_cells : Array Ddns
ddns_cells = λ k. ddns_sample

abbrev pub time_cells : Array Time
time_cells = λ k. time_sample

abbrev pub disk_cells : Array Disk
disk_cells = λ k. disk_sample

abbrev pub storage_cells : Array Storage
storage_cells = λ k. storage_sample

abbrev pub reboot_cells : Array Reboot
reboot_cells = λ k. reboot_sample
