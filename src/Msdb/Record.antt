-- ===== src/Msdb/Record.antt =====
-- The recording settings of a channel: struct record and its functions in libs/msdb/msdb.c.
pub mod Fields
pub mod Held
use build_project.Prelude.{
  ℕ, ◌+◌, ℤ, pos, minus_one, is_negative, is_zero, Bool, true, false, Option, none, some, List, [],
  ◌∷◌, ◌++◌, Bytes, codes, fmt_d, snprintf, ◌==◌, if◌then◌else◌,
}
use build_project.Sys.{M, pure, ◌>>=◌, ◌>>◌}
use build_project.Ccsqlite.{sqlite_conn}
use build_project.Msdb.{
  Array, file_lock, file_lock_name, write_mode, file_unlock, run_query, run_update, execute, i32,
  int_column, uint_column, double_column, text_column, rows_loop,
}

pub record Record : Type 0 where
  pub id : ℤ
  pub mode : ℤ
  pub input_video_signal_type : ℤ
  pub codec_type : ℤ
  pub resolution : ℤ
  pub fps : ℤ
  pub kbps : ℤ
  pub iframe_interval : ℤ
  pub bitrate_type : ℤ
  pub audio_enable : ℤ
  pub audio_codec_type : ℤ
  pub audio_samplerate : ℤ
  pub prev_record_on : ℤ
  pub prev_record_duration : ℤ
  pub post_record_on : ℤ
  pub post_record_duration : ℤ
  pub record_expiration_date : ℤ
  pub photo_expiration_date : ℤ

-- The columns of a row into a struct that holds `s`.
unfoldable pub record_row : ℕ → Record → M Record
record_row stmt s = do
  id ← int_column stmt (pos 0) s.id
  codec_type ← int_column stmt (pos 1) s.codec_type
  iframe_interval ← int_column stmt (pos 2) s.iframe_interval
  bitrate_type ← int_column stmt (pos 3) s.bitrate_type
  kbps ← int_column stmt (pos 4) s.kbps
  fps ← int_column stmt (pos 5) s.fps
  resolution ← int_column stmt (pos 6) s.resolution
  audio_enable ← int_column stmt (pos 7) s.audio_enable
  audio_codec_type ← int_column stmt (pos 8) s.audio_codec_type
  audio_samplerate ← int_column stmt (pos 9) s.audio_samplerate
  prev_record_on ← int_column stmt (pos 10) s.prev_record_on
  prev_record_duration ← int_column stmt (pos 11) s.prev_record_duration
  post_record_on ← int_column stmt (pos 12) s.post_record_on
  post_record_duration ← int_column stmt (pos 13) s.post_record_duration
  input_video_signal_type ← int_column stmt (pos 14) s.input_video_signal_type
  mode ← int_column stmt (pos 15) s.mode
  record_expiration_date ← int_column stmt (pos 16) s.record_expiration_date
  photo_expiration_date ← int_column stmt (pos 17) s.photo_expiration_date
  pure (record {
    id = id;
    codec_type = codec_type;
    iframe_interval = iframe_interval;
    bitrate_type = bitrate_type;
    kbps = kbps;
    fps = fps;
    resolution = resolution;
    audio_enable = audio_enable;
    audio_codec_type = audio_codec_type;
    audio_samplerate = audio_samplerate;
    prev_record_on = prev_record_on;
    prev_record_duration = prev_record_duration;
    post_record_on = post_record_on;
    post_record_duration = post_record_duration;
    input_video_signal_type = input_video_signal_type;
    mode = mode;
    record_expiration_date = record_expiration_date;
    photo_expiration_date = photo_expiration_date;
  })

unfoldable pub record_query : ℤ → Bytes
record_query chn_id = snprintf 512 (
    codes
      "select id,codec_type,iframe_interval,bitrate_type,bitrate,fps,resolution,audio_enable,audio_codec_type,audio_samplerate,prev_record_on,prev_record_duration,post_record_on,post_record_duration,input_video_signal_type,mode,record_expiration_date,photo_expiration_date from record where id="
    ++ (fmt_d chn_id ++ codes ";"))

unfoldable pub read_record : Option Bytes → Option Record → ℤ → M (ℤ × Option Record)
unfolding record_row
read_record (some db) (some s) chn_id =
    if is_negative chn_id
    then pure (minus_one, some s)
    else run_query db (record_query chn_id) true
        (λ stmt. do s' ← record_row stmt s; pure (pos 0, some s')) (minus_one, some s)
        (minus_one, some s)
read_record db s chn_id = pure (minus_one, s)

unfoldable pub records_query : Bytes
records_query = snprintf 512 (
    codes
      "select id,codec_type,iframe_interval,bitrate_type,bitrate,fps,resolution,audio_enable,audio_codec_type,audio_samplerate,prev_record_on,prev_record_duration,post_record_on,post_record_duration,input_video_signal_type,mode,record_expiration_date,photo_expiration_date from record;")

-- MAX_CAMERA rounds; the result, the array and the count, which holds `count` before;
-- the code writes through the pointer to it untested, and it is taken to be valid.
unfoldable pub read_records :
    Option Bytes → Option (Array Record) → ℕ → M (ℤ × Option (Array Record) × ℕ)
unfolding record_row
read_records (some db) (some cells) count =
    run_query db records_query true
      (λ stmt. do
        (cells', i) ← rows_loop stmt (record_row stmt) 64 0 cells
        pure (pos 0, some cells', i))
      (minus_one, some cells, count) (minus_one, some cells, 0)
read_records db cells count = pure (minus_one, cells, count)

unfoldable pub record_update : Record → Bytes
record_update s = snprintf 512 (
    codes "update record set codec_type="
    ++ (fmt_d s.codec_type
        ++ (codes ",iframe_interval="
            ++ (fmt_d s.iframe_interval
                ++ (codes ",bitrate_type="
                    ++ (fmt_d s.bitrate_type
                        ++ (codes ",bitrate="
                            ++ (fmt_d s.kbps
                                ++ (codes ",fps="
                                    ++ (fmt_d s.fps
                                        ++ (codes ",resolution="
                                            ++ (fmt_d s.resolution
                                                ++ (codes ",audio_enable="
                                                    ++ (fmt_d s.audio_enable
                                                        ++ (codes ",audio_codec_type="
                                                            ++ (fmt_d s.audio_codec_type
                                                            ++ (codes ",audio_samplerate="
                                                            ++ (fmt_d s.audio_samplerate
                                                            ++ (codes ",prev_record_on="
                                                            ++ (fmt_d s.prev_record_on
                                                            ++ (codes ",prev_record_duration="
                                                            ++ (fmt_d s.prev_record_duration
                                                            ++ (codes ",post_record_on="
                                                            ++ (fmt_d s.post_record_on
                                                            ++ (codes ",post_record_duration="
                                                            ++ (fmt_d s.post_record_duration
                                                            ++ (codes ",input_video_signal_type="
                                                            ++ (fmt_d s.input_video_signal_type
                                                            ++ (codes ",mode="
                                                            ++ (fmt_d s.mode
                                                            ++ (codes ",record_expiration_date="
                                                            ++ (fmt_d s.record_expiration_date
                                                            ++ (codes ",photo_expiration_date="
                                                            ++ (fmt_d s.photo_expiration_date
                                                            ++ (codes " where id="
                                                            ++ (fmt_d s.id
                                                            ++ codes
                                                            ";"))))))))))))))))))))))))))))))))))))

unfoldable pub write_record : ℕ → Option Bytes → Option Record → M ℤ
write_record fuel (some db) (some s) = run_update db (execute fuel (record_update s))
write_record fuel db s = pure minus_one

unfoldable pub record_insert : Record → Bytes
record_insert s = snprintf 1024 (
    codes
      "insert into record(id,codec_type,iframe_interval,bitrate_type,bitrate,fps,resolution,audio_enable,audio_codec_type,audio_samplerate,prev_record_on,prev_record_duration,post_record_on,post_record_duration,input_video_signal_type,mode,record_expiration_date,photo_expiration_date) values("
    ++ (fmt_d s.id
        ++ (codes ","
            ++ (fmt_d s.codec_type
                ++ (codes ","
                    ++ (fmt_d s.iframe_interval
                        ++ (codes ","
                            ++ (fmt_d s.bitrate_type
                                ++ (codes ","
                                    ++ (fmt_d s.kbps
                                        ++ (codes ","
                                            ++ (fmt_d s.fps
                                                ++ (codes ","
                                                    ++ (fmt_d s.resolution
                                                        ++ (codes ","
                                                            ++ (fmt_d s.audio_enable
                                                            ++ (codes ","
                                                            ++ (fmt_d s.audio_codec_type
                                                            ++ (codes ","
                                                            ++ (fmt_d s.audio_samplerate
                                                            ++ (codes ","
                                                            ++ (fmt_d s.prev_record_on
                                                            ++ (codes ","
                                                            ++ (fmt_d s.prev_record_duration
                                                            ++ (codes ","
                                                            ++ (fmt_d s.post_record_on
                                                            ++ (codes ","
                                                            ++ (fmt_d s.post_record_duration
                                                            ++ (codes ","
                                                            ++ (fmt_d s.input_video_signal_type
                                                            ++ (codes ","
                                                            ++ (fmt_d s.mode
                                                            ++ (codes ","
                                                            ++ (fmt_d s.record_expiration_date
                                                            ++ (codes ","
                                                            ++ (fmt_d s.photo_expiration_date
                                                            ++ codes
                                                            ");"))))))))))))))))))))))))))))))))))))

unfoldable pub insert_record : ℕ → Option Bytes → Option Record → M ℤ
insert_record fuel (some db) (some s) = run_update db (execute fuel (record_insert s))
insert_record fuel db s = pure minus_one

unfoldable pub record_prev_post_update : Record → Bytes
record_prev_post_update s = snprintf 512 (
    codes "update record set prev_record_on="
    ++ (fmt_d s.prev_record_on
        ++ (codes ", prev_record_duration="
            ++ (fmt_d s.prev_record_duration
                ++ (codes ", post_record_on="
                    ++ (fmt_d s.post_record_on
                        ++ (codes ", post_record_duration="
                            ++ (fmt_d s.post_record_duration ++ codes ";"))))))))

unfoldable pub write_record_prev_post : ℕ → Option Bytes → Option Record → M ℤ
write_record_prev_post fuel (some db) (some s) =
    run_update db (execute fuel (record_prev_post_update s))
write_record_prev_post fuel db s = pure minus_one
