-- ===== src/Msdb/Osd.antt =====
-- The on-screen-display settings of a channel: struct osd and its functions in libs/msdb/msdb.c.
-- A double is its 64 bits.
pub mod Fields
pub mod Held
pub mod Statement
pub mod Written
use build_project.Prelude.{
  ℕ, ◌+◌, ℤ, pos, minus_one, is_negative, Bool, true, Option, none, some, List, [], ◌∷◌, ◌++◌,
  Bytes, codes, fmt_d, snprintf, ◌==◌, if◌then◌else◌,
}
use build_project.Msdb.Quote.{double_quotes}
use build_project.Sys.{M, pure, ◌>>=◌, ◌>>◌, float_format}
use build_project.Msdb.{
  Array, run_query, run_update, execute, int_column, double_column, text_column, rows_loop,
}

pub record Osd : Type 0 where
  pub id : ℤ
  pub name : Bytes
  pub show_name : ℤ
  pub show_date : ℤ
  pub show_week : ℤ
  pub date_format : ℤ
  pub time_format : ℤ
  pub date_pos_x : ℕ
  pub date_pos_y : ℕ
  pub name_pos_x : ℕ
  pub name_pos_y : ℕ
  pub alpha : ℤ

-- MAX_CAMERA
abbrev pub max_camera : ℕ
max_camera = 64

-- The columns of a row into a struct that holds `o`.
unfoldable pub osd_row : ℕ → Osd → M Osd
osd_row stmt o = do
  id ← int_column stmt (pos 0) o.id
  name ← text_column stmt (pos 1) o.name 64
  show_name ← int_column stmt (pos 2) o.show_name
  show_date ← int_column stmt (pos 3) o.show_date
  show_week ← int_column stmt (pos 4) o.show_week
  date_format ← int_column stmt (pos 5) o.date_format
  time_format ← int_column stmt (pos 6) o.time_format
  date_pos_x ← double_column stmt (pos 7) o.date_pos_x
  date_pos_y ← double_column stmt (pos 8) o.date_pos_y
  name_pos_x ← double_column stmt (pos 9) o.name_pos_x
  name_pos_y ← double_column stmt (pos 10) o.name_pos_y
  alpha ← int_column stmt (pos 11) o.alpha
  pure (record {
    id = id;
    name = name;
    show_name = show_name;
    show_date = show_date;
    show_week = show_week;
    date_format = date_format;
    time_format = time_format;
    date_pos_x = date_pos_x;
    date_pos_y = date_pos_y;
    name_pos_x = name_pos_x;
    name_pos_y = name_pos_y;
    alpha = alpha;
  })

unfoldable pub osd_query : ℤ → Bytes
osd_query chn_id = snprintf 512 (
    codes
      "select id, name, show_name, show_date, show_week, date_format, time_format, date_pos_x,date_pos_y,name_pos_x,name_pos_y,alpha from osd where id="
    ++ (fmt_d chn_id ++ codes ";"))

-- A read returns the result and what is in the struct afterwards; a NULL pointer is `none`.
unfoldable pub read_osd : Option Bytes → Option Osd → ℤ → M (ℤ × Option Osd)
unfolding osd_row
read_osd (some db) (some osd) chn_id =
    if is_negative chn_id
    then pure (minus_one, some osd)
    else run_query db (osd_query chn_id) true
        (λ stmt. do o ← osd_row stmt osd; pure (pos 0, some o)) (minus_one, some osd)
        (minus_one, some osd)
read_osd db osd chn_id = pure (minus_one, osd)

unfoldable pub osd_name_query : ℤ → Bytes
osd_name_query chn_id =
    snprintf 512 (codes "select name from osd where id=" ++ (fmt_d chn_id ++ codes ";"))

unfoldable pub read_osd_name : Option Bytes → Option Bytes → ℤ → M (ℤ × Option Bytes)
read_osd_name (some db) (some name) chn_id =
    if is_negative chn_id
    then pure (minus_one, some name)
    else run_query db (osd_name_query chn_id) true
        (λ stmt. do v ← text_column stmt (pos 0) name 64; pure (pos 0, some v))
        (minus_one, some name) (minus_one, some name)
read_osd_name db name chn_id = pure (minus_one, name)

-- The part of the update behind the name, with its closing quote; `fmt_f` is `%f`.
unfoldable pub osd_update_rest : (ℕ → Bytes) → Osd → Bytes
osd_update_rest fmt_f o =
    codes "', show_name="
    ++ (fmt_d o.show_name
        ++ (codes ", show_date="
            ++ (fmt_d o.show_date
                ++ (codes ",show_week="
                    ++ (fmt_d o.show_week
                        ++ (codes ",date_format="
                            ++ (fmt_d o.date_format
                                ++ (codes ",time_format="
                                    ++ (fmt_d o.time_format
                                        ++ (codes ",date_pos_x="
                                            ++ (fmt_f o.date_pos_x
                                                ++ (codes ",date_pos_y="
                                                    ++ (fmt_f o.date_pos_y
                                                        ++ (codes ",name_pos_x="
                                                            ++ (fmt_f o.name_pos_x
                                                            ++ (codes ",name_pos_y="
                                                            ++ (fmt_f o.name_pos_y
                                                            ++ (codes ",alpha="
                                                            ++ (fmt_d o.alpha
                                                            ++ (codes " where id="
                                                            ++ (fmt_d o.id
                                                            ++ codes ";")))))))))))))))))))))

unfoldable pub osd_update : (ℕ → Bytes) → Osd → Bytes
osd_update fmt_f o = snprintf 512 (
    codes "update osd set name = '"
    ++ (double_quotes (snprintf 64 o.name) ++ osd_update_rest fmt_f o))

unfoldable pub write_osd : ℕ → Option Bytes → Option Osd → M ℤ
write_osd fuel (some db) (some osd) =
    run_update db λ conn. do fmt_f ← float_format; execute fuel (osd_update fmt_f osd) conn
write_osd fuel db osd = pure minus_one

-- The part of the insert behind the name, with its closing quote.
unfoldable pub osd_insert_rest : (ℕ → Bytes) → Osd → Bytes
osd_insert_rest fmt_f o =
    codes "',"
    ++ (fmt_d o.show_name
        ++ (codes ","
            ++ (fmt_d o.show_date
                ++ (codes ","
                    ++ (fmt_d o.show_week
                        ++ (codes ","
                            ++ (fmt_d o.date_format
                                ++ (codes ","
                                    ++ (fmt_d o.time_format
                                        ++ (codes ","
                                            ++ (fmt_f o.date_pos_x
                                                ++ (codes ","
                                                    ++ (fmt_f o.date_pos_y
                                                        ++ (codes ","
                                                            ++ (fmt_f o.name_pos_x
                                                            ++ (codes ","
                                                            ++ (fmt_f o.name_pos_y
                                                            ++ (codes ","
                                                            ++ (fmt_d o.alpha
                                                            ++ codes ");")))))))))))))))))))

unfoldable pub osd_insert : (ℕ → Bytes) → Osd → Bytes
osd_insert fmt_f o = snprintf 1024 (
    codes
      "insert into osd(id,name,show_name,show_date,show_week,date_format,time_format,date_pos_x,date_pos_y,name_pos_x,name_pos_y,alpha) values("
    ++ (fmt_d o.id ++ (codes ",'" ++ (o.name ++ osd_insert_rest fmt_f o))))

-- The name goes into the statement as it is.
unfoldable pub insert_osd : ℕ → Option Bytes → Option Osd → M ℤ
insert_osd fuel (some db) (some osd) =
    run_update db λ conn. do fmt_f ← float_format; execute fuel (osd_insert fmt_f osd) conn
insert_osd fuel db osd = pure minus_one

unfoldable pub osds_query : Bytes
osds_query = snprintf 512 (
    codes
      "select id, name, show_name, show_date, show_week, date_format, time_format, date_pos_x,date_pos_y,name_pos_x,name_pos_y,alpha from osd order by(id);")

-- The result, the array and `*pCount`, which holds `count` before;
-- the code writes through the pointer to it untested, and it is taken to be valid.
unfoldable pub read_osds : Option Bytes → Option (Array Osd) → ℕ → M (ℤ × Option (Array Osd) × ℕ)
unfolding osd_row
read_osds (some db) (some osds) count =
    run_query db osds_query true
      (λ stmt. do
        (cells, i) ← rows_loop stmt (osd_row stmt) max_camera 0 osds
        pure (pos 0, some cells, i))
      (minus_one, some osds, count) (minus_one, some osds, 0)
read_osds db osds count = pure (minus_one, osds, count)
