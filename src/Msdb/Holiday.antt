-- ===== src/Msdb/Holiday.antt =====
-- The holidays: struct holiday and its functions in libs/msdb/msdb.c.
pub mod Fields
pub mod Held
use build_project.Prelude.{
  ℕ, ◌+◌, ℤ, pos, minus_one, is_negative, is_zero, Bool, true, false, Option, none, some, List, [],
  ◌∷◌, ◌++◌, Bytes, codes, fmt_d, snprintf, ◌==◌, if◌then◌else◌,
}
use build_project.Sys.{M, pure, ◌>>=◌, ◌>>◌}
use build_project.Ccsqlite.{sqlite_conn}
use build_project.Msdb.{
  Array, file_lock, file_lock_name, write_mode, file_unlock, run_query, run_update, execute, i32,
  int_column, uint_column, double_column, text_column, rows_loop,
}

pub record Holiday : Type 0 where
  pub id : ℤ
  pub name : Bytes
  pub enable : ℤ
  pub type : ℤ
  pub start_year : ℤ
  pub start_mon : ℤ
  pub start_mday : ℤ
  pub start_mweek : ℤ
  pub start_wday : ℤ
  pub end_year : ℤ
  pub end_mon : ℤ
  pub end_mday : ℤ
  pub end_mweek : ℤ
  pub end_wday : ℤ

-- The columns of a row into a struct that holds `s`.
unfoldable pub holiday_row : ℕ → Holiday → M Holiday
holiday_row stmt s = do
  id ← int_column stmt (pos 0) s.id
  enable ← int_column stmt (pos 1) s.enable
  name ← text_column stmt (pos 2) s.name 256
  type ← int_column stmt (pos 3) s.type
  start_year ← int_column stmt (pos 4) s.start_year
  start_mon ← int_column stmt (pos 5) s.start_mon
  start_mday ← int_column stmt (pos 6) s.start_mday
  start_mweek ← int_column stmt (pos 7) s.start_mweek
  start_wday ← int_column stmt (pos 8) s.start_wday
  end_year ← int_column stmt (pos 9) s.end_year
  end_mon ← int_column stmt (pos 10) s.end_mon
  end_mday ← int_column stmt (pos 11) s.end_mday
  end_mweek ← int_column stmt (pos 12) s.end_mweek
  end_wday ← int_column stmt (pos 13) s.end_wday
  pure (record {
    id = id;
    enable = enable;
    name = name;
    type = type;
    start_year = start_year;
    start_mon = start_mon;
    start_mday = start_mday;
    start_mweek = start_mweek;
    start_wday = start_wday;
    end_year = end_year;
    end_mon = end_mon;
    end_mday = end_mday;
    end_mweek = end_mweek;
    end_wday = end_wday;
  })

unfoldable pub holidays_query : Bytes
holidays_query = snprintf 256 (
    codes
      "select id,enable,name,type,start_year,start_mon,start_mday,start_mweek,start_wday,end_year,end_mon,end_mday,end_mweek,end_wday from holiday;")

-- MAX_CAMERA rounds; the result, the array and the count, which holds `count` before;
-- the code writes through the pointer to it untested, and it is taken to be valid.
unfoldable pub read_holidays :
    Option Bytes → Option (Array Holiday) → ℕ → M (ℤ × Option (Array Holiday) × ℕ)
unfolding holiday_row
read_holidays (some db) (some cells) count =
    run_query db holidays_query true
      (λ stmt. do
        (cells', i) ← rows_loop stmt (holiday_row stmt) 64 0 cells
        pure (pos 0, some cells', i))
      (minus_one, some cells, count) (minus_one, some cells, 0)
read_holidays db cells count = pure (minus_one, cells, count)

unfoldable pub holiday_update : Holiday → Bytes
holiday_update s = snprintf 512 (
    codes "update holiday set enable="
    ++ (fmt_d s.enable
        ++ (codes ",name='"
            ++ (s.name
                ++ (codes "',type="
                    ++ (fmt_d s.type
                        ++ (codes ",start_year="
                            ++ (fmt_d s.start_year
                                ++ (codes ",start_mon="
                                    ++ (fmt_d s.start_mon
                                        ++ (codes ",start_mday="
                                            ++ (fmt_d s.start_mday
                                                ++ (codes ",start_mweek="
                                                    ++ (fmt_d s.start_mweek
                                                        ++ (codes ",start_wday="
                                                            ++ (fmt_d s.start_wday
                                                            ++ (codes ",end_year="
                                                            ++ (fmt_d s.end_year
                                                            ++ (codes ",end_mon="
                                                            ++ (fmt_d s.end_mon
                                                            ++ (codes ",end_mday="
                                                            ++ (fmt_d s.end_mday
                                                            ++ (codes ",end_mweek="
                                                            ++ (fmt_d s.end_mweek
                                                            ++ (codes ",end_wday="
                                                            ++ (fmt_d s.end_wday
                                                            ++ (codes " where id="
                                                            ++ (fmt_d s.id
                                                            ++ codes ";"))))))))))))))))))))))))))))

unfoldable pub write_holiday : ℕ → Option Bytes → Option Holiday → M ℤ
write_holiday fuel (some db) (some s) = run_update db (execute fuel (holiday_update s))
write_holiday fuel db s = pure minus_one
