-- ===== src/Msdb/PtzSpeed.antt =====
-- The speeds of a pan-tilt-zoom unit: struct ptz_speed and its functions in libs/msdb/msdb.c.
pub mod Fields
pub mod Held
use build_project.Prelude.{
  ℕ, ◌+◌, ℤ, pos, minus_one, is_negative, is_zero, Bool, true, false, Option, none, some, List, [],
  ◌∷◌, ◌++◌, Bytes, codes, fmt_d, snprintf, ◌==◌, if◌then◌else◌,
}
use build_project.Sys.{M, pure, ◌>>=◌, ◌>>◌}
use build_project.Ccsqlite.{sqlite_conn}
use build_project.Msdb.{
  Array, file_lock, file_lock_name, write_mode, file_unlock, run_query, run_update, execute, i32,
  int_column, uint_column, double_column, text_column, rows_loop,
}

pub record PtzSpeed : Type 0 where
  pub id : ℤ
  pub pan : ℤ
  pub tilt : ℤ
  pub zoom : ℤ
  pub focus : ℤ
  pub timeout : ℤ

-- The columns of a row into a struct that holds `s`.
unfoldable pub ptz_speed_row : ℕ → PtzSpeed → M PtzSpeed
ptz_speed_row stmt s = do
  id ← int_column stmt (pos 0) s.id
  pan ← int_column stmt (pos 1) s.pan
  tilt ← int_column stmt (pos 2) s.tilt
  zoom ← int_column stmt (pos 3) s.zoom
  focus ← int_column stmt (pos 4) s.focus
  timeout ← int_column stmt (pos 5) s.timeout
  pure (record { id = id; pan = pan; tilt = tilt; zoom = zoom; focus = focus; timeout = timeout })

unfoldable pub ptz_speeds_query : Bytes
ptz_speeds_query = snprintf 512 (codes "select id,pan,tilt,zoom,focus,timeout from ptz_speed;")

-- MAX_CAMERA rounds; the result, the array and the count, which holds `count` before;
-- the code writes through the pointer to it untested, and it is taken to be valid.
unfoldable pub read_ptz_speeds :
    Option Bytes → Option (Array PtzSpeed) → ℕ → M (ℤ × Option (Array PtzSpeed) × ℕ)
unfolding ptz_speed_row
read_ptz_speeds (some db) (some cells) count =
    run_query db ptz_speeds_query false
      (λ stmt. do
        (cells', i) ← rows_loop stmt (ptz_speed_row stmt) 64 0 cells
        pure (pos 0, some cells', i))
      (minus_one, some cells, count) (minus_one, some cells, 0)
read_ptz_speeds db cells count = pure (minus_one, cells, count)

unfoldable pub ptz_speed_query : ℤ → Bytes
ptz_speed_query chn_id = snprintf 512 (
    codes "select id,pan,tilt,zoom,focus,timeout from ptz_speed where id="
    ++ (fmt_d chn_id ++ codes ";"))

unfoldable pub read_ptz_speed : Option Bytes → Option PtzSpeed → ℤ → M (ℤ × Option PtzSpeed)
unfolding ptz_speed_row
read_ptz_speed (some db) (some s) chn_id =
    if is_negative chn_id
    then pure (minus_one, some s)
    else run_query db (ptz_speed_query chn_id) false
        (λ stmt. do s' ← ptz_speed_row stmt s; pure (pos 0, some s')) (minus_one, some s)
        (minus_one, some s)
read_ptz_speed db s chn_id = pure (minus_one, s)

unfoldable pub ptz_speed_update : PtzSpeed → Bytes
ptz_speed_update s = snprintf 256 (
    codes "update ptz_speed set pan="
    ++ (fmt_d s.pan
        ++ (codes ",tilt="
            ++ (fmt_d s.tilt
                ++ (codes ",zoom="
                    ++ (fmt_d s.zoom
                        ++ (codes ",focus="
                            ++ (fmt_d s.focus
                                ++ (codes ",timeout="
                                    ++ (fmt_d s.timeout
                                        ++ (codes " where id="
                                            ++ (fmt_d s.id ++ codes ";"))))))))))))

unfoldable pub write_ptz_speed : ℕ → Option Bytes → Option PtzSpeed → M ℤ
write_ptz_speed fuel (some db) (some s) = run_update db (execute fuel (ptz_speed_update s))
write_ptz_speed fuel db s = pure minus_one
