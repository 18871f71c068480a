-- ===== src/Msdb/AudioIn.antt =====
-- The audio inputs: struct audio_in and its functions in libs/msdb/msdb.c.
pub mod Fields
pub mod Held
use build_project.Prelude.{
  ℕ, ◌+◌, ℤ, pos, minus_one, is_negative, is_zero, Bool, true, false, Option, none, some, List, [],
  ◌∷◌, ◌++◌, Bytes, codes, fmt_d, snprintf, ◌==◌, if◌then◌else◌,
}
use build_project.Sys.{M, pure, ◌>>=◌, ◌>>◌}
use build_project.Ccsqlite.{sqlite_conn}
use build_project.Msdb.{
  Array, file_lock, file_lock_name, write_mode, file_unlock, run_query, run_update, execute, i32,
  int_column, uint_column, double_column, text_column, rows_loop,
}

pub record AudioIn : Type 0 where
  pub id : ℤ
  pub enable : ℤ
  pub samplerate : ℤ
  pub volume : ℤ

-- The columns of a row into a struct that holds `s`.
unfoldable pub audio_in_row : ℕ → AudioIn → M AudioIn
audio_in_row stmt s = do
  id ← int_column stmt (pos 0) s.id
  enable ← int_column stmt (pos 1) s.enable
  samplerate ← int_column stmt (pos 2) s.samplerate
  volume ← int_column stmt (pos 3) s.volume
  pure (record { id = id; enable = enable; samplerate = samplerate; volume = volume })

unfoldable pub audio_ins_query : Bytes
audio_ins_query = snprintf 512 (codes "select id, enable, samplerate, volume from audio_in;")

-- MAX_AUDIOIN rounds; the result, the array and the count, which holds `count` before;
-- the code writes through the pointer to it untested, and it is taken to be valid.
unfoldable pub read_audio_ins :
    Option Bytes → Option (Array AudioIn) → ℕ → M (ℤ × Option (Array AudioIn) × ℕ)
unfolding audio_in_row
read_audio_ins (some db) (some cells) count =
    run_query db audio_ins_query false
      (λ stmt. do
        (cells', i) ← rows_loop stmt (audio_in_row stmt) 16 0 cells
        pure (pos 0, some cells', i))
      (minus_one, some cells, count) (minus_one, some cells, 0)
read_audio_ins db cells count = pure (minus_one, cells, count)

unfoldable pub audio_in_update : AudioIn → Bytes
audio_in_update s = snprintf 256 (
    codes "update audio_in set enable="
    ++ (fmt_d s.enable
        ++ (codes ", samplerate="
            ++ (fmt_d s.samplerate
                ++ (codes ",volume="
                    ++ (fmt_d s.volume ++ (codes " where id=" ++ (fmt_d s.id ++ codes ";"))))))))

unfoldable pub write_audio_in : ℕ → Option Bytes → Option AudioIn → M ℤ
write_audio_in fuel (some db) (some s) = run_update db (execute fuel (audio_in_update s))
write_audio_in fuel db s = pure minus_one
