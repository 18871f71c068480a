-- ===== src/Msdb/AudioIn/Held.antt =====
-- The functions on struct audio_in give back all that they acquire.
use build_project.Msdb.{Array}
use build_project.Prelude.{ℕ, false, Option, none, some, Bytes}
use build_project.Msdb.Held.{
  Reads, Reads-bind, Reads-pure, int_column-Reads, uint_column-Reads, double_column-Reads,
  text_column-Reads, rows_loop-Reads, execute-Writes, Balanced, Balanced-pure, Settles,
  Settles-of_Balanced, run_query-Balanced, run_update-Settles,
}
use build_project.Msdb.AudioIn.{
  read_audio_ins, write_audio_in, audio_ins_query, audio_in_update, audio_in_row, AudioIn,
}

pub audio_in_row-Reads : (stmt : ℕ) (s : AudioIn) → Reads stmt (audio_in_row stmt s)
unfolding audio_in_row
audio_in_row-Reads stmt s =
    search
      (
        Reads-bind, Reads-pure, int_column-Reads, uint_column-Reads, double_column-Reads,
        text_column-Reads,
      )
      depth 45

pub read_audio_ins-Balanced :
    (db : Option Bytes) (cells : Option (Array AudioIn)) (count : ℕ)
    → Balanced (read_audio_ins db cells count)
unfolding read_audio_ins
read_audio_ins-Balanced none cells count = Balanced-pure _
read_audio_ins-Balanced (some db) none count = Balanced-pure _
read_audio_ins-Balanced (some db) (some cells) count =
    run_query-Balanced db audio_ins_query false _ _ _ λ stmt.
      Reads-bind (rows_loop-Reads stmt (audio_in_row stmt) (audio_in_row-Reads stmt) 16 0 cells)
        λ (cells', i). Reads-pure _

pub write_audio_in-Settles :
    (fuel : ℕ) (db : Option Bytes) (s : Option AudioIn) → Settles (write_audio_in fuel db s)
unfolding write_audio_in
write_audio_in-Settles fuel none s = Settles-of_Balanced (Balanced-pure _)
write_audio_in-Settles fuel (some db) none = Settles-of_Balanced (Balanced-pure _)
write_audio_in-Settles fuel (some db) (some s) =
    run_update-Settles db _ (execute-Writes fuel (audio_in_update s))
