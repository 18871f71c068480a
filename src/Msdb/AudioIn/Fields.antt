-- ===== src/Msdb/AudioIn/Fields.antt =====
-- The fields of struct audio_in are filled from the columns of their names.
use build_project.Prelude.{ℕ, false, List, [], ◌∷◌, Bytes, codes, ◌≡◌, ◌==◌}
use build_project.Sys.{Trace, Env}
use build_project.Sys.Ends.{Ends, bind, pure-Ends}
use build_project.Msdb.Select.{Row, Serves, int_column-served}
use build_project.Msdb.AudioIn.{audio_in_row, AudioIn}

-- The row as a struct that held `s` before.
abbrev pub audio_in_of : Row → AudioIn → AudioIn
audio_in_of row s = record s {
  id = row.ints (codes "id");
  enable = row.ints (codes "enable");
  samplerate = row.ints (codes "samplerate");
  volume = row.ints (codes "volume");
}

abbrev audio_in_columns : List Bytes
audio_in_columns = codes "id" ∷ codes "enable" ∷ codes "samplerate" ∷ codes "volume" ∷ []

audio_in_row-served :
    {e : Env} {row : Row} (stmt : ℕ) (s : AudioIn) (t : Trace)
    → Serves e audio_in_columns row
    → (stmt == 0) ≡ false
    → Ends (λ s' _. s' ≡ audio_in_of row s) (audio_in_row stmt s e t)
unfolding audio_in_row
audio_in_row-served {e} stmt s t w l = bind _ _ (int_column-served w stmt l 0 s.id t) λ c0 t0 p0.
    bind _ _ (int_column-served w stmt l 1 s.enable t0) λ c1 t1 p1.
      bind _ _ (int_column-served w stmt l 2 s.samplerate t1) λ c2 t2 p2.
        bind _ _ (int_column-served w stmt l 3 s.volume t2) λ c3 t3 p3. pure-Ends e t3 _ (cc)
