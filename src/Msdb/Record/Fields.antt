-- ===== src/Msdb/Record/Fields.antt =====
-- The fields of struct record are filled from the columns of their names.
use build_project.Prelude.{
  ℕ, ℤ, pos, minus_one, is_negative, true, false, some, List, [], ◌∷◌, Bytes, codes, snprintf, ◌≡◌,
  refl, ◌⊎◌, inl, inr, ◌==◌, ap, Bool-cases,
}
use build_project.Sys.{Trace, Env}
use build_project.Sys.Ends.{Ends, bind, mono, pure-Ends}
use build_project.Msdb.Select.{Row, Serves, select_names, int_column-served}
use build_project.Msdb.Served.{Finds, run_query-found, run_query_one-either}
use build_project.Msdb.Record.{read_record, record_query, record_row, Record}
use build_project.Msdb.Record.Held.{record_row-Reads}

-- The row as a struct that held `s` before.
abbrev pub record_of : Row → Record → Record
record_of row s = record s {
  id = row.ints (codes "id");
  codec_type = row.ints (codes "codec_type");
  iframe_interval = row.ints (codes "iframe_interval");
  bitrate_type = row.ints (codes "bitrate_type");
  kbps = row.ints (codes "bitrate");
  fps = row.ints (codes "fps");
  resolution = row.ints (codes "resolution");
  audio_enable = row.ints (codes "audio_enable");
  audio_codec_type = row.ints (codes "audio_codec_type");
  audio_samplerate = row.ints (codes "audio_samplerate");
  prev_record_on = row.ints (codes "prev_record_on");
  prev_record_duration = row.ints (codes "prev_record_duration");
  post_record_on = row.ints (codes "post_record_on");
  post_record_duration = row.ints (codes "post_record_duration");
  input_video_signal_type = row.ints (codes "input_video_signal_type");
  mode = row.ints (codes "mode");
  record_expiration_date = row.ints (codes "record_expiration_date");
  photo_expiration_date = row.ints (codes "photo_expiration_date");
}

abbrev record_columns : List Bytes
record_columns =
    codes "id"
    ∷ codes "codec_type"
    ∷ codes "iframe_interval"
    ∷ codes "bitrate_type"
    ∷ codes "bitrate"
    ∷ codes "fps"
    ∷ codes "resolution"
    ∷ codes "audio_enable"
    ∷ codes "audio_codec_type"
    ∷ codes "audio_samplerate"
    ∷ codes "prev_record_on"
    ∷ codes "prev_record_duration"
    ∷ codes "post_record_on"
    ∷ codes "post_record_duration"
    ∷ codes "input_video_signal_type"
    ∷ codes "mode"
    ∷ codes "record_expiration_date"
    ∷ codes "photo_expiration_date"
    ∷ []

record_row-served :
    {e : Env} {row : Row} (stmt : ℕ) (s : Record) (t : Trace)
    → Serves e record_columns row
    → (stmt == 0) ≡ false
    → Ends (λ s' _. s' ≡ record_of row s) (record_row stmt s e t)
unfolding record_row
record_row-served {e} stmt s t w l = bind _ _ (int_column-served w stmt l 0 s.id t) λ c0 t0 p0.
    bind _ _ (int_column-served w stmt l 1 s.codec_type t0) λ c1 t1 p1.
      bind _ _ (int_column-served w stmt l 2 s.iframe_interval t1) λ c2 t2 p2.
        bind _ _ (int_column-served w stmt l 3 s.bitrate_type t2) λ c3 t3 p3.
          bind _ _ (int_column-served w stmt l 4 s.kbps t3) λ c4 t4 p4.
            bind _ _ (int_column-served w stmt l 5 s.fps t4) λ c5 t5 p5.
              bind _ _ (int_column-served w stmt l 6 s.resolution t5) λ c6 t6 p6.
                bind _ _ (int_column-served w stmt l 7 s.audio_enable t6) λ c7 t7 p7.
                  bind _ _ (int_column-served w stmt l 8 s.audio_codec_type t7) λ c8 t8 p8.
                    bind _ _ (int_column-served w stmt l 9 s.audio_samplerate t8) λ c9 t9 p9.
                      bind _ _ (int_column-served w stmt l 10 s.prev_record_on t9) λ c10 t10 p10.
                        bind _ _ (int_column-served w stmt l 11 s.prev_record_duration t10)
                          λ c11 t11 p11.
                            bind _ _ (int_column-served w stmt l 12 s.post_record_on t11)
                              λ c12 t12 p12.
                                bind _ _ (int_column-served w stmt l 13 s.post_record_duration t12)
                                  λ c13 t13 p13.
                                    bind _ _
                                      (int_column-served w stmt l 14 s.input_video_signal_type t13)
                                      λ c14 t14 p14.
                                        bind _ _ (int_column-served w stmt l 15 s.mode t14)
                                          λ c15 t15 p15.
                                            bind _ _
                                              (int_column-served w stmt l 16
                                                s.record_expiration_date t15)
                                              λ c16 t16 p16.
                                                bind _ _
                                                  (int_column-served w stmt l 17
                                                    s.photo_expiration_date t16)
                                                  λ c17 t17 p17. pure-Ends e t17 _ (cc)

record_query-columns : (chn_id : ℤ) → select_names (record_query chn_id) ≡ record_columns
unfolding select_names record_query snprintf
record_query-columns chn_id = refl

-- If SQLite finds a row, `read_record` for an id that is not negative answers 0, and each field that it
-- reads is the value of the column that its select list names for it, a text cut to its buffer.
pub read_record-row :
    (e : Env) (row : Row) (db : Bytes) (s : Record) (chn_id : ℤ) (t : Trace)
    → is_negative chn_id ≡ false
    → Finds e
    → Serves e (select_names (record_query chn_id)) row
    → Ends
        (λ (r, s') _. (r ≡ pos 0) × (s' ≡ some (record_of row s)))
        (read_record (some db) (some s) chn_id e t)
unfolding read_record
read_record-row e row db s chn_id t fine finds w = rw fine (
    run_query-found e finds db (record_query chn_id) true _ _ _ t λ stmt u live.
      bind _ _ (record_row-served stmt s u (rw (record_query-columns chn_id) at w) live)
        λ s' v p. pure-Ends e v _ (refl, cc))

pub read_record-unchanged :
    (e : Env) (db : Bytes) (s : Record) (chn_id : ℤ) (t : Trace)
    → Ends
        (λ (r, s') _. (r ≡ pos 0) ⊎ (r ≡ minus_one) × (s' ≡ some s))
        (read_record (some db) (some s) chn_id e t)
unfolding read_record
read_record-unchanged e db s chn_id t = elim (Bool-cases (is_negative chn_id)) [
  | inl neg ↦ rw neg (pure-Ends e t _ (inr (refl, refl)))
  | inr fine ↦ rw fine (
      mono
        (run_query_one-either e db (record_query chn_id) true _ _ t
          λ stmt u. bind _ _ ((record_row-Reads stmt s).returns e u) λ s' v _. pure-Ends e v _ refl)
        λ (r, s') u o. elim o [
          | inl fine ↦ inl fine
          | inr same ↦ inr (ap (λ p. p.0) same, ap (λ p. p.1) same)
        ])
]
