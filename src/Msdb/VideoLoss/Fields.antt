-- ===== src/Msdb/VideoLoss/Fields.antt =====
-- The fields of struct video_loss are filled from the columns of their names.
use build_project.Prelude.{
  ℕ, ℤ, pos, minus_one, true, false, some, List, [], ◌∷◌, Bytes, codes, snprintf, ◌≡◌, refl, ◌⊎◌,
  inl, inr, ◌==◌, ap,
}
use build_project.Sys.{Trace, Env}
use build_project.Sys.Ends.{Ends, bind, mono, pure-Ends}
use build_project.Msdb.{u32}
use build_project.Msdb.Select.{Row, Serves, select_names, int_column-served, uint_column-served}
use build_project.Msdb.Served.{Finds, run_query-found, run_query_one-either}
use build_project.Msdb.VideoLoss.{read_video_lost, video_lost_query, video_loss_row, VideoLoss}
use build_project.Msdb.VideoLoss.Held.{video_loss_row-Reads}

-- The row as a struct that held `s` before.
abbrev pub video_loss_of : Row → VideoLoss → VideoLoss
video_loss_of row s = record s {
  id = row.ints (codes "id");
  enable = row.ints (codes "enable");
  tri_alarms = u32 (row.ints (codes "tri_alarms"));
  buzzer_interval = row.ints (codes "buzzer_interval");
  email_enable = row.ints (codes "email_enable");
  email_buzzer_interval = row.ints (codes "email_buzzer_interval");
}

abbrev video_loss_columns : List Bytes
video_loss_columns =
    codes "id"
    ∷ codes "enable"
    ∷ codes "tri_alarms"
    ∷ codes "buzzer_interval"
    ∷ codes "email_enable"
    ∷ codes "email_buzzer_interval"
    ∷ []

video_loss_row-served :
    {e : Env} {row : Row} (stmt : ℕ) (s : VideoLoss) (t : Trace)
    → Serves e video_loss_columns row
    → (stmt == 0) ≡ false
    → Ends (λ s' _. s' ≡ video_loss_of row s) (video_loss_row stmt s e t)
unfolding video_loss_row
video_loss_row-served {e} stmt s t w l = bind _ _ (int_column-served w stmt l 0 s.id t) λ c0 t0 p0.
    bind _ _ (int_column-served w stmt l 1 s.enable t0) λ c1 t1 p1.
      bind _ _ (uint_column-served w stmt l 2 s.tri_alarms t1) λ c2 t2 p2.
        bind _ _ (int_column-served w stmt l 3 s.buzzer_interval t2) λ c3 t3 p3.
          bind _ _ (int_column-served w stmt l 4 s.email_enable t3) λ c4 t4 p4.
            bind _ _ (int_column-served w stmt l 5 s.email_buzzer_interval t4)
              λ c5 t5 p5. pure-Ends e t5 _ (cc)

video_lost_query-columns :
    (chn_id : ℤ) → select_names (video_lost_query chn_id) ≡ video_loss_columns
unfolding select_names video_lost_query snprintf
video_lost_query-columns chn_id = refl

-- If SQLite finds a row, `read_video_lost` answers 0, and each field that it
-- reads is the value of the column that its select list names for it, a text cut to its buffer.
pub read_video_lost-row :
    (e : Env) (row : Row) (db : Bytes) (s : VideoLoss) (chn_id : ℤ) (t : Trace)
    → Finds e
    → Serves e (select_names (video_lost_query chn_id)) row
    → Ends
        (λ (r, s') _. (r ≡ pos 0) × (s' ≡ some (video_loss_of row s)))
        (read_video_lost (some db) (some s) chn_id e t)
unfolding read_video_lost
read_video_lost-row e row db s chn_id t finds w =
    (run_query-found e finds db (video_lost_query chn_id) true _ _ _ t λ stmt u live.
      bind _ _ (video_loss_row-served stmt s u (rw (video_lost_query-columns chn_id) at w) live)
        λ s' v p. pure-Ends e v _ (refl, cc))

pub read_video_lost-unchanged :
    (e : Env) (db : Bytes) (s : VideoLoss) (chn_id : ℤ) (t : Trace)
    → Ends
        (λ (r, s') _. (r ≡ pos 0) ⊎ (r ≡ minus_one) × (s' ≡ some s))
        (read_video_lost (some db) (some s) chn_id e t)
unfolding read_video_lost
read_video_lost-unchanged e db s chn_id t =
    mono
      (run_query_one-either e db (video_lost_query chn_id) true _ _ t λ stmt u.
        bind _ _ ((video_loss_row-Reads stmt s).returns e u) λ s' v _. pure-Ends e v _ refl)
      λ (r, s') u o. elim o [
        | inl fine ↦ inl fine
        | inr same ↦ inr (ap (λ p. p.0) same, ap (λ p. p.1) same)
      ]
