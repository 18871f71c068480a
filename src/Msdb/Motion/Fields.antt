-- ===== src/Msdb/Motion/Fields.antt =====
-- The fields of struct motion are filled from the columns of their names.
use build_project.Prelude.{
  ℕ, ℤ, pos, minus_one, true, false, some, List, [], ◌∷◌, Bytes, codes, snprintf, ◌≡◌, refl, ◌⊎◌,
  inl, inr, ◌==◌, ap,
}
use build_project.Sys.{Trace, Env}
use build_project.Sys.Ends.{Ends, bind, mono, pure-Ends}
use build_project.Msdb.{u32}
use build_project.Msdb.Select.{
  Row, Serves, select_names, stored, int_column-served, uint_column-served, text_column-served,
}
use build_project.Msdb.Served.{Finds, run_query-found, run_query_one-either}
use build_project.Msdb.Motion.{read_motion, motion_query, motion_row, Motion}
use build_project.Msdb.Motion.Held.{motion_row-Reads}

-- The row as a struct that held `s` before.
abbrev pub motion_of : Row → Motion → Motion
motion_of row s = record s {
  id = row.ints (codes "id");
  enable = row.ints (codes "enable");
  sensitivity = row.ints (codes "sensitivity");
  tri_channels = u32 (row.ints (codes "tri_channels"));
  tri_alarms = u32 (row.ints (codes "tri_alarms"));
  motion_table = stored 368 s.motion_table (row.texts (codes "motion_table"));
  buzzer_interval = row.ints (codes "buzzer_interval");
  ipc_sched_enable = row.ints (codes "ipc_sched_enable");
  tri_channels_ex = stored 66 s.tri_channels_ex (row.texts (codes "tri_channels_ex"));
  email_enable = row.ints (codes "email_enable");
  email_buzzer_interval = row.ints (codes "email_buzzer_interval");
}

abbrev motion_columns : List Bytes
motion_columns =
    codes "id"
    ∷ codes "enable"
    ∷ codes "sensitivity"
    ∷ codes "tri_channels"
    ∷ codes "tri_alarms"
    ∷ codes "motion_table"
    ∷ codes "buzzer_interval"
    ∷ codes "ipc_sched_enable"
    ∷ codes "tri_channels_ex"
    ∷ codes "email_enable"
    ∷ codes "email_buzzer_interval"
    ∷ []

motion_row-served :
    {e : Env} {row : Row} (stmt : ℕ) (s : Motion) (t : Trace)
    → Serves e motion_columns row
    → (stmt == 0) ≡ false
    → Ends (λ s' _. s' ≡ motion_of row s) (motion_row stmt s e t)
unfolding motion_row
motion_row-served {e} stmt s t w l = bind _ _ (int_column-served w stmt l 0 s.id t) λ c0 t0 p0.
    bind _ _ (int_column-served w stmt l 1 s.enable t0) λ c1 t1 p1.
      bind _ _ (int_column-served w stmt l 2 s.sensitivity t1) λ c2 t2 p2.
        bind _ _ (uint_column-served w stmt l 3 s.tri_channels t2) λ c3 t3 p3.
          bind _ _ (uint_column-served w stmt l 4 s.tri_alarms t3) λ c4 t4 p4.
            bind _ _ (text_column-served w stmt l 5 s.motion_table 368 t4 refl) λ c5 t5 p5.
              bind _ _ (int_column-served w stmt l 6 s.buzzer_interval t5) λ c6 t6 p6.
                bind _ _ (int_column-served w stmt l 7 s.ipc_sched_enable t6) λ c7 t7 p7.
                  bind _ _ (text_column-served w stmt l 8 s.tri_channels_ex 66 t7 refl) λ c8 t8 p8.
                    bind _ _ (int_column-served w stmt l 9 s.email_enable t8) λ c9 t9 p9.
                      bind _ _ (int_column-served w stmt l 10 s.email_buzzer_interval t9)
                        λ c10 t10 p10. pure-Ends e t10 _ (cc)

motion_query-columns : (id : ℤ) → select_names (motion_query id) ≡ motion_columns
unfolding select_names motion_query snprintf
motion_query-columns id = refl

-- If SQLite finds a row, `read_motion` answers 0, and each field that it
-- reads is the value of the column that its select list names for it, a text cut to its buffer.
pub read_motion-row :
    (e : Env) (row : Row) (db : Bytes) (s : Motion) (id : ℤ) (t : Trace)
    → Finds e
    → Serves e (select_names (motion_query id)) row
    → Ends
        (λ (r, s') _. (r ≡ pos 0) × (s' ≡ some (motion_of row s)))
        (read_motion (some db) (some s) id e t)
unfolding read_motion
read_motion-row e row db s id t finds w =
    (run_query-found e finds db (motion_query id) true _ _ _ t λ stmt u live.
      bind _ _ (motion_row-served stmt s u (rw (motion_query-columns id) at w) live)
        λ s' v p. pure-Ends e v _ (refl, cc))

pub read_motion-unchanged :
    (e : Env) (db : Bytes) (s : Motion) (id : ℤ) (t : Trace)
    → Ends
        (λ (r, s') _. (r ≡ pos 0) ⊎ (r ≡ minus_one) × (s' ≡ some s))
        (read_motion (some db) (some s) id e t)
unfolding read_motion
read_motion-unchanged e db s id t =
    mono
      (run_query_one-either e db (motion_query id) true _ _ t
        λ stmt u. bind _ _ ((motion_row-Reads stmt s).returns e u) λ s' v _. pure-Ends e v _ refl)
      λ (r, s') u o. elim o [
        | inl fine ↦ inl fine
        | inr same ↦ inr (ap (λ p. p.0) same, ap (λ p. p.1) same)
      ]
