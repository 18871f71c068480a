-- ===== src/Msdb/AlarmOut/Fields.antt =====
-- The fields of struct alarm_out are filled from the columns of their names.
use build_project.Prelude.{
  ℕ, ℤ, pos, minus_one, is_negative, true, false, some, List, [], ◌∷◌, Bytes, codes, snprintf, ◌≡◌,
  refl, ◌⊎◌, inl, inr, ◌==◌, ap, Bool-cases,
}
use build_project.Sys.{Trace, Env}
use build_project.Sys.Ends.{Ends, bind, mono, pure-Ends}
use build_project.Msdb.Select.{
  Row, Serves, select_names, stored, int_column-served, text_column-served,
}
use build_project.Msdb.Served.{Finds, run_query-found, run_query_one-either}
use build_project.Msdb.AlarmOut.{read_alarm_out, alarm_out_query, alarm_out_row, AlarmOut}
use build_project.Msdb.AlarmOut.Held.{alarm_out_row-Reads}

-- The row as a struct that held `s` before.
abbrev pub alarm_out_of : Row → AlarmOut → AlarmOut
alarm_out_of row s = record s {
  id = row.ints (codes "id");
  name = stored 256 s.name (row.texts (codes "name"));
  type = row.ints (codes "type");
  enable = row.ints (codes "enable");
  duration_time = row.ints (codes "duration_time");
}

abbrev alarm_out_columns : List Bytes
alarm_out_columns =
    codes "id" ∷ codes "name" ∷ codes "type" ∷ codes "enable" ∷ codes "duration_time" ∷ []

alarm_out_row-served :
    {e : Env} {row : Row} (stmt : ℕ) (s : AlarmOut) (t : Trace)
    → Serves e alarm_out_columns row
    → (stmt == 0) ≡ false
    → Ends (λ s' _. s' ≡ alarm_out_of row s) (alarm_out_row stmt s e t)
unfolding alarm_out_row
alarm_out_row-served {e} stmt s t w l = bind _ _ (int_column-served w stmt l 0 s.id t) λ c0 t0 p0.
    bind _ _ (text_column-served w stmt l 1 s.name 256 t0 refl) λ c1 t1 p1.
      bind _ _ (int_column-served w stmt l 2 s.type t1) λ c2 t2 p2.
        bind _ _ (int_column-served w stmt l 3 s.enable t2) λ c3 t3 p3.
          bind _ _ (int_column-served w stmt l 4 s.duration_time t3)
            λ c4 t4 p4. pure-Ends e t4 _ (cc)

alarm_out_query-columns :
    (alarm_id : ℤ) → select_names (alarm_out_query alarm_id) ≡ alarm_out_columns
unfolding select_names alarm_out_query snprintf
alarm_out_query-columns alarm_id = refl

-- If SQLite finds a row, `read_alarm_out` for an id that is not negative answers 0, and each field that it
-- reads is the value of the column that its select list names for it, a text cut to its buffer.
pub read_alarm_out-row :
    (e : Env) (row : Row) (db : Bytes) (s : AlarmOut) (alarm_id : ℤ) (t : Trace)
    → is_negative alarm_id ≡ false
    → Finds e
    → Serves e (select_names (alarm_out_query alarm_id)) row
    → Ends
        (λ (r, s') _. (r ≡ pos 0) × (s' ≡ some (alarm_out_of row s)))
        (read_alarm_out (some db) (some s) alarm_id e t)
unfolding read_alarm_out
read_alarm_out-row e row db s alarm_id t fine finds w = rw fine (
    run_query-found e finds db (alarm_out_query alarm_id) true _ _ _ t λ stmt u live.
      bind _ _ (alarm_out_row-served stmt s u (rw (alarm_out_query-columns alarm_id) at w) live)
        λ s' v p. pure-Ends e v _ (refl, cc))

pub read_alarm_out-unchanged :
    (e : Env) (db : Bytes) (s : AlarmOut) (alarm_id : ℤ) (t : Trace)
    → Ends
        (λ (r, s') _. (r ≡ pos 0) ⊎ (r ≡ minus_one) × (s' ≡ some s))
        (read_alarm_out (some db) (some s) alarm_id e t)
unfolding read_alarm_out
read_alarm_out-unchanged e db s alarm_id t = elim (Bool-cases (is_negative alarm_id)) [
  | inl neg ↦ rw neg (pure-Ends e t _ (inr (refl, refl)))
  | inr fine ↦ rw fine (
      mono
        (run_query_one-either e db (alarm_out_query alarm_id) true _ _ t λ stmt u.
          bind _ _ ((alarm_out_row-Reads stmt s).returns e u) λ s' v _. pure-Ends e v _ refl)
        λ (r, s') u o. elim o [
          | inl fine ↦ inl fine
          | inr same ↦ inr (ap (λ p. p.0) same, ap (λ p. p.1) same)
        ])
]
