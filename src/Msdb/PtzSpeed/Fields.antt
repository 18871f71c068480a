-- ===== src/Msdb/PtzSpeed/Fields.antt =====
-- The fields of struct ptz_speed are filled from the columns of their names.
use build_project.Prelude.{
  ℕ, ℤ, pos, minus_one, is_negative, false, some, List, [], ◌∷◌, Bytes, codes, snprintf, ◌≡◌, refl,
  ◌⊎◌, inl, inr, ◌==◌, ap, Bool-cases,
}
use build_project.Sys.{Trace, Env}
use build_project.Sys.Ends.{Ends, bind, mono, pure-Ends}
use build_project.Msdb.Select.{Row, Serves, select_names, int_column-served}
use build_project.Msdb.Served.{Finds, run_query-found, run_query_one-either}
use build_project.Msdb.PtzSpeed.{read_ptz_speed, ptz_speed_query, ptz_speed_row, PtzSpeed}
use build_project.Msdb.PtzSpeed.Held.{ptz_speed_row-Reads}

-- The row as a struct that held `s` before.
abbrev pub ptz_speed_of : Row → PtzSpeed → PtzSpeed
ptz_speed_of row s = record s {
  id = row.ints (codes "id");
  pan = row.ints (codes "pan");
  tilt = row.ints (codes "tilt");
  zoom = row.ints (codes "zoom");
  focus = row.ints (codes "focus");
  timeout = row.ints (codes "timeout");
}

abbrev ptz_speed_columns : List Bytes
ptz_speed_columns =
    codes "id" ∷ codes "pan" ∷ codes "tilt" ∷ codes "zoom" ∷ codes "focus" ∷ codes "timeout" ∷ []

ptz_speed_row-served :
    {e : Env} {row : Row} (stmt : ℕ) (s : PtzSpeed) (t : Trace)
    → Serves e ptz_speed_columns row
    → (stmt == 0) ≡ false
    → Ends (λ s' _. s' ≡ ptz_speed_of row s) (ptz_speed_row stmt s e t)
unfolding ptz_speed_row
ptz_speed_row-served {e} stmt s t w l = bind _ _ (int_column-served w stmt l 0 s.id t) λ c0 t0 p0.
    bind _ _ (int_column-served w stmt l 1 s.pan t0) λ c1 t1 p1.
      bind _ _ (int_column-served w stmt l 2 s.tilt t1) λ c2 t2 p2.
        bind _ _ (int_column-served w stmt l 3 s.zoom t2) λ c3 t3 p3.
          bind _ _ (int_column-served w stmt l 4 s.focus t3) λ c4 t4 p4.
            bind _ _ (int_column-served w stmt l 5 s.timeout t4) λ c5 t5 p5. pure-Ends e t5 _ (cc)

ptz_speed_query-columns : (chn_id : ℤ) → select_names (ptz_speed_query chn_id) ≡ ptz_speed_columns
unfolding select_names ptz_speed_query snprintf
ptz_speed_query-columns chn_id = refl

-- If SQLite finds a row, `read_ptz_speed` for an id that is not negative answers 0, and each field that it
-- reads is the value of the column that its select list names for it, a text cut to its buffer.
pub read_ptz_speed-row :
    (e : Env) (row : Row) (db : Bytes) (s : PtzSpeed) (chn_id : ℤ) (t : Trace)
    → is_negative chn_id ≡ false
    → Finds e
    → Serves e (select_names (ptz_speed_query chn_id)) row
    → Ends
        (λ (r, s') _. (r ≡ pos 0) × (s' ≡ some (ptz_speed_of row s)))
        (read_ptz_speed (some db) (some s) chn_id e t)
unfolding read_ptz_speed
read_ptz_speed-row e row db s chn_id t fine finds w = rw fine (
    run_query-found e finds db (ptz_speed_query chn_id) false _ _ _ t λ stmt u live.
      bind _ _ (ptz_speed_row-served stmt s u (rw (ptz_speed_query-columns chn_id) at w) live)
        λ s' v p. pure-Ends e v _ (refl, cc))

pub read_ptz_speed-unchanged :
    (e : Env) (db : Bytes) (s : PtzSpeed) (chn_id : ℤ) (t : Trace)
    → Ends
        (λ (r, s') _. (r ≡ pos 0) ⊎ (r ≡ minus_one) × (s' ≡ some s))
        (read_ptz_speed (some db) (some s) chn_id e t)
unfolding read_ptz_speed
read_ptz_speed-unchanged e db s chn_id t = elim (Bool-cases (is_negative chn_id)) [
  | inl neg ↦ rw neg (pure-Ends e t _ (inr (refl, refl)))
  | inr fine ↦ rw fine (
      mono
        (run_query_one-either e db (ptz_speed_query chn_id) false _ _ t λ stmt u.
          bind _ _ ((ptz_speed_row-Reads stmt s).returns e u) λ s' v _. pure-Ends e v _ refl)
        λ (r, s') u o. elim o [
          | inl fine ↦ inl fine
          | inr same ↦ inr (ap (λ p. p.0) same, ap (λ p. p.1) same)
        ])
]
