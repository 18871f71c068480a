-- ===== src/Msdb/Time/Fields.antt =====
-- The fields of struct time are filled from the columns of their names.
use build_project.Prelude.{
  ℕ, pos, minus_one, false, some, List, [], ◌∷◌, Bytes, codes, snprintf, ◌≡◌, refl, ◌⊎◌, inl, inr,
  ◌==◌, ap,
}
use build_project.Sys.{Trace, Env}
use build_project.Sys.Ends.{Ends, bind, mono, pure-Ends}
use build_project.Msdb.Select.{
  Row, Serves, select_names, stored, int_column-served, text_column-served,
}
use build_project.Msdb.Served.{Finds, run_query-found, run_query_one-either}
use build_project.Msdb.Time.{read_time, time_query, time_row, Time}
use build_project.Msdb.Time.Held.{time_row-Reads}

-- The row as a struct that held `s` before.
abbrev pub time_of : Row → Time → Time
time_of row s = record s {
  ntp_enable = row.ints (codes "ntp_enable");
  dst_enable = row.ints (codes "dst_enable");
  time_zone = stored 32 s.time_zone (row.texts (codes "time_zone"));
  time_zone_name = stored 32 s.time_zone_name (row.texts (codes "time_zone_name"));
  ntp_server = stored 64 s.ntp_server (row.texts (codes "ntp_server"));
}

abbrev time_columns : List Bytes
time_columns =
    codes "ntp_enable"
    ∷ codes "dst_enable"
    ∷ codes "time_zone"
    ∷ codes "time_zone_name"
    ∷ codes "ntp_server"
    ∷ []

time_row-served :
    {e : Env} {row : Row} (stmt : ℕ) (s : Time) (t : Trace)
    → Serves e time_columns row
    → (stmt == 0) ≡ false
    → Ends (λ s' _. s' ≡ time_of row s) (time_row stmt s e t)
unfolding time_row
time_row-served {e} stmt s t w l =
    bind _ _ (int_column-served w stmt l 0 s.ntp_enable t) λ c0 t0 p0.
      bind _ _ (int_column-served w stmt l 1 s.dst_enable t0) λ c1 t1 p1.
        bind _ _ (text_column-served w stmt l 2 s.time_zone 32 t1 refl) λ c2 t2 p2.
          bind _ _ (text_column-served w stmt l 3 s.time_zone_name 32 t2 refl) λ c3 t3 p3.
            bind _ _ (text_column-served w stmt l 4 s.ntp_server 64 t3 refl)
              λ c4 t4 p4. pure-Ends e t4 _ (cc)

time_query-columns : select_names time_query ≡ time_columns
unfolding select_names time_query snprintf
time_query-columns = refl

-- If SQLite finds a row, `read_time` answers 0, and each field that it
-- reads is the value of the column that its select list names for it, a text cut to its buffer.
pub read_time-row :
    (e : Env) (row : Row) (db : Bytes) (s : Time) (t : Trace)
    → Finds e
    → Serves e (select_names time_query) row
    → Ends
        (λ (r, s') _. (r ≡ pos 0) × (s' ≡ some (time_of row s)))
        (read_time (some db) (some s) e t)
unfolding read_time
read_time-row e row db s t finds w =
    (run_query-found e finds db time_query false _ _ _ t λ stmt u live.
      bind _ _ (time_row-served stmt s u (rw (time_query-columns) at w) live)
        λ s' v p. pure-Ends e v _ (refl, cc))

pub read_time-unchanged :
    (e : Env) (db : Bytes) (s : Time) (t : Trace)
    → Ends
        (λ (r, s') _. (r ≡ pos 0) ⊎ (r ≡ minus_one) × (s' ≡ some s))
        (read_time (some db) (some s) e t)
unfolding read_time
read_time-unchanged e db s t =
    mono
      (run_query_one-either e db time_query false _ _ t
        λ stmt u. bind _ _ ((time_row-Reads stmt s).returns e u) λ s' v _. pure-Ends e v _ refl)
      λ (r, s') u o. elim o [
        | inl fine ↦ inl fine
        | inr same ↦ inr (ap (λ p. p.0) same, ap (λ p. p.1) same)
      ]
