-- ===== src/Msdb/PtzPort/Fields.antt =====
-- The fields of struct ptz_port are filled from the columns of their names.
use build_project.Prelude.{
  ℕ, ℤ, pos, minus_one, is_negative, true, false, some, List, [], ◌∷◌, Bytes, codes, snprintf, ◌≡◌,
  refl, ◌⊎◌, inl, inr, ◌==◌, ap, Bool-cases,
}
use build_project.Sys.{Trace, Env}
use build_project.Sys.Ends.{Ends, bind, mono, pure-Ends}
use build_project.Msdb.Select.{Row, Serves, select_names, int_column-served}
use build_project.Msdb.Served.{Finds, run_query-found, run_query_one-either}
use build_project.Msdb.PtzPort.{read_ptz_port, ptz_port_query, ptz_port_row, PtzPort}
use build_project.Msdb.PtzPort.Held.{ptz_port_row-Reads}

-- The row as a struct that held `s` before.
abbrev pub ptz_port_of : Row → PtzPort → PtzPort
ptz_port_of row s = record s {
  id = row.ints (codes "id");
  baudrate = row.ints (codes "baudrate");
  data_bit = row.ints (codes "data_bit");
  stop_bit = row.ints (codes "stop_bit");
  parity_type = row.ints (codes "parity_type");
  protocol = row.ints (codes "protocol");
  address = row.ints (codes "address");
  com_type = row.ints (codes "com_type");
  connect_type = row.ints (codes "connect_type");
}

abbrev ptz_port_columns : List Bytes
ptz_port_columns =
    codes "id"
    ∷ codes "baudrate"
    ∷ codes "data_bit"
    ∷ codes "stop_bit"
    ∷ codes "parity_type"
    ∷ codes "protocol"
    ∷ codes "address"
    ∷ codes "com_type"
    ∷ codes "connect_type"
    ∷ []

ptz_port_row-served :
    {e : Env} {row : Row} (stmt : ℕ) (s : PtzPort) (t : Trace)
    → Serves e ptz_port_columns row
    → (stmt == 0) ≡ false
    → Ends (λ s' _. s' ≡ ptz_port_of row s) (ptz_port_row stmt s e t)
unfolding ptz_port_row
ptz_port_row-served {e} stmt s t w l = bind _ _ (int_column-served w stmt l 0 s.id t) λ c0 t0 p0.
    bind _ _ (int_column-served w stmt l 1 s.baudrate t0) λ c1 t1 p1.
      bind _ _ (int_column-served w stmt l 2 s.data_bit t1) λ c2 t2 p2.
        bind _ _ (int_column-served w stmt l 3 s.stop_bit t2) λ c3 t3 p3.
          bind _ _ (int_column-served w stmt l 4 s.parity_type t3) λ c4 t4 p4.
            bind _ _ (int_column-served w stmt l 5 s.protocol t4) λ c5 t5 p5.
              bind _ _ (int_column-served w stmt l 6 s.address t5) λ c6 t6 p6.
                bind _ _ (int_column-served w stmt l 7 s.com_type t6) λ c7 t7 p7.
                  bind _ _ (int_column-served w stmt l 8 s.connect_type t7)
                    λ c8 t8 p8. pure-Ends e t8 _ (cc)

ptz_port_query-columns : (chn_id : ℤ) → select_names (ptz_port_query chn_id) ≡ ptz_port_columns
unfolding select_names ptz_port_query snprintf
ptz_port_query-columns chn_id = refl

-- If SQLite finds a row, `read_ptz_port` for an id that is not negative answers 0, and each field that it
-- reads is the value of the column that its select list names for it, a text cut to its buffer.
pub read_ptz_port-row :
    (e : Env) (row : Row) (db : Bytes) (s : PtzPort) (chn_id : ℤ) (t : Trace)
    → is_negative chn_id ≡ false
    → Finds e
    → Serves e (select_names (ptz_port_query chn_id)) row
    → Ends
        (λ (r, s') _. (r ≡ pos 0) × (s' ≡ some (ptz_port_of row s)))
        (read_ptz_port (some db) (some s) chn_id e t)
unfolding read_ptz_port
read_ptz_port-row e row db s chn_id t fine finds w = rw fine (
    run_query-found e finds db (ptz_port_query chn_id) true _ _ _ t λ stmt u live.
      bind _ _ (ptz_port_row-served stmt s u (rw (ptz_port_query-columns chn_id) at w) live)
        λ s' v p. pure-Ends e v _ (refl, cc))

pub read_ptz_port-unchanged :
    (e : Env) (db : Bytes) (s : PtzPort) (chn_id : ℤ) (t : Trace)
    → Ends
        (λ (r, s') _. (r ≡ pos 0) ⊎ (r ≡ minus_one) × (s' ≡ some s))
        (read_ptz_port (some db) (some s) chn_id e t)
unfolding read_ptz_port
read_ptz_port-unchanged e db s chn_id t = elim (Bool-cases (is_negative chn_id)) [
  | inl neg ↦ rw neg (pure-Ends e t _ (inr (refl, refl)))
  | inr fine ↦ rw fine (
      mono
        (run_query_one-either e db (ptz_port_query chn_id) true _ _ t λ stmt u.
          bind _ _ ((ptz_port_row-Reads stmt s).returns e u) λ s' v _. pure-Ends e v _ refl)
        λ (r, s') u o. elim o [
          | inl fine ↦ inl fine
          | inr same ↦ inr (ap (λ p. p.0) same, ap (λ p. p.1) same)
        ])
]
