-- ===== src/Msdb/Upnp/Fields.antt =====
-- The fields of struct upnp are filled from the columns of their names.
use build_project.Prelude.{
  ℕ, pos, minus_one, false, some, List, [], ◌∷◌, Bytes, codes, snprintf, ◌≡◌, refl, ◌⊎◌, inl, inr,
  ◌==◌, ap,
}
use build_project.Sys.{Trace, Env}
use build_project.Sys.Ends.{Ends, bind, mono, pure-Ends}
use build_project.Msdb.Select.{
  Row, Serves, select_names, stored, int_column-served, text_column-served,
}
use build_project.Msdb.Served.{Finds, run_query-found, run_query_one-either}
use build_project.Msdb.Upnp.{read_upnp, upnp_query, upnp_row, Upnp}
use build_project.Msdb.Upnp.Held.{upnp_row-Reads}

-- The row as a struct that held `s` before.
abbrev pub upnp_of : Row → Upnp → Upnp
upnp_of row s = record s {
  enable = row.ints (codes "enable");
  type = row.ints (codes "type");
  name = stored 64 s.name (row.texts (codes "name"));
  extern_ip = stored 64 s.extern_ip (row.texts (codes "extern_ip"));
  http_port = row.ints (codes "http_port");
  http_status = row.ints (codes "http_status");
  rtsp_port = row.ints (codes "rtsp_port");
  rtsp_status = row.ints (codes "rtsp_status");
}

abbrev upnp_columns : List Bytes
upnp_columns =
    codes "enable"
    ∷ codes "type"
    ∷ codes "name"
    ∷ codes "extern_ip"
    ∷ codes "http_port"
    ∷ codes "http_status"
    ∷ codes "rtsp_port"
    ∷ codes "rtsp_status"
    ∷ []

upnp_row-served :
    {e : Env} {row : Row} (stmt : ℕ) (s : Upnp) (t : Trace)
    → Serves e upnp_columns row
    → (stmt == 0) ≡ false
    → Ends (λ s' _. s' ≡ upnp_of row s) (upnp_row stmt s e t)
unfolding upnp_row
upnp_row-served {e} stmt s t w l = bind _ _ (int_column-served w stmt l 0 s.enable t) λ c0 t0 p0.
    bind _ _ (int_column-served w stmt l 1 s.type t0) λ c1 t1 p1.
      bind _ _ (text_column-served w stmt l 2 s.name 64 t1 refl) λ c2 t2 p2.
        bind _ _ (text_column-served w stmt l 3 s.extern_ip 64 t2 refl) λ c3 t3 p3.
          bind _ _ (int_column-served w stmt l 4 s.http_port t3) λ c4 t4 p4.
            bind _ _ (int_column-served w stmt l 5 s.http_status t4) λ c5 t5 p5.
              bind _ _ (int_column-served w stmt l 6 s.rtsp_port t5) λ c6 t6 p6.
                bind _ _ (int_column-served w stmt l 7 s.rtsp_status t6)
                  λ c7 t7 p7. pure-Ends e t7 _ (cc)

upnp_query-columns : select_names upnp_query ≡ upnp_columns
unfolding select_names upnp_query snprintf
upnp_query-columns = refl

-- If SQLite finds a row, `read_upnp` answers 0, and each field that it
-- reads is the value of the column that its select list names for it, a text cut to its buffer.
pub read_upnp-row :
    (e : Env) (row : Row) (db : Bytes) (s : Upnp) (t : Trace)
    → Finds e
    → Serves e (select_names upnp_query) row
    → Ends
        (λ (r, s') _. (r ≡ pos 0) × (s' ≡ some (upnp_of row s)))
        (read_upnp (some db) (some s) e t)
unfolding read_upnp
read_upnp-row e row db s t finds w =
    (run_query-found e finds db upnp_query false _ _ _ t λ stmt u live.
      bind _ _ (upnp_row-served stmt s u (rw (upnp_query-columns) at w) live)
        λ s' v p. pure-Ends e v _ (refl, cc))

pub read_upnp-unchanged :
    (e : Env) (db : Bytes) (s : Upnp) (t : Trace)
    → Ends
        (λ (r, s') _. (r ≡ pos 0) ⊎ (r ≡ minus_one) × (s' ≡ some s))
        (read_upnp (some db) (some s) e t)
unfolding read_upnp
read_upnp-unchanged e db s t =
    mono
      (run_query_one-either e db upnp_query false _ _ t
        λ stmt u. bind _ _ ((upnp_row-Reads stmt s).returns e u) λ s' v _. pure-Ends e v _ refl)
      λ (r, s') u o. elim o [
        | inl fine ↦ inl fine
        | inr same ↦ inr (ap (λ p. p.0) same, ap (λ p. p.1) same)
      ]
