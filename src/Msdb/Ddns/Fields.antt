-- ===== src/Msdb/Ddns/Fields.antt =====
-- The fields of struct ddns are filled from the columns of their names.
use build_project.Prelude.{
  ℕ, pos, minus_one, false, some, List, [], ◌∷◌, Bytes, codes, snprintf, ◌≡◌, refl, ◌⊎◌, inl, inr,
  ◌==◌, ap,
}
use build_project.Sys.{Trace, Env}
use build_project.Sys.Ends.{Ends, bind, mono, pure-Ends}
use build_project.Msdb.Select.{
  Row, Serves, select_names, stored, int_column-served, text_column-served,
}
use build_project.Msdb.Served.{Finds, run_query-found, run_query_one-either}
use build_project.Msdb.Ddns.{read_ddns, ddns_query, ddns_row, Ddns}
use build_project.Msdb.Ddns.Held.{ddns_row-Reads}

-- The row as a struct that held `s` before.
abbrev pub ddns_of : Row → Ddns → Ddns
ddns_of row s = record s {
  enable = row.ints (codes "enable");
  domain = stored 64 s.domain (row.texts (codes "domain"));
  username = stored 32 s.username (row.texts (codes "username"));
  password = stored 32 s.password (row.texts (codes "password"));
  host_name = stored 128 s.host_name (row.texts (codes "host_name"));
  free_dns_hash = stored 128 s.free_dns_hash (row.texts (codes "free_dns_hash"));
  update_freq = row.ints (codes "update_freq");
  http_port = row.ints (codes "http_port");
  rtsp_port = row.ints (codes "rtsp_port");
  ddnsurl = stored 128 s.ddnsurl (row.texts (codes "ddnsurl"));
}

abbrev ddns_columns : List Bytes
ddns_columns =
    codes "enable"
    ∷ codes "domain"
    ∷ codes "username"
    ∷ codes "password"
    ∷ codes "host_name"
    ∷ codes "free_dns_hash"
    ∷ codes "update_freq"
    ∷ codes "http_port"
    ∷ codes "rtsp_port"
    ∷ codes "ddnsurl"
    ∷ []

ddns_row-served :
    {e : Env} {row : Row} (stmt : ℕ) (s : Ddns) (t : Trace)
    → Serves e ddns_columns row
    → (stmt == 0) ≡ false
    → Ends (λ s' _. s' ≡ ddns_of row s) (ddns_row stmt s e t)
unfolding ddns_row
ddns_row-served {e} stmt s t w l = bind _ _ (int_column-served w stmt l 0 s.enable t) λ c0 t0 p0.
    bind _ _ (text_column-served w stmt l 1 s.domain 64 t0 refl) λ c1 t1 p1.
      bind _ _ (text_column-served w stmt l 2 s.username 32 t1 refl) λ c2 t2 p2.
        bind _ _ (text_column-served w stmt l 3 s.password 32 t2 refl) λ c3 t3 p3.
          bind _ _ (text_column-served w stmt l 4 s.host_name 128 t3 refl) λ c4 t4 p4.
            bind _ _ (text_column-served w stmt l 5 s.free_dns_hash 128 t4 refl) λ c5 t5 p5.
              bind _ _ (int_column-served w stmt l 6 s.update_freq t5) λ c6 t6 p6.
                bind _ _ (int_column-served w stmt l 7 s.http_port t6) λ c7 t7 p7.
                  bind _ _ (int_column-served w stmt l 8 s.rtsp_port t7) λ c8 t8 p8.
                    bind _ _ (text_column-served w stmt l 9 s.ddnsurl 128 t8 refl)
                      λ c9 t9 p9. pure-Ends e t9 _ (cc)

ddns_query-columns : select_names ddns_query ≡ ddns_columns
unfolding select_names ddns_query snprintf
ddns_query-columns = refl

-- If SQLite finds a row, `read_ddns` answers 0, and each field that it
-- reads is the value of the column that its select list names for it, a text cut to its buffer.
pub read_ddns-row :
    (e : Env) (row : Row) (db : Bytes) (s : Ddns) (t : Trace)
    → Finds e
    → Serves e (select_names ddns_query) row
    → Ends
        (λ (r, s') _. (r ≡ pos 0) × (s' ≡ some (ddns_of row s)))
        (read_ddns (some db) (some s) e t)
unfolding read_ddns
read_ddns-row e row db s t finds w =
    (run_query-found e finds db ddns_query false _ _ _ t λ stmt u live.
      bind _ _ (ddns_row-served stmt s u (rw (ddns_query-columns) at w) live)
        λ s' v p. pure-Ends e v _ (refl, cc))

pub read_ddns-unchanged :
    (e : Env) (db : Bytes) (s : Ddns) (t : Trace)
    → Ends
        (λ (r, s') _. (r ≡ pos 0) ⊎ (r ≡ minus_one) × (s' ≡ some s))
        (read_ddns (some db) (some s) e t)
unfolding read_ddns
read_ddns-unchanged e db s t =
    mono
      (run_query_one-either e db ddns_query false _ _ t
        λ stmt u. bind _ _ ((ddns_row-Reads stmt s).returns e u) λ s' v _. pure-Ends e v _ refl)
      λ (r, s') u o. elim o [
        | inl fine ↦ inl fine
        | inr same ↦ inr (ap (λ p. p.0) same, ap (λ p. p.1) same)
      ]
