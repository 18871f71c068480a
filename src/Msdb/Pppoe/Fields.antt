-- ===== src/Msdb/Pppoe/Fields.antt =====
-- The fields of struct pppoe are filled from the columns of their names.
use build_project.Prelude.{
  ℕ, pos, minus_one, false, some, List, [], ◌∷◌, Bytes, codes, snprintf, ◌≡◌, refl, ◌⊎◌, inl, inr,
  ◌==◌, ap,
}
use build_project.Sys.{Trace, Env}
use build_project.Sys.Ends.{Ends, bind, mono, pure-Ends}
use build_project.Msdb.Select.{
  Row, Serves, select_names, stored, int_column-served, text_column-served,
}
use build_project.Msdb.Served.{Finds, run_query-found, run_query_one-either}
use build_project.Msdb.Pppoe.{read_pppoe, pppoe_query, pppoe_row, Pppoe}
use build_project.Msdb.Pppoe.Held.{pppoe_row-Reads}

-- The row as a struct that held `s` before.
abbrev pub pppoe_of : Row → Pppoe → Pppoe
pppoe_of row s = record s {
  enable = row.ints (codes "enable");
  auto_connect = row.ints (codes "auto_connect");
  username = stored 64 s.username (row.texts (codes "username"));
  password = stored 64 s.password (row.texts (codes "password"));
}

abbrev pppoe_columns : List Bytes
pppoe_columns = codes "enable" ∷ codes "auto_connect" ∷ codes "username" ∷ codes "password" ∷ []

pppoe_row-served :
    {e : Env} {row : Row} (stmt : ℕ) (s : Pppoe) (t : Trace)
    → Serves e pppoe_columns row
    → (stmt == 0) ≡ false
    → Ends (λ s' _. s' ≡ pppoe_of row s) (pppoe_row stmt s e t)
unfolding pppoe_row
pppoe_row-served {e} stmt s t w l = bind _ _ (int_column-served w stmt l 0 s.enable t) λ c0 t0 p0.
    bind _ _ (int_column-served w stmt l 1 s.auto_connect t0) λ c1 t1 p1.
      bind _ _ (text_column-served w stmt l 2 s.username 64 t1 refl) λ c2 t2 p2.
        bind _ _ (text_column-served w stmt l 3 s.password 64 t2 refl)
          λ c3 t3 p3. pure-Ends e t3 _ (cc)

pppoe_query-columns : select_names pppoe_query ≡ pppoe_columns
unfolding select_names pppoe_query snprintf
pppoe_query-columns = refl

-- If SQLite finds a row, `read_pppoe` answers 0, and each field that it
-- reads is the value of the column that its select list names for it, a text cut to its buffer.
pub read_pppoe-row :
    (e : Env) (row : Row) (db : Bytes) (s : Pppoe) (t : Trace)
    → Finds e
    → Serves e (select_names pppoe_query) row
    → Ends
        (λ (r, s') _. (r ≡ pos 0) × (s' ≡ some (pppoe_of row s)))
        (read_pppoe (some db) (some s) e t)
unfolding read_pppoe
read_pppoe-row e row db s t finds w =
    (run_query-found e finds db pppoe_query false _ _ _ t λ stmt u live.
      bind _ _ (pppoe_row-served stmt s u (rw (pppoe_query-columns) at w) live)
        λ s' v p. pure-Ends e v _ (refl, cc))

pub read_pppoe-unchanged :
    (e : Env) (db : Bytes) (s : Pppoe) (t : Trace)
    → Ends
        (λ (r, s') _. (r ≡ pos 0) ⊎ (r ≡ minus_one) × (s' ≡ some s))
        (read_pppoe (some db) (some s) e t)
unfolding read_pppoe
read_pppoe-unchanged e db s t =
    mono
      (run_query_one-either e db pppoe_query false _ _ t
        λ stmt u. bind _ _ ((pppoe_row-Reads stmt s).returns e u) λ s' v _. pure-Ends e v _ refl)
      λ (r, s') u o. elim o [
        | inl fine ↦ inl fine
        | inr same ↦ inr (ap (λ p. p.0) same, ap (λ p. p.1) same)
      ]
