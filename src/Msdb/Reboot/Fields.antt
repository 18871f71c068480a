-- ===== src/Msdb/Reboot/Fields.antt =====
-- The fields of struct reboot_conf are filled from the columns of their names.
use build_project.Prelude.{
  ℕ, pos, minus_one, true, false, some, List, [], ◌∷◌, Bytes, codes, snprintf, ◌≡◌, refl, ◌⊎◌, inl,
  inr, ◌==◌, ap,
}
use build_project.Sys.{Trace, Env}
use build_project.Sys.Ends.{Ends, bind, mono, pure-Ends}
use build_project.Msdb.Select.{
  Row, Serves, select_names, stored, int_column-served, text_column-served,
}
use build_project.Msdb.Served.{Finds, run_query-found, run_query_one-either}
use build_project.Msdb.Reboot.{read_autoreboot_conf, autoreboot_conf_query, reboot_row, Reboot}
use build_project.Msdb.Reboot.Held.{reboot_row-Reads}

-- The row as a struct that held `s` before.
abbrev pub reboot_of : Row → Reboot → Reboot
reboot_of row s = record s {
  enable = row.ints (codes "enable");
  wday = row.ints (codes "wday");
  hour = row.ints (codes "hour");
  login = row.ints (codes "login");
  username = stored 100 s.username (row.texts (codes "username"));
  reboot = row.ints (codes "reboot");
}

abbrev reboot_columns : List Bytes
reboot_columns =
    codes "enable"
    ∷ codes "wday"
    ∷ codes "hour"
    ∷ codes "login"
    ∷ codes "username"
    ∷ codes "reboot"
    ∷ []

reboot_row-served :
    {e : Env} {row : Row} (stmt : ℕ) (s : Reboot) (t : Trace)
    → Serves e reboot_columns row
    → (stmt == 0) ≡ false
    → Ends (λ s' _. s' ≡ reboot_of row s) (reboot_row stmt s e t)
unfolding reboot_row
reboot_row-served {e} stmt s t w l = bind _ _ (int_column-served w stmt l 0 s.enable t) λ c0 t0 p0.
    bind _ _ (int_column-served w stmt l 1 s.wday t0) λ c1 t1 p1.
      bind _ _ (int_column-served w stmt l 2 s.hour t1) λ c2 t2 p2.
        bind _ _ (int_column-served w stmt l 3 s.login t2) λ c3 t3 p3.
          bind _ _ (text_column-served w stmt l 4 s.username 100 t3 refl) λ c4 t4 p4.
            bind _ _ (int_column-served w stmt l 5 s.reboot t4) λ c5 t5 p5. pure-Ends e t5 _ (cc)

autoreboot_conf_query-columns : select_names autoreboot_conf_query ≡ reboot_columns
unfolding select_names autoreboot_conf_query snprintf
autoreboot_conf_query-columns = refl

-- If SQLite finds a row, `read_autoreboot_conf` answers 0, and each field that it
-- reads is the value of the column that its select list names for it, a text cut to its buffer.
pub read_autoreboot_conf-row :
    (e : Env) (row : Row) (db : Bytes) (s : Reboot) (t : Trace)
    → Finds e
    → Serves e (select_names autoreboot_conf_query) row
    → Ends
        (λ (r, s') _. (r ≡ pos 0) × (s' ≡ some (reboot_of row s)))
        (read_autoreboot_conf (some db) (some s) e t)
unfolding read_autoreboot_conf
read_autoreboot_conf-row e row db s t finds w =
    (run_query-found e finds db autoreboot_conf_query true _ _ _ t λ stmt u live.
      bind _ _ (reboot_row-served stmt s u (rw (autoreboot_conf_query-columns) at w) live)
        λ s' v p. pure-Ends e v _ (refl, cc))

pub read_autoreboot_conf-unchanged :
    (e : Env) (db : Bytes) (s : Reboot) (t : Trace)
    → Ends
        (λ (r, s') _. (r ≡ pos 0) ⊎ (r ≡ minus_one) × (s' ≡ some s))
        (read_autoreboot_conf (some db) (some s) e t)
unfolding read_autoreboot_conf
read_autoreboot_conf-unchanged e db s t =
    mono
      (run_query_one-either e db autoreboot_conf_query true _ _ t
        λ stmt u. bind _ _ ((reboot_row-Reads stmt s).returns e u) λ s' v _. pure-Ends e v _ refl)
      λ (r, s') u o. elim o [
        | inl fine ↦ inl fine
        | inr same ↦ inr (ap (λ p. p.0) same, ap (λ p. p.1) same)
      ]
