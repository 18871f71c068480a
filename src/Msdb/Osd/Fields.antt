-- ===== src/Msdb/Osd/Fields.antt =====
-- The fields of struct osd are filled from the columns of their names.
use build_project.Prelude.{
  true, ℕ, ℤ, pos, minus_one, is_negative, false, some, List, [], ◌∷◌, Bytes, codes, ◌≡◌, refl, ap,
  Bool-cases, ◌⊎◌, inl, inr, ◌==◌, snprintf,
}
use build_project.Sys.{Trace, Env}
use build_project.Sys.Ends.{Ends, bind, mono, pure-Ends}
use build_project.Msdb.Select.{
  Row, Serves, select_names, stored, int_column-served, double_column-served, text_column-served,
}
use build_project.Msdb.Served.{Finds, run_query-found, run_query_one-either}
use build_project.Msdb.Osd.Held.{osd_row-Reads}
use build_project.Msdb.Osd.{Osd, osd_row, osd_query, read_osd}

-- The row as a struct that held `o` before.
abbrev pub osd_of : Row → Osd → Osd
osd_of row o = record {
  id = row.ints (codes "id");
  name = stored 64 o.name (row.texts (codes "name"));
  show_name = row.ints (codes "show_name");
  show_date = row.ints (codes "show_date");
  show_week = row.ints (codes "show_week");
  date_format = row.ints (codes "date_format");
  time_format = row.ints (codes "time_format");
  date_pos_x = row.doubles (codes "date_pos_x");
  date_pos_y = row.doubles (codes "date_pos_y");
  name_pos_x = row.doubles (codes "name_pos_x");
  name_pos_y = row.doubles (codes "name_pos_y");
  alpha = row.ints (codes "alpha");
}

abbrev osd_columns : List Bytes
osd_columns =
    codes "id"
    ∷ codes "name"
    ∷ codes "show_name"
    ∷ codes "show_date"
    ∷ codes "show_week"
    ∷ codes "date_format"
    ∷ codes "time_format"
    ∷ codes "date_pos_x"
    ∷ codes "date_pos_y"
    ∷ codes "name_pos_x"
    ∷ codes "name_pos_y"
    ∷ codes "alpha"
    ∷ []

osd_query-columns : (chn_id : ℤ) → select_names (osd_query chn_id) ≡ osd_columns
unfolding select_names osd_query snprintf
osd_query-columns chn_id = refl

osd_row-served :
    {e : Env} {row : Row} (stmt : ℕ) (o : Osd) (t : Trace)
    → Serves e osd_columns row
    → (stmt == 0) ≡ false
    → Ends (λ o' _. o' ≡ osd_of row o) (osd_row stmt o e t)
unfolding osd_row
osd_row-served {e} stmt o t s l = bind _ _ (int_column-served s stmt l 0 o.id t) λ c₀ t₁ p₀.
    bind _ _ (text_column-served s stmt l 1 o.name 64 t₁ refl) λ c₁ t₂ p₁.
      bind _ _ (int_column-served s stmt l 2 o.show_name t₂) λ c₂ t₃ p₂.
        bind _ _ (int_column-served s stmt l 3 o.show_date t₃) λ c₃ t₄ p₃.
          bind _ _ (int_column-served s stmt l 4 o.show_week t₄) λ c₄ t₅ p₄.
            bind _ _ (int_column-served s stmt l 5 o.date_format t₅) λ c₅ t₆ p₅.
              bind _ _ (int_column-served s stmt l 6 o.time_format t₆) λ c₆ t₇ p₆.
                bind _ _ (double_column-served s stmt l 7 o.date_pos_x t₇) λ c₇ t₈ p₇.
                  bind _ _ (double_column-served s stmt l 8 o.date_pos_y t₈) λ c₈ t₉ p₈.
                    bind _ _ (double_column-served s stmt l 9 o.name_pos_x t₉) λ c₉ t₁₀ p₉.
                      bind _ _ (double_column-served s stmt l 10 o.name_pos_y t₁₀) λ c₁₀ t₁₁ p₁₀.
                        bind _ _ (int_column-served s stmt l 11 o.alpha t₁₁)
                          λ c₁₁ t₁₂ p₁₁. pure-Ends e t₁₂ _ (cc)

-- If SQLite finds a row of the table osd, `read_osd` for a channel that is not negative answers 0, and
-- every field of the struct is the value of the column of its name, the name cut to 63 bytes.
pub read_osd-row :
    (e : Env) (row : Row) (db : Bytes) (s : Osd) (chn_id : ℤ) (t : Trace)
    → is_negative chn_id ≡ false
    → Finds e
    → Serves e (select_names (osd_query chn_id)) row
    → Ends
        (λ (r, s') _. (r ≡ pos 0) × (s' ≡ some (osd_of row s)))
        (read_osd (some db) (some s) chn_id e t)
unfolding read_osd
read_osd-row e row db s chn_id t fine finds w = rw fine (
    run_query-found e finds db (osd_query chn_id) true _ _ _ t λ stmt u live.
      bind _ _ (osd_row-served stmt s u (rw (osd_query-columns chn_id) at w) live)
        λ s' v p. pure-Ends e v _ (refl, cc))

-- Whatever the system answers, `read_osd` returns 0, or it returns -1 and leaves the struct as it was.
pub read_osd-unchanged :
    (e : Env) (db : Bytes) (s : Osd) (chn_id : ℤ) (t : Trace)
    → Ends
        (λ (r, s') _. (r ≡ pos 0) ⊎ (r ≡ minus_one) × (s' ≡ some s))
        (read_osd (some db) (some s) chn_id e t)
unfolding read_osd
read_osd-unchanged e db s chn_id t = elim (Bool-cases (is_negative chn_id)) [
  | inl neg ↦ rw neg (pure-Ends e t _ (inr (refl, refl)))
  | inr fine ↦ rw fine (
      mono
        (run_query_one-either e db (osd_query chn_id) true _ _ t
          λ stmt u. bind _ _ ((osd_row-Reads stmt s).returns e u) λ s' v _. pure-Ends e v _ refl)
        λ (r, s') u o. elim o [
          | inl ok ↦ inl ok
          | inr same ↦ inr (ap (λ p. p.0) same, ap (λ p. p.1) same)
        ])
]
