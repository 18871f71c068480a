-- ===== src/Msdb/Layout/Fields.antt =====
-- The fields of struct layout are filled from the columns of their names.
use build_project.Prelude.{
  ℕ, pos, minus_one, false, some, List, [], ◌∷◌, Bytes, codes, snprintf, ◌≡◌, refl, ◌⊎◌, inl, inr,
  ◌==◌, ap,
}
use build_project.Sys.{Trace, Env}
use build_project.Sys.Ends.{Ends, bind, mono, pure-Ends}
use build_project.Msdb.Select.{Row, Serves, select_names, int_column-served}
use build_project.Msdb.Served.{Finds, run_query-found, run_query_one-either}
use build_project.Msdb.Layout.{read_layout, layout_query, layout_row, Layout}
use build_project.Msdb.Layout.Held.{layout_row-Reads}

-- The row as a struct that held `s` before.
abbrev pub layout_of : Row → Layout → Layout
layout_of row s = record s {
  main_output = row.ints (codes "main_output");
  sub_output = row.ints (codes "sub_output");
  main_layout_mode = row.ints (codes "main_layout_mode");
  sub_layout_mode = row.ints (codes "sub_layout_mode");
}

abbrev layout_columns : List Bytes
layout_columns =
    codes "main_output"
    ∷ codes "sub_output"
    ∷ codes "main_layout_mode"
    ∷ codes "sub_layout_mode"
    ∷ []

layout_row-served :
    {e : Env} {row : Row} (stmt : ℕ) (s : Layout) (t : Trace)
    → Serves e layout_columns row
    → (stmt == 0) ≡ false
    → Ends (λ s' _. s' ≡ layout_of row s) (layout_row stmt s e t)
unfolding layout_row
layout_row-served {e} stmt s t w l =
    bind _ _ (int_column-served w stmt l 0 s.main_output t) λ c0 t0 p0.
      bind _ _ (int_column-served w stmt l 1 s.sub_output t0) λ c1 t1 p1.
        bind _ _ (int_column-served w stmt l 2 s.main_layout_mode t1) λ c2 t2 p2.
          bind _ _ (int_column-served w stmt l 3 s.sub_layout_mode t2)
            λ c3 t3 p3. pure-Ends e t3 _ (cc)

layout_query-columns : select_names layout_query ≡ layout_columns
unfolding select_names layout_query snprintf
layout_query-columns = refl

-- If SQLite finds a row, `read_layout` answers 0, and each field that it
-- reads is the value of the column that its select list names for it, a text cut to its buffer.
pub read_layout-row :
    (e : Env) (row : Row) (db : Bytes) (s : Layout) (t : Trace)
    → Finds e
    → Serves e (select_names layout_query) row
    → Ends
        (λ (r, s') _. (r ≡ pos 0) × (s' ≡ some (layout_of row s)))
        (read_layout (some db) (some s) e t)
unfolding read_layout
read_layout-row e row db s t finds w =
    (run_query-found e finds db layout_query false _ _ _ t λ stmt u live.
      bind _ _ (layout_row-served stmt s u (rw (layout_query-columns) at w) live)
        λ s' v p. pure-Ends e v _ (refl, cc))

pub read_layout-unchanged :
    (e : Env) (db : Bytes) (s : Layout) (t : Trace)
    → Ends
        (λ (r, s') _. (r ≡ pos 0) ⊎ (r ≡ minus_one) × (s' ≡ some s))
        (read_layout (some db) (some s) e t)
unfolding read_layout
read_layout-unchanged e db s t =
    mono
      (run_query_one-either e db layout_query false _ _ t
        λ stmt u. bind _ _ ((layout_row-Reads stmt s).returns e u) λ s' v _. pure-Ends e v _ refl)
      λ (r, s') u o. elim o [
        | inl fine ↦ inl fine
        | inr same ↦ inr (ap (λ p. p.0) same, ap (λ p. p.1) same)
      ]
