-- ===== src/Msdb/Storage/Fields.antt =====
-- The fields of struct storage are filled from the columns of their names.
use build_project.Prelude.{
  ℕ, ℤ, pos, minus_one, is_negative, true, false, some, List, [], ◌∷◌, Bytes, codes, snprintf, ◌≡◌,
  refl, ◌⊎◌, inl, inr, ◌==◌, ap, Bool-cases,
}
use build_project.Sys.{Trace, Env}
use build_project.Sys.Ends.{Ends, bind, mono, pure-Ends}
use build_project.Msdb.Select.{Row, Serves, select_names, int_column-served}
use build_project.Msdb.Served.{Finds, run_query-found, run_query_one-either}
use build_project.Msdb.Storage.{read_storage, storage_query, storage_row, Storage}
use build_project.Msdb.Storage.Held.{storage_row-Reads}

-- The row as a struct that held `s` before.
abbrev pub storage_of : Row → Storage → Storage
storage_of row s = record s {
  id = row.ints (codes "id");
  recycle_mode = row.ints (codes "recycle_mode");
}

abbrev storage_columns : List Bytes
storage_columns = codes "id" ∷ codes "recycle_mode" ∷ []

storage_row-served :
    {e : Env} {row : Row} (stmt : ℕ) (s : Storage) (t : Trace)
    → Serves e storage_columns row
    → (stmt == 0) ≡ false
    → Ends (λ s' _. s' ≡ storage_of row s) (storage_row stmt s e t)
unfolding storage_row
storage_row-served {e} stmt s t w l = bind _ _ (int_column-served w stmt l 0 s.id t) λ c0 t0 p0.
    bind _ _ (int_column-served w stmt l 1 s.recycle_mode t0) λ c1 t1 p1. pure-Ends e t1 _ (cc)

storage_query-columns : (port_id : ℤ) → select_names (storage_query port_id) ≡ storage_columns
unfolding select_names storage_query snprintf
storage_query-columns port_id = refl

-- If SQLite finds a row, `read_storage` for an id that is not negative answers 0, and each field that it
-- reads is the value of the column that its select list names for it, a text cut to its buffer.
pub read_storage-row :
    (e : Env) (row : Row) (db : Bytes) (s : Storage) (port_id : ℤ) (t : Trace)
    → is_negative port_id ≡ false
    → Finds e
    → Serves e (select_names (storage_query port_id)) row
    → Ends
        (λ (r, s') _. (r ≡ pos 0) × (s' ≡ some (storage_of row s)))
        (read_storage (some db) (some s) port_id e t)
unfolding read_storage
read_storage-row e row db s port_id t fine finds w = rw fine (
    run_query-found e finds db (storage_query port_id) true _ _ _ t λ stmt u live.
      bind _ _ (storage_row-served stmt s u (rw (storage_query-columns port_id) at w) live)
        λ s' v p. pure-Ends e v _ (refl, cc))

pub read_storage-unchanged :
    (e : Env) (db : Bytes) (s : Storage) (port_id : ℤ) (t : Trace)
    → Ends
        (λ (r, s') _. (r ≡ pos 0) ⊎ (r ≡ minus_one) × (s' ≡ some s))
        (read_storage (some db) (some s) port_id e t)
unfolding read_storage
read_storage-unchanged e db s port_id t = elim (Bool-cases (is_negative port_id)) [
  | inl neg ↦ rw neg (pure-Ends e t _ (inr (refl, refl)))
  | inr fine ↦ rw fine (
      mono
        (run_query_one-either e db (storage_query port_id) true _ _ t λ stmt u.
          bind _ _ ((storage_row-Reads stmt s).returns e u) λ s' v _. pure-Ends e v _ refl)
        λ (r, s') u o. elim o [
          | inl fine ↦ inl fine
          | inr same ↦ inr (ap (λ p. p.0) same, ap (λ p. p.1) same)
        ])
]
