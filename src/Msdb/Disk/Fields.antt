-- ===== src/Msdb/Disk/Fields.antt =====
-- The fields of struct diskInfo are filled from the columns of their names.
use build_project.Prelude.{
  ℕ, ℤ, pos, minus_one, true, false, some, List, [], ◌∷◌, Bytes, codes, snprintf, ◌≡◌, refl, ◌⊎◌,
  inl, inr, ◌==◌, ap,
}
use build_project.Sys.{Trace, Env}
use build_project.Sys.Ends.{Ends, bind, mono, pure-Ends}
use build_project.Msdb.Select.{
  Row, Serves, select_names, stored, int_column-served, text_column-served,
}
use build_project.Msdb.Served.{Finds, run_query-found, run_query_one-either}
use build_project.Msdb.Disk.{read_disk, disk_query, disk_row, Disk}
use build_project.Msdb.Disk.Held.{disk_row-Reads}

-- The row as a struct that held `s` before.
abbrev pub disk_of : Row → Disk → Disk
disk_of row s = record s {
  disk_port = row.ints (codes "disk_port");
  enable = row.ints (codes "enable");
  disk_vendor = stored 64 s.disk_vendor (row.texts (codes "disk_vendor"));
  disk_address = stored 64 s.disk_address (row.texts (codes "disk_address"));
  disk_directory = stored 128 s.disk_directory (row.texts (codes "disk_directory"));
  disk_type = row.ints (codes "disk_type");
  disk_group = row.ints (codes "disk_group");
  disk_property = row.ints (codes "disk_property");
  raid_level = row.ints (codes "raid_level");
}

abbrev disk_columns : List Bytes
disk_columns =
    codes "disk_port"
    ∷ codes "enable"
    ∷ codes "disk_vendor"
    ∷ codes "disk_address"
    ∷ codes "disk_directory"
    ∷ codes "disk_type"
    ∷ codes "disk_group"
    ∷ codes "disk_property"
    ∷ codes "raid_level"
    ∷ []

disk_row-served :
    {e : Env} {row : Row} (stmt : ℕ) (s : Disk) (t : Trace)
    → Serves e disk_columns row
    → (stmt == 0) ≡ false
    → Ends (λ s' _. s' ≡ disk_of row s) (disk_row stmt s e t)
unfolding disk_row
disk_row-served {e} stmt s t w l = bind _ _ (int_column-served w stmt l 0 s.disk_port t) λ c0 t0 p0.
    bind _ _ (int_column-served w stmt l 1 s.enable t0) λ c1 t1 p1.
      bind _ _ (text_column-served w stmt l 2 s.disk_vendor 64 t1 refl) λ c2 t2 p2.
        bind _ _ (text_column-served w stmt l 3 s.disk_address 64 t2 refl) λ c3 t3 p3.
          bind _ _ (text_column-served w stmt l 4 s.disk_directory 128 t3 refl) λ c4 t4 p4.
            bind _ _ (int_column-served w stmt l 5 s.disk_type t4) λ c5 t5 p5.
              bind _ _ (int_column-served w stmt l 6 s.disk_group t5) λ c6 t6 p6.
                bind _ _ (int_column-served w stmt l 7 s.disk_property t6) λ c7 t7 p7.
                  bind _ _ (int_column-served w stmt l 8 s.raid_level t7)
                    λ c8 t8 p8. pure-Ends e t8 _ (cc)

disk_query-columns : (port_id : ℤ) → select_names (disk_query port_id) ≡ disk_columns
unfolding select_names disk_query snprintf
disk_query-columns port_id = refl

-- If SQLite finds a row, `read_disk` answers 0, and each field that it
-- reads is the value of the column that its select list names for it, a text cut to its buffer.
pub read_disk-row :
    (e : Env) (row : Row) (db : Bytes) (s : Disk) (port_id : ℤ) (t : Trace)
    → Finds e
    → Serves e (select_names (disk_query port_id)) row
    → Ends
        (λ (r, s') _. (r ≡ pos 0) × (s' ≡ some (disk_of row s)))
        (read_disk (some db) (some s) port_id e t)
unfolding read_disk
read_disk-row e row db s port_id t finds w =
    (run_query-found e finds db (disk_query port_id) true _ _ _ t λ stmt u live.
      bind _ _ (disk_row-served stmt s u (rw (disk_query-columns port_id) at w) live)
        λ s' v p. pure-Ends e v _ (refl, cc))

pub read_disk-unchanged :
    (e : Env) (db : Bytes) (s : Disk) (port_id : ℤ) (t : Trace)
    → Ends
        (λ (r, s') _. (r ≡ pos 0) ⊎ (r ≡ minus_one) × (s' ≡ some s))
        (read_disk (some db) (some s) port_id e t)
unfolding read_disk
read_disk-unchanged e db s port_id t =
    mono
      (run_query_one-either e db (disk_query port_id) true _ _ t
        λ stmt u. bind _ _ ((disk_row-Reads stmt s).returns e u) λ s' v _. pure-Ends e v _ refl)
      λ (r, s') u o. elim o [
        | inl fine ↦ inl fine
        | inr same ↦ inr (ap (λ p. p.0) same, ap (λ p. p.1) same)
      ]
