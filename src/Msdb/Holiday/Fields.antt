-- ===== src/Msdb/Holiday/Fields.antt =====
-- The fields of struct holiday are filled from the columns of their names.
use build_project.Prelude.{ℕ, false, List, [], ◌∷◌, Bytes, codes, ◌≡◌, refl, ◌==◌}
use build_project.Sys.{Trace, Env}
use build_project.Sys.Ends.{Ends, bind, pure-Ends}
use build_project.Msdb.Select.{Row, Serves, stored, int_column-served, text_column-served}
use build_project.Msdb.Holiday.{holiday_row, Holiday}

-- The row as a struct that held `s` before.
abbrev pub holiday_of : Row → Holiday → Holiday
holiday_of row s = record s {
  id = row.ints (codes "id");
  enable = row.ints (codes "enable");
  name = stored 256 s.name (row.texts (codes "name"));
  type = row.ints (codes "type");
  start_year = row.ints (codes "start_year");
  start_mon = row.ints (codes "start_mon");
  start_mday = row.ints (codes "start_mday");
  start_mweek = row.ints (codes "start_mweek");
  start_wday = row.ints (codes "start_wday");
  end_year = row.ints (codes "end_year");
  end_mon = row.ints (codes "end_mon");
  end_mday = row.ints (codes "end_mday");
  end_mweek = row.ints (codes "end_mweek");
  end_wday = row.ints (codes "end_wday");
}

abbrev holiday_columns : List Bytes
holiday_columns =
    codes "id"
    ∷ codes "enable"
    ∷ codes "name"
    ∷ codes "type"
    ∷ codes "start_year"
    ∷ codes "start_mon"
    ∷ codes "start_mday"
    ∷ codes "start_mweek"
    ∷ codes "start_wday"
    ∷ codes "end_year"
    ∷ codes "end_mon"
    ∷ codes "end_mday"
    ∷ codes "end_mweek"
    ∷ codes "end_wday"
    ∷ []

holiday_row-served :
    {e : Env} {row : Row} (stmt : ℕ) (s : Holiday) (t : Trace)
    → Serves e holiday_columns row
    → (stmt == 0) ≡ false
    → Ends (λ s' _. s' ≡ holiday_of row s) (holiday_row stmt s e t)
unfolding holiday_row
holiday_row-served {e} stmt s t w l = bind _ _ (int_column-served w stmt l 0 s.id t) λ c0 t0 p0.
    bind _ _ (int_column-served w stmt l 1 s.enable t0) λ c1 t1 p1.
      bind _ _ (text_column-served w stmt l 2 s.name 256 t1 refl) λ c2 t2 p2.
        bind _ _ (int_column-served w stmt l 3 s.type t2) λ c3 t3 p3.
          bind _ _ (int_column-served w stmt l 4 s.start_year t3) λ c4 t4 p4.
            bind _ _ (int_column-served w stmt l 5 s.start_mon t4) λ c5 t5 p5.
              bind _ _ (int_column-served w stmt l 6 s.start_mday t5) λ c6 t6 p6.
                bind _ _ (int_column-served w stmt l 7 s.start_mweek t6) λ c7 t7 p7.
                  bind _ _ (int_column-served w stmt l 8 s.start_wday t7) λ c8 t8 p8.
                    bind _ _ (int_column-served w stmt l 9 s.end_year t8) λ c9 t9 p9.
                      bind _ _ (int_column-served w stmt l 10 s.end_mon t9) λ c10 t10 p10.
                        bind _ _ (int_column-served w stmt l 11 s.end_mday t10) λ c11 t11 p11.
                          bind _ _ (int_column-served w stmt l 12 s.end_mweek t11) λ c12 t12 p12.
                            bind _ _ (int_column-served w stmt l 13 s.end_wday t12)
                              λ c13 t13 p13. pure-Ends e t13 _ (cc)
