-- ===== src/Msdb/Layout.antt =====
-- The screen layout: struct layout and its functions in libs/msdb/msdb.c.
pub mod Fields
pub mod Held
use build_project.Prelude.{
  ℕ, ◌+◌, ℤ, pos, minus_one, is_negative, is_zero, Bool, true, false, Option, none, some, List, [],
  ◌∷◌, ◌++◌, Bytes, codes, fmt_d, snprintf, ◌==◌, if◌then◌else◌,
}
use build_project.Sys.{M, pure, ◌>>=◌, ◌>>◌}
use build_project.Ccsqlite.{sqlite_conn}
use build_project.Msdb.{
  file_lock, file_lock_name, write_mode, file_unlock, run_query, run_update, execute, i32,
  int_column, uint_column, double_column, text_column, rows_loop,
}

pub record Layout : Type 0 where
  pub main_output : ℤ
  pub sub_output : ℤ
  pub main_layout_mode : ℤ
  pub sub_layout_mode : ℤ

-- The columns of a row into a struct that holds `s`.
unfoldable pub layout_row : ℕ → Layout → M Layout
layout_row stmt s = do
  main_output ← int_column stmt (pos 0) s.main_output
  sub_output ← int_column stmt (pos 1) s.sub_output
  main_layout_mode ← int_column stmt (pos 2) s.main_layout_mode
  sub_layout_mode ← int_column stmt (pos 3) s.sub_layout_mode
  pure (record {
    main_output = main_output;
    sub_output = sub_output;
    main_layout_mode = main_layout_mode;
    sub_layout_mode = sub_layout_mode;
  })

unfoldable pub layout_query : Bytes
layout_query =
    snprintf 512
      (codes "select main_output, sub_output, main_layout_mode, sub_layout_mode from layout;")

unfoldable pub read_layout : Option Bytes → Option Layout → M (ℤ × Option Layout)
unfolding layout_row
read_layout (some db) (some s) =
    run_query db layout_query false (λ stmt. do s' ← layout_row stmt s; pure (pos 0, some s'))
      (minus_one, some s) (minus_one, some s)
read_layout db s = pure (minus_one, s)

unfoldable pub layout_update : Layout → Bytes
layout_update s = snprintf 512 (
    codes "update layout set main_output="
    ++ (fmt_d s.main_output
        ++ (codes ", sub_output="
            ++ (fmt_d s.sub_output
                ++ (codes ", main_layout_mode="
                    ++ (fmt_d s.main_layout_mode
                        ++ (codes ", sub_layout_mode="
                            ++ (fmt_d s.sub_layout_mode ++ codes ";"))))))))

unfoldable pub write_layout : ℕ → Option Bytes → Option Layout → M ℤ
write_layout fuel (some db) (some s) = run_update db (execute fuel (layout_update s))
write_layout fuel db s = pure minus_one
