-- ===== src/Tests/Ccsqlite.antt =====
-- The theorems of Ccsqlite at concrete inputs.
use build_project.Prelude.{◌∷◌, ◌+◌, ◌≤◌, pos, minus_one, codes, some, [], ◌≡◌, refl, ◌⊎◌, arith}
use build_project.Sys.{Env}
use build_project.Sys.Ends.{Ends, Safe}
use build_project.Ccsqlite.{sqlite_opt_cnt, sqlite_execute, sqlite_query_record}
use build_project.Ccsqlite.Blob.{sqlite_query_column_blob}
use build_project.Ccsqlite.Blob.Copy.{Copied, sqlite_query_column_blob_lem}
use build_project.Ccsqlite.Execute.{
  execs, failures, Executed, sqlite_execute_total, sqlite_execute_stuck,
}
use build_project.Ccsqlite.Query.{Outcome, sqlite_query_record-Outcome}
use build_project.Tests.Systems.{
  working, refusing, locked, refusing-NeverLocked, locked-AlwaysLocked,
}

sqlite_execute_total_example :
    Ends
      (λ r t'.
        (r ≡ pos 0)
          × Executed refusing 1 (codes "delete from disk;") t'
          × (execs t' ≤ execs [] + sqlite_opt_cnt)
        ⊎ (r ≡ minus_one)
          × (execs t' ≡ execs [] + sqlite_opt_cnt)
          × (failures refusing t' ≡ failures refusing [] + sqlite_opt_cnt))
      (sqlite_execute 200 1 (some (codes "delete from disk;")) refusing [])
sqlite_execute_total_example =
    sqlite_execute_total refusing 200 1 (codes "delete from disk;") [] refusing-NeverLocked
      (omega arith) refl

sqlite_execute_stuck_example :
    Safe
      (λ _ _. ⊥)
      (λ t'. execs t' ≡ execs [] + 1000)
      (sqlite_execute 1000 1 (some (codes "delete from disk;")) locked [])
sqlite_execute_stuck_example =
    sqlite_execute_stuck locked 1000 1 (codes "delete from disk;") [] locked-AlwaysLocked refl

sqlite_query_record-Outcome_example :
    Ends
      (λ (r, stmt, cnt) t'. Outcome working 1 (codes "select id from osd;") [] r stmt cnt t')
      (sqlite_query_record 1 (some (codes "select id from osd;")) working [])
sqlite_query_record-Outcome_example =
    sqlite_query_record-Outcome working 1 (codes "select id from osd;") [] refl

-- A column of four bytes, read into a buffer of two.
abbrev one_blob : Env
one_blob = record {
  ret = λ t. pos 4;
  out = λ t. 1;
  text = λ t. some (1 ∷ 2 ∷ 3 ∷ 4 ∷ []);
  fmt_f = λ d. [];
}

sqlite_query_column_blob_lem_example :
    Ends
      (λ (r, after) _. (r ≡ pos 0) × Copied (1 ∷ 2 ∷ 3 ∷ 4 ∷ []) (0 ∷ 0 ∷ []) after)
      (sqlite_query_column_blob 1 (pos 0) (0 ∷ 0 ∷ []) (pos 2) one_blob [])
sqlite_query_column_blob_lem_example =
    sqlite_query_column_blob_lem one_blob 1 (pos 0) (0 ∷ 0 ∷ []) 2 1 (2 ∷ 3 ∷ 4 ∷ []) [] refl refl
      refl refl refl
