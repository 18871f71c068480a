-- ===== src/Ccsqlite/Blob.antt =====
-- libs/msdb/ccsqlite.c: the functions on blobs.
pub mod Copy
use build_project.Prelude.{
  ℕ, zero, suc, ◌-◌, ℤ, pos, negsuc, minus_one, is_zero, is_negative, eq_ℤ, Bool, true, false, ◌||◌,
  Option, none, some, List, [], ◌∷◌, Bytes, codes, fmt_d, ◌++◌, take, ◌==◌, if◌then◌else◌,
}
use build_project.Sys.{
  M, pure, ◌>>=◌, ◌>>◌, call, call_ret, call_text, sqlite3_step, sqlite3_column_blob,
  sqlite3_column_bytes, sqlite3_bind_blob,
}
use build_project.Ccsqlite.{
  sqlite_opt_cnt, sqlite_done, invalid, Stepped, row, no_row, gave_up, prepare_loop, step_loop,
}

abbrev onto : ℕ → Option Bytes → Option Bytes
onto x none = none
onto x (some buffer) = some (x ∷ buffer)

-- What memcpy leaves in a buffer; `none` if it writes behind the end.
abbrev pub memcpy : Bytes → Bytes → Option Bytes
memcpy [] buffer = some buffer
memcpy (x ∷ blob) [] = none
memcpy (x ∷ blob) (y ∷ buffer) = onto x (memcpy blob buffer)

abbrev copy_line : ℤ → ℤ → Bytes
copy_line bytes size =
    codes "sqlite_query_column_blob failed.(bytes:"
    ++ (fmt_d bytes ++ (codes "==size:" ++ (fmt_d size ++ codes ")\n")))

-- `blob` and `bytes` are what the column has.
store_blob : ℤ → Bytes → Option Bytes → ℤ → M (ℤ × Option Bytes)
store_blob size buffer none bytes = invalid (copy_line bytes size) (pos 0, some buffer)
store_blob size buffer (some blob) (negsuc n) =
    invalid (copy_line (negsuc n) size) (pos 0, some buffer)
store_blob size buffer (some blob) (pos zero) =
    invalid (copy_line (pos 0) size) (pos 0, some buffer)
store_blob size buffer (some blob) (pos (suc n)) = pure (pos 0, memcpy (take (suc n) blob) buffer)

-- The result, and the memory of the buffer, which `memcpy` may write past.
unfoldable pub sqlite_query_column_blob : ℕ → ℤ → Bytes → ℤ → M (ℤ × Option Bytes)
unfolding store_blob
sqlite_query_column_blob stmt i buffer size =
    if stmt == 0 || is_negative i || (is_negative size || is_zero size)
    then invalid (codes "sql query data fail, param is invalid\n") (minus_one, some buffer)
    else do
      blob ← call_text (sqlite3_column_blob stmt i)
      bytes ← call_ret (sqlite3_column_bytes stmt i)
      store_blob size buffer blob bytes

-- A failed step counts as no row.
blob_stepped : Stepped → ℤ
blob_stepped row = pos 0
blob_stepped no_row = pos 1
blob_stepped (gave_up r) = pos 1

abbrev blob_line : Bytes
blob_line = codes "sql prepare blob, param is invalid\n"

-- The result and `*pStmt`, which is NULL on entry; `query` asks for the first row.
unfoldable pub sqlite_prepare_blob : ℕ → Option Bytes → Bool → M (ℤ × ℕ)
unfolding blob_stepped
sqlite_prepare_blob h none query = invalid blob_line (minus_one, 0)
sqlite_prepare_blob h (some sql) query = if h == 0 then invalid blob_line (minus_one, 0) else do
  (r, stmt) ← prepare_loop (codes "sql prepare blob fail,ret=") (sqlite_opt_cnt - 1) h sql
  if is_zero r
      then if query
        then (do
          s ← step_loop (codes "sql blob sqlite3_step fail,ret=") sql (sqlite_opt_cnt - 1) stmt
          pure (blob_stepped s, stmt))
        else pure (pos 0, stmt)
      else pure (minus_one, stmt)

abbrev exec_blob_line : Bytes
exec_blob_line = codes "sql exec blob error, invalid argument\n"

unfoldable pub sqlite_exec_blob : ℕ → ℤ → Option Bytes → ℤ → M ℤ
sqlite_exec_blob stmt col none size = invalid exec_blob_line minus_one
sqlite_exec_blob stmt col (some blob) size =
    if stmt == 0 then invalid exec_blob_line minus_one else do
      r ← call_ret (sqlite3_bind_blob stmt col blob size)
      if is_zero r
          then (do
            s ← call_ret (sqlite3_step stmt)
            if eq_ℤ s sqlite_done
                then pure (pos 0)
                else invalid (codes "sql exec blob error: step\n") minus_one)
          else invalid (codes "sql exec blob error: bind_blob\n") minus_one
