-- ===== src/Ccsqlite/Blob/Copy.antt =====
-- The bounds of the copy that sqlite_query_column_blob makes.
use build_project.Prelude.{
  ℕ, zero, suc, ◌≤◌, ◌<◌, ℤ, pos, is_negative, false, Option, none, some, [], ◌∷◌, ◌++◌, Bytes,
  take_all, length, ◌==◌, ◌≡◌, refl, ap, ◌⊎◌, inl, inr, arith,
}
use build_project.Sys.{
  Trace, Env, done, pure, ◌>>=◌, and_then, call_ret, call_text, sqlite3_column_blob,
  sqlite3_column_bytes,
}
use build_project.Sys.Ends.{Ends, Ends-of}
use build_project.Ccsqlite.Blob.{memcpy, onto, store_blob, sqlite_query_column_blob}

-- The buffer behind its first `n` bytes.
abbrev pub drop : ℕ → Bytes → Bytes
drop zero s = s
drop (suc n) [] = []
drop (suc n) (x ∷ s) = drop n s

-- A copy that fits, and one that does not.
abbrev pub Copied : Bytes → Bytes → Option Bytes → Type 0
Copied blob buffer after =
    ((length blob ≤ length buffer) × (after ≡ some (blob ++ drop (length blob) buffer)))
    ⊎ ((length buffer < length blob) × (after ≡ none))

memcpy-Copied : (blob buffer : Bytes) → Copied blob buffer (memcpy blob buffer)
memcpy-Copied [] buffer = inl (omega arith, refl)
memcpy-Copied (x ∷ blob) [] = inr (omega arith, refl)
memcpy-Copied (x ∷ blob) (y ∷ buffer) = elim (memcpy-Copied blob buffer) [
  | inl (fits, same) ↦ inl (omega arith, ap (onto x) same)
  | inr (over, lost) ↦ inr (omega arith, ap (onto x) lost)
]

store_blob-memcpy :
    (e : Env) (size : ℤ) (buffer : Bytes) (x : ℕ) (blob : Bytes) (t : Trace)
    → store_blob size buffer (some (x ∷ blob)) (pos (length (x ∷ blob))) e t
      ≡ done (pos 0, memcpy (x ∷ blob) buffer) t
unfolding store_blob pure
store_blob-memcpy e size buffer x blob t =
    ap (λ d. done (pos 0, memcpy (x ∷ d) buffer) t) (take_all (length blob) blob (omega arith))

-- If the column has a blob of at least one byte and its length, `sqlite_query_column_blob` with valid
-- arguments returns 0. A blob that fits goes to the front of the buffer and leaves the rest; a longer
-- one is written behind the end of the buffer, even if `size` is the length of the buffer.
pub sqlite_query_column_blob_lem :
    (e : Env) (stmt : ℕ) (i : ℤ) (buffer : Bytes) (size : ℕ) (x : ℕ) (blob : Bytes) (t : Trace)
    → (stmt == 0) ≡ false
    → is_negative i ≡ false
    → (size == 0) ≡ false
    → e.text (sqlite3_column_blob stmt i ∷ t) ≡ some (x ∷ blob)
    → e.ret (sqlite3_column_bytes stmt i ∷ sqlite3_column_blob stmt i ∷ t) ≡ pos (length (x ∷ blob))
    → Ends
        (λ (r, after) _. (r ≡ pos 0) × Copied (x ∷ blob) buffer after)
        (sqlite_query_column_blob stmt i buffer (pos size) e t)
unfolding sqlite_query_column_blob ◌>>=◌ and_then call_ret call_text
sqlite_query_column_blob_lem e stmt i buffer size x blob t live index sized found bytes =
    rw (live, index, sized, found, bytes)
      (rw
        (store_blob-memcpy e (pos size) buffer x blob
          (sqlite3_column_bytes stmt i ∷ sqlite3_column_blob stmt i ∷ t))
        (Ends-of _ (refl, memcpy-Copied (x ∷ blob) buffer)))
