-- ===== src/Msdb/Select.antt =====
-- An independent reading of the queries: the columns that a select statement names, and SQLite's
-- answers for a row of a table. The claims about the read functions rest on it.
use build_project.Prelude.{
  ℕ, ℤ, pos, Bool, false, ◌&&◌, Option, none, some, List, [], ◌∷◌, Bytes, snprintf, ◌≡◌, ◌==◌,
  if◌then◌else◌, arith, ap, get_or,
}
use build_project.Sys.{
  Trace, Env, pure, and_then, ◌>>=◌, call_ret, call_out, call_text, sqlite3_column_int,
  sqlite3_column_double, sqlite3_column_text,
}
use build_project.Sys.Ends.{Ends, Ends-of, bind, pure-Ends}
use build_project.Ccsqlite.{
  sqlite_query_column, sqlite_query_column_double, sqlite_query_column_text, store_text,
}
use build_project.Msdb.{u32, uint_column, int_column, double_column, text_column}

-- The names of a select list, without spaces, up to the word `from`. `word` is the name so far,
-- backwards, and `behind` says that a space was read.
put_rev : Bytes → Bytes → Bytes
put_rev [] s = s
put_rev (c ∷ w) s = put_rev w (c ∷ s)

is_from : Bytes → Bool
is_from (a ∷ b ∷ c ∷ d ∷ e ∷ s) =
    a == b'f' && (b == b'r' && (c == b'o' && (d == b'm' && e == b' ')))
is_from s = false

names : Bytes → Bytes → List Bytes
names word [] = put_rev word [] ∷ []
names word (c ∷ s) =
    let next = put_rev word [] ∷ names [] s in
    let space = if is_from s then put_rev word [] ∷ [] else names word s in
    let more = names (c ∷ word) s in if c == b',' then next else if c == b' ' then space else more

-- The names behind the word `select`.
unfoldable pub select_names : Bytes → List Bytes
unfolding put_rev is_from names
select_names (a ∷ b ∷ c ∷ d ∷ e ∷ f ∷ g ∷ s) = names [] s
select_names s = []

-- A row of a table: for each column's name its value as an int, a double and a text.
pub record Row : Type 0 where
  pub ints : Bytes → ℤ
  pub doubles : Bytes → ℕ
  pub texts : Bytes → Option Bytes

-- SQLite's answers when the current row of every statement is `row` and the result columns are those
-- named by `columns`, as the documentation of the column functions has it.
pub record Serves (e : Env) (columns : List Bytes) (row : Row) : Type 0 where
  pub int_at :
      (stmt i : ℕ) (t : Trace)
      → e.ret (sqlite3_column_int stmt (pos i) ∷ t) ≡ row.ints (get_or columns i [])
  pub double_at :
      (stmt i : ℕ) (t : Trace)
      → e.out (sqlite3_column_double stmt (pos i) ∷ t) ≡ row.doubles (get_or columns i [])
  pub text_at :
      (stmt i : ℕ) (t : Trace)
      → e.text (sqlite3_column_text stmt (pos i) ∷ t) ≡ row.texts (get_or columns i [])

-- A text column in a buffer of `size` bytes that holds `old`.
abbrev pub stored : ℕ → Bytes → Option Bytes → Bytes
stored size old none = old
stored size old (some s) = snprintf size s

module _ {e : Env} {columns : List Bytes} {row : Row} (served : Serves e columns row) (stmt : ℕ)
    (live : (stmt == 0) ≡ false) (i : ℕ) where
  pub int_column-served :
      (old : ℤ) (t : Trace)
      → Ends (λ v _. v ≡ row.ints (get_or columns i [])) (int_column stmt (pos i) old e t)
  unfolding int_column sqlite_query_column pure ◌>>=◌ and_then call_ret
  int_column-served old t = rw live (Ends-of _ (served.int_at stmt i t))

  pub uint_column-served :
      (old : ℕ) (t : Trace)
      → Ends (λ v _. v ≡ u32 (row.ints (get_or columns i []))) (uint_column stmt (pos i) old e t)
  unfolding uint_column
  uint_column-served old t = bind _ _ (int_column-served _ t) λ v u p. pure-Ends e u _ (ap u32 p)

  pub double_column-served :
      (old : ℕ) (t : Trace)
      → Ends (λ v _. v ≡ row.doubles (get_or columns i [])) (double_column stmt (pos i) old e t)
  unfolding double_column sqlite_query_column_double pure ◌>>=◌ and_then call_out
  double_column-served old t = rw live (Ends-of _ (served.double_at stmt i t))

  pub text_column-served :
      (old : Bytes) (size : ℕ) (t : Trace)
      → (size == 0) ≡ false
      → Ends
          (λ v _. v ≡ stored size old (row.texts (get_or columns i [])))
          (text_column stmt (pos i) old size e t)
  unfolding text_column sqlite_query_column_text store_text pure ◌>>=◌ and_then call_text
  text_column-served old size t room =
      rw (live, room) (Ends-of _ (ground (arith, served.text_at stmt i t)))
