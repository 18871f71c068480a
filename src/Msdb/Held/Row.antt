-- ===== src/Msdb/Held/Row.antt =====
-- The functions that read a row: they return, and keep everything as it is.
use build_project.Prelude.{
  ◌+◌, ℕ, zero, suc, ℤ, is_zero, Bool, List, Bytes, ◌≡◌, inl, inr, arith, Bool-cases,
}
use build_project.Sys.{Trace, Env, M, pure, and_then, ◌>>=◌, call, call_ret, call_out, call_text}
use build_project.Sys.Ends.{Ends, Ends-of, bind, pure-Ends}
use build_project.Sys.Monitor.{held, using}
use build_project.Ccsqlite.Held.{
  sqlite_query_next-held, sqlite_query_column-held, sqlite_query_column_double-held,
  sqlite_query_column_text-held,
}
use build_project.Ccsqlite.{
  sqlite_query_next, sqlite_query_column, sqlite_query_column_double, sqlite_query_column_text,
}
use build_project.Msdb.{
  Array, store, u32, uint_column, int_column, double_column, text_column, rows_loop,
}

-- A run that returns, and leaves everything as it is while the statement is live.
pub record Reads {A : Type 0} (stmt : ℕ) (m : M A) : Type 0 where
  pub keeps :
      (e : Env) (rw' : Bool) (fd : ℤ) (conn : ℕ) (lost : List ℕ) (t : Trace)
      → held e t ≡ using rw' fd conn stmt lost
      → Ends (λ _ t'. held e t' ≡ using rw' fd conn stmt lost) (m e t)
  pub returns : (e : Env) (t : Trace) → Ends (λ _ _. Unit {0}) (m e t)

pub Reads-pure : {A : Type 0} {stmt : ℕ} (a : A) → Reads stmt (pure a)
Reads-pure a = record {
  keeps = λ e rw' fd conn lost t s. pure-Ends e t a s;
  returns = λ e t. pure-Ends e t a tt;
}

module _ {A B : Type 0} {stmt : ℕ} where
  pub Reads-bind :
      {m : M A} {k : A → M B} → Reads stmt m → ((a : A) → Reads stmt (k a)) → Reads stmt (m >>= k)
  Reads-bind p q = record {
    keeps = λ e rw' fd conn lost t s.
        bind _ _ (p.keeps e rw' fd conn lost t s) λ a t₁ s₁. (q a).keeps e rw' fd conn lost t₁ s₁;
    returns = λ e t. bind _ _ (p.returns e t) λ a t₁ _. (q a).returns e t₁;
  }

-- The column functions and the step to the next row return.
module _ (e : Env) (stmt : ℕ) (i : ℤ) where
  int-returns : (old : ℤ) (t : Trace) → Ends (λ _ _. Unit {0}) (sqlite_query_column stmt i old e t)
  unfolding sqlite_query_column pure ◌>>=◌ and_then call call_ret
  int-returns old t = Ends-of _ (ground arith)

  double-returns :
      (old : ℕ) (t : Trace) → Ends (λ _ _. Unit {0}) (sqlite_query_column_double stmt i old e t)
  unfolding sqlite_query_column_double pure ◌>>=◌ and_then call call_out
  double-returns old t = Ends-of _ (ground arith)

  text-returns :
      (old : Bytes) (size : ℕ) (t : Trace)
      → Ends (λ _ _. Unit {0}) (sqlite_query_column_text stmt i old size e t)
  unfolding sqlite_query_column_text pure ◌>>=◌ and_then call call_text
  text-returns old size t = Ends-of _ (ground arith)

next-returns :
    (e : Env) (stmt : ℕ) (t : Trace) → Ends (λ _ _. Unit {0}) (sqlite_query_next stmt e t)
unfolding sqlite_query_next pure ◌>>=◌ and_then call call_ret
next-returns e stmt t = Ends-of _ (ground arith)

module _ (stmt : ℕ) (i : ℤ) where
  pub int_column-Reads : (old : ℤ) → Reads stmt (int_column stmt i old)
  unfolding int_column
  int_column-Reads old =
      Reads-bind
        (record {
          keeps = λ e rw' fd conn lost t s. sqlite_query_column-held e rw' fd conn stmt i old t s;
          returns = λ e t. int-returns e stmt i old t;
        })
        λ (_, v). Reads-pure v

  pub uint_column-Reads : (old : ℕ) → Reads stmt (uint_column stmt i old)
  unfolding uint_column
  uint_column-Reads old = Reads-bind (int_column-Reads _) λ v. Reads-pure (u32 v)

  pub double_column-Reads : (old : ℕ) → Reads stmt (double_column stmt i old)
  unfolding double_column
  double_column-Reads old =
      Reads-bind
        (record {
          keeps = λ e rw' fd conn lost t s.
              sqlite_query_column_double-held e rw' fd conn stmt i old t s;
          returns = λ e t. double-returns e stmt i old t;
        })
        λ (_, v). Reads-pure v

  pub text_column-Reads : (old : Bytes) (size : ℕ) → Reads stmt (text_column stmt i old size)
  unfolding text_column
  text_column-Reads old size =
      Reads-bind
        (record {
          keeps = λ e rw' fd conn lost t s.
              sqlite_query_column_text-held e rw' fd conn stmt i old size t s;
          returns = λ e t. text-returns e stmt i old size t;
        })
        λ (_, v). Reads-pure v

sqlite_query_next-Reads : (stmt : ℕ) → Reads stmt (sqlite_query_next stmt)
sqlite_query_next-Reads stmt = record {
  keeps = λ e rw' fd conn lost t s. sqlite_query_next-held e rw' fd conn stmt t s;
  returns = λ e t. next-returns e stmt t;
}

pub rows_loop-Reads :
    {A : Type 0} (stmt : ℕ) (row : A → M A)
    → ((a : A) → Reads stmt (row a))
    → (left i : ℕ) (cells : Array A) → Reads stmt (rows_loop stmt row left i cells)
unfolding rows_loop
rows_loop-Reads stmt row p zero i cells = Reads-pure _
rows_loop-Reads stmt row p (suc left) i cells = Reads-bind (p (cells i)) λ x.
    Reads-bind (sqlite_query_next-Reads stmt) λ r. elim (Bool-cases (is_zero r)) [
      | inl more ↦ rw more (rows_loop-Reads stmt row p left (i + 1) (store cells i x))
      | inr last ↦ rw last (Reads-pure _)
    ]
