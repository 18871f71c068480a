-- ===== src/Msdb/Held.antt =====
-- Every course of msdb.c gives back what it acquired: the lock, the connection and the statement.
pub mod Row
pub use build_project.Msdb.Held.Row.{
  Reads, Reads-pure, Reads-bind, int_column-Reads, uint_column-Reads, double_column-Reads,
  text_column-Reads, rows_loop-Reads,
}
use build_project.Prelude.{
  ℕ, zero, suc, ℤ, pos, negsuc, minus_one, is_zero, is_negative, eq_ℤ, Bool, true, false, List, [],
  ◌∷◌, Option, none, some, Bytes, ◌≡◌, refl, ◌⊎◌, inl, inr, arith, Bool-cases, ◌||◌, not, ◌==◌,
}
use build_project.Sys.{
  float_format, Trace, Env, M, Run, pure, and_then, ◌>>=◌, ◌>>◌, call, call_ret, call_out,
  call_text, open_file,
}
use build_project.Sys.Ends.{
  Ends, Safe, Ends-of, Safe-of, Safe-Ends, bind, bind-Safe, mono-Safe, over, mono, pure-Ends,
}
use build_project.Sys.Monitor.{Held, held, idle, using, lose, IsDocumented, IsIdle, GivenBack}
use build_project.Ccsqlite.Held.{
  sqlite_conn-held, sqlite_disconn-held, sqlite_clear_stmt-held, sqlite_query_record-held,
  sqlite_query_next-held, sqlite_execute-held, sqlite_query_column-held,
  sqlite_query_column_double-held, sqlite_query_column_text-held,
}
use build_project.Ccsqlite.{
  sqlite_query_next, sqlite_query_column, sqlite_query_column_double, sqlite_query_column_text,
}
use build_project.Msdb.{
  Mode, file_lock, file_unlock, lock_failed, misses, clear_if_any, finish, queried, run_query,
  run_update, execute, u32, uint_column, int_column, double_column, text_column, rows_loop,
}

-- A descriptor as `FileLock` returns it.
abbrev IsFd : ℤ → Type 0
IsFd fd = is_negative fd ≡ true → fd ≡ minus_one

module _ (e : Env) (doc : IsDocumented e) {lost : List ℕ} where
  file_lock-held :
      (path : Option Bytes) (mode : Mode) (t : Trace)
      → held e t ≡ idle lost
      → Ends (λ fd t'. (held e t' ≡ using true fd 0 0 lost) × IsFd fd) (file_lock path mode e t)
  unfolding file_lock held pure ◌>>=◌ and_then call call_ret
  file_lock-held none mode t s = Ends-of _ (ground arith)
  file_lock-held (some path) mode t s = Ends-of _ (ground (arith, doc.open_range path t))

  file_unlock-held :
      (fd : ℤ) (t : Trace)
      → IsFd fd
      → held e t ≡ using true fd 0 0 lost
      → Ends (λ _ t'. held e t' ≡ idle lost) (file_unlock fd e t)
  unfolding file_unlock held pure ◌>>=◌ and_then call
  file_unlock-held fd t f s = Ends-of _ (ground arith)

  finish-held :
      {A : Type 0} (fd : ℤ) (conn : ℕ) (a : A) (t : Trace)
      → IsFd fd
      → held e t ≡ using true fd conn 0 lost
      → Ends (λ _ t'. held e t' ≡ idle lost) (finish fd conn a e t)
  unfolding finish
  finish-held fd conn a t f s =
      bind _ _ (sqlite_disconn-held e true fd doc conn t s)
        λ _ t₁ s₁. bind _ _ (file_unlock-held fd t₁ f s₁) λ _ t₂ s₂. pure-Ends e t₂ a s₂

  clear_if_any-held :
      (rw' : Bool) (fd : ℤ) (conn stmt : ℕ) (t : Trace)
      → held e t ≡ using rw' fd conn stmt lost
      → Ends (λ _ t'. held e t' ≡ using rw' fd conn 0 lost) (clear_if_any stmt e t)
  unfolding clear_if_any
  clear_if_any-held rw' fd conn stmt t s = elim (Bool-cases (stmt == 0)) [
    | inl null ↦ rw null (Ends-of _ (unfold pure in ground arith))
    | inr live ↦
        rw live
          (bind _ _ (sqlite_clear_stmt-held e rw' fd conn stmt t s) λ _ t₁ s₁. pure-Ends e t₁ tt s₁)
  ]

-- The same of statements that are executed on a connection.
pub record Writes {A : Type 0} (conn : ℕ) (m : M A) : Type 0 where
  pub keeps :
      (e : Env) (rw' : Bool) (fd : ℤ) (lost : List ℕ) (t : Trace)
      → held e t ≡ using rw' fd conn 0 lost
      → Safe
          (λ _ t'. held e t' ≡ using rw' fd conn 0 lost)
          (λ t'. held e t' ≡ using rw' fd conn 0 lost)
          (m e t)

-- From nothing held to nothing held, but for the connection of an open that fails, whatever the system
-- answers.
pub record Balanced {A : Type 0} (m : M A) : Type 0 where
  pub returns :
      (e : Env)
      → IsDocumented e
      → (lost : List ℕ) (t : Trace) → IsIdle lost (held e t)
      → Ends (λ _ t'. GivenBack lost (held e t')) (m e t)

-- The same of a run that may stay in the retry loop of `sqlite_execute`, in order so far.
pub record Settles {A : Type 0} (m : M A) : Type 0 where
  pub returns :
      (e : Env)
      → IsDocumented e
      → (lost : List ℕ) (t : Trace) → IsIdle lost (held e t)
      → Safe (λ _ t'. GivenBack lost (held e t')) (λ t'. (held e t').bad ≡ false) (m e t)

idle_of_IsIdle : (s : Held) (lost : List ℕ) → IsIdle lost s → s ≡ idle lost
idle_of_IsIdle s lost i = ground arith

IsIdle-of_idle : {s : Held} {lost : List ℕ} → s ≡ idle lost → IsIdle lost s
IsIdle-of_idle p = ground arith

-- Behind an open that failed with the handle `h`.
GivenBack-of_lose : {s : Held} (h : ℕ) (lost : List ℕ) → s ≡ idle (lose h lost) → GivenBack lost s
GivenBack-of_lose h lost p = elim (Bool-cases (h == 0)) [
  | inl null ↦ inl (IsIdle-of_idle (ground (arith, null)))
  | inr live ↦ inr (h, live, IsIdle-of_idle (ground (arith, live)))
]

module _ (e : Env) (doc : IsDocumented e) {lost : List ℕ} {A : Type 0} where
  queried-held :
      (fd : ℤ) (conn : ℕ) (sql : Bytes) (check : Bool) (rows : ℕ → M A) (failed : A) (t : Trace)
      → ((stmt : ℕ) → Reads stmt (rows stmt))
      → IsFd fd
      → held e t ≡ using true fd conn 0 lost
      → Ends (λ _ t'. held e t' ≡ idle lost) (queried fd conn sql check rows failed e t)
  unfolding queried
  queried-held fd conn sql check rows failed t p f s =
      bind _ _ (sqlite_query_record-held e true fd doc conn (some sql) t s) λ (r, stmt, cnt) t₁ s₁.
        elim (Bool-cases (misses check r cnt)) [
          | inl miss ↦ rw miss (
              bind _ _ (clear_if_any-held e doc true fd conn stmt t₁ s₁)
                λ _ t₂ s₂. finish-held e doc fd conn failed t₂ f s₂)
          | inr found ↦ rw found (
              bind _ _ ((p stmt).keeps e true fd conn lost t₁ s₁) λ a t₂ s₂.
                bind _ _ (sqlite_clear_stmt-held e true fd conn stmt t₂ s₂)
                  λ _ t₃ s₃. finish-held e doc fd conn a t₃ f s₃)
        ]

-- The session for both courses: lock, connect, and give back the lock if there is no connection.
pub run_query-Balanced :
    {A : Type 0} (db sql : Bytes) (check : Bool) (rows : ℕ → M A) (unopened failed : A)
    → ((stmt : ℕ) → Reads stmt (rows stmt))
    → Balanced (run_query db sql check rows unopened failed)
unfolding run_query
run_query-Balanced db sql check rows unopened failed p = record {
  returns = λ e doc lost t i.
      bind _ _ (file_lock-held e doc _ _ t (idle_of_IsIdle _ lost i)) λ fd t₁ (s₁, f).
        bind _ _ (sqlite_conn-held e true fd (some db) t₁ s₁) λ (r, conn) t₂ o. elim o [
          | inl (ok, s₂) ↦ rw ok (
              mono (queried-held e doc fd conn sql check rows failed t₂ p f s₂)
                λ _ u s. inl (IsIdle-of_idle s))
          | inr (bad, s₂) ↦ rw bad (
              bind _ _ (file_unlock-held e doc fd t₂ f s₂)
                λ _ t₃ s₃. pure-Ends e t₃ unopened (GivenBack-of_lose conn lost s₃))
        ];
}

updated-held :
    (e : Env)
    → IsDocumented e
    → (fd : ℤ) (conn : ℕ) (lost : List ℕ) (body : M (Unit {0})) (t : Trace) → Writes conn body
    → IsFd fd
    → held e t ≡ using true fd conn 0 lost
    → Safe
        (λ _ t'. GivenBack lost (held e t'))
        (λ t'. (held e t').bad ≡ false)
        ((body >> finish fd conn (pos 0)) e t)
updated-held e doc fd conn lost body t p f s =
    bind-Safe _ _ (mono-Safe (p.keeps e true fd lost t s) (λ _ u k. k) (λ u k. ground arith))
      λ _ t₁ s₁.
        Safe-Ends (mono (finish-held e doc fd conn (pos 0) t₁ f s₁) λ _ u k. inl (IsIdle-of_idle k))

pub run_update-Settles :
    (db : Bytes) (body : ℕ → M (Unit {0}))
    → ((conn : ℕ) → Writes conn (body conn))
    → Settles (run_update db body)
unfolding run_update
run_update-Settles db body p = record {
  returns = λ e doc lost t i.
      bind-Safe _ _ (Safe-Ends (file_lock-held e doc _ _ t (idle_of_IsIdle _ lost i)))
        λ fd t₁ (s₁, f).
          bind-Safe _ _ (Safe-Ends (sqlite_conn-held e true fd (some db) t₁ s₁)) λ (r, conn) t₂ o.
            elim o [
              | inl (ok, s₂) ↦ rw ok (updated-held e doc fd conn _ (body conn) t₂ (p conn) f s₂)
              | inr (bad, s₂) ↦ rw bad (
                  Safe-Ends (
                    bind _ _ (file_unlock-held e doc fd t₂ f s₂)
                      λ _ t₃ s₃. pure-Ends e t₃ minus_one (GivenBack-of_lose conn lost s₃)))
            ];
}

pub Writes-pure : {A : Type 0} {conn : ℕ} (a : A) → Writes conn (pure a)
Writes-pure a = record { keeps = λ e rw' fd lost t s. Safe-Ends (pure-Ends e t a s) }

pub Writes-bind :
    {A B : Type 0} {conn : ℕ} {m : M A} {k : A → M B}
    → Writes conn m
    → ((a : A) → Writes conn (k a))
    → Writes conn (m >>= k)
Writes-bind p q = record {
  keeps = λ e rw' fd lost t s.
      bind-Safe _ _ (p.keeps e rw' fd lost t s) λ a t₁ s₁. (q a).keeps e rw' fd lost t₁ s₁;
}

pub execute-Writes : (fuel : ℕ) (sql : Bytes) (conn : ℕ) → Writes conn (execute fuel sql conn)
unfolding execute
execute-Writes fuel sql conn =
    Writes-bind
      (record {
        keeps = λ e rw' fd lost t s. sqlite_execute-held e rw' fd fuel conn (some sql) t s;
      })
      λ _. Writes-pure tt

pub float_format-Writes : (conn : ℕ) → Writes conn float_format
unfolding float_format
float_format-Writes conn = record { keeps = λ e rw' fd lost t s. over s }

pub Balanced-pure : {A : Type 0} (a : A) → Balanced (pure a)
Balanced-pure a = record { returns = λ e doc lost t i. pure-Ends e t a (inl i) }

pub Settles-of_Balanced : {A : Type 0} {m : M A} → Balanced m → Settles m
Settles-of_Balanced p = record { returns = λ e doc lost t i. Safe-Ends (p.returns e doc lost t i) }
