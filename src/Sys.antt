-- ===== src/Sys.antt =====
-- The system below the library: every call that the code makes of the C library, of pthread and of
-- SQLite, as a value. A program run is a history of such calls. What the calls answer is the
-- parameter `Env`: a function of the history, so that any behaviour of the outside can be chosen.
pub mod Ends
pub mod Monitor
use build_project.Prelude.{ℕ, ℤ, Bytes, Option, List, [], ◌∷◌}

-- A call with its arguments. `vsprintf` has the size of its buffer, which it does not look at, and the
-- text that it writes.
pub data Call : Type 0 where
  open_file : Bytes → Call
  rwlock_rdlock rwlock_wrlock rwlock_unlock : Call
  lockf_lock lockf_unlock : ℤ → Call
  close_file : ℤ → Call
  system : Bytes → Call
  usleep : ℕ → Call
  vsprintf : ℕ → Bytes → Call
  mslogerr : Call
  sqlite3_open : Bytes → Call
  sqlite3_busy_handler : ℕ → Call
  sqlite3_close : ℕ → Call
  sqlite3_exec : ℕ → Bytes → Call
  sqlite3_free : Call
  sqlite3_prepare_v2 : ℕ → Bytes → Call
  sqlite3_step : ℕ → Call
  sqlite3_finalize : ℕ → Call
  sqlite3_column_count : ℕ → Call
  sqlite3_column_name : ℕ → ℤ → Call
  sqlite3_column_int : ℕ → ℤ → Call
  sqlite3_column_double : ℕ → ℤ → Call
  sqlite3_column_text : ℕ → ℤ → Call
  sqlite3_column_blob : ℕ → ℤ → Call
  sqlite3_column_bytes : ℕ → ℤ → Call
  sqlite3_bind_blob : ℕ → ℤ → Bytes → ℤ → Call

-- The calls made so far, the latest first.
abbrev pub Trace : Type 0
Trace = List Call

-- What the latest call of a history answers: an int, a pointer (or what is stored through an out
-- argument; 0 is NULL) or the bits of a double, and a text or blob (`none` is NULL). `fmt_f` is
-- `%f` of a double that is given by its bits.
pub record Env : Type 0 where
  pub ret : Trace → ℤ
  pub out : Trace → ℕ
  pub text : Trace → Option Bytes
  pub fmt_f : ℕ → Bytes

-- A run is over with a value, or still in a retry loop when the fuel is used up.
pub data Run (A : Type 0) : Type 0 where
  done : A → Trace → Run A
  running : Trace → Run A

abbrev pub M : Type 0 → Type 0
M A = Env → Trace → Run A

unfoldable pub pure : {A : Type 0} → A → M A
pure a e t = done a t

unfoldable pub and_then : {A B : Type 0} → Run A → (A → Trace → Run B) → Run B
and_then (done a t) k = k a t
and_then (running t) k = running t

infixl 5 ◌>>=◌ ◌>>◌
unfoldable pub ◌>>=◌ : {A B : Type 0} → M A → (A → M B) → M B
unfolding and_then
◌>>=◌ m k e t = and_then (m e t) (λ a. k a e)

abbrev pub ◌>>◌ : {B : Type 0} → M (Unit {0}) → M B → M B
m >> k = m >>= λ _. k

-- A call whose answer is dropped, and calls whose int, pointer or text is used.
unfoldable pub call : Call → M (Unit {0})
call c e t = done tt (c ∷ t)

unfoldable pub call_ret : Call → M ℤ
call_ret c e t = done (e.ret (c ∷ t)) (c ∷ t)

unfoldable pub call_out : Call → M ℕ
call_out c e t = done (e.out (c ∷ t)) (c ∷ t)

unfoldable pub call_ret_out : Call → M (ℤ × ℕ)
call_ret_out c e t = done (e.ret (c ∷ t), e.out (c ∷ t)) (c ∷ t)

unfoldable pub call_ret_text : Call → M (ℤ × Option Bytes)
call_ret_text c e t = done (e.ret (c ∷ t), e.text (c ∷ t)) (c ∷ t)

unfoldable pub call_text : Call → M (Option Bytes)
call_text c e t = done (e.text (c ∷ t)) (c ∷ t)

unfoldable pub float_format : M (ℕ → Bytes)
float_format e t = done e.fmt_f t

-- The run never got past a retry loop.
unfoldable pub still_running : {A : Type 0} → M A
still_running e t = running t
