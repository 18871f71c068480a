-- ===== src/Tests/Systems.antt =====
-- Systems to run the program on: what the calls answer does not depend on the history.
use build_project.Prelude.{
  arith, ℕ, refl, ℤ, pos, Bytes, codes, Option, none, some, List, [], ◌∷◌, get_or,
}
use build_project.Sys.{
  Call, Trace, Env, open_file, sqlite3_step, sqlite3_exec, sqlite3_column_count, sqlite3_column_int,
  sqlite3_column_double, sqlite3_column_text,
}
use build_project.Sys.Monitor.{held, IsDocumented, IsIdle}
use build_project.Ccsqlite.{sqlite_row, is_locked}
use build_project.Ccsqlite.Execute.{NeverLocked, AlwaysLocked}
use build_project.Msdb.Select.{Row, Serves}
use build_project.Msdb.Served.{Finds}
use build_project.Msdb.Course.{Works}
use build_project.Msdb.Written.{Refuses}

-- `columns` and `row`: what a statement finds; `code` and `msg`: what executing a statement answers.
module _ (columns : List Bytes) (row : Row) (code : ℤ) (msg : Option Bytes) where
  abbrev int_answer : Call → ℤ
  int_answer (open_file path) = pos 3
  int_answer (sqlite3_step stmt) = sqlite_row
  int_answer (sqlite3_exec h sql) = code
  int_answer (sqlite3_column_count stmt) = pos 1
  int_answer (sqlite3_column_int stmt (pos i)) = row.ints (get_or columns i [])
  int_answer c = pos 0

  abbrev out_answer : Call → ℕ
  out_answer (sqlite3_column_double stmt (pos i)) = row.doubles (get_or columns i [])
  out_answer c = 1

  abbrev text_answer : Call → Option Bytes
  text_answer (sqlite3_exec h sql) = msg
  text_answer (sqlite3_column_text stmt (pos i)) = row.texts (get_or columns i [])
  text_answer c = none

  abbrev ret_of : Trace → ℤ
  ret_of [] = pos 0
  ret_of (c ∷ t) = int_answer c

  abbrev out_of : Trace → ℕ
  out_of [] = 0
  out_of (c ∷ t) = out_answer c

  abbrev text_of : Trace → Option Bytes
  text_of [] = none
  text_of (c ∷ t) = text_answer c

  abbrev pub system : Env
  system = record { ret = ret_of; out = out_of; text = text_of; fmt_f = λ d. codes "0.500000" }

-- Every int is 7, every double 1, every text "it's".
abbrev pub sample_row : Row
sample_row = record {
  ints = λ name. pos 7;
  doubles = λ name. 1;
  texts = λ name. some (codes "it's");
}

-- Nothing fails; every statement is refused; the database is locked.
abbrev pub working : Env
working = system [] sample_row (pos 0) none

abbrev pub refusing : Env
refusing = system [] sample_row (pos 1) none

abbrev pub locked : Env
locked = system [] sample_row (pos 5) (some (codes "database is locked"))

pub working-IsDocumented : IsDocumented working
working-IsDocumented = record {
  open_range = λ path t negative. absurd (ground arith);
  prepare_null = λ h sql t failed. absurd (ground arith);
  close_ok = λ h t conn stmt. refl;
}

pub start-IsIdle : IsIdle [] (held working [])
unfolding held
start-IsIdle = ground arith

pub working-Works : Works working
working-Works = record {
  locks = λ path t. refl;
  opens = λ db t. refl;
  connects = λ db t. refl;
  executes = λ h sql t. refl;
  closes = λ h t. refl;
}

pub refusing-Refuses : Refuses refusing
unfolding is_locked
refusing-Refuses = record {
  opens = λ db t. refl;
  connects = λ db t. refl;
  fails = λ h sql t. refl;
  unlocked = λ h sql t. refl;
}

pub refusing-NeverLocked : NeverLocked refusing
unfolding is_locked
refusing-NeverLocked h sql t failed = refl

pub locked-AlwaysLocked : AlwaysLocked locked
unfolding is_locked
locked-AlwaysLocked h sql t = (refl, refl)

module _ (columns : List Bytes) where
  abbrev pub serving : Env
  serving = system columns sample_row (pos 0) none

  pub serving-Finds : Finds serving
  serving-Finds = record {
    opens = λ db t. refl;
    connects = λ db t. refl;
    prepares = λ h sql t. refl;
    states = λ h sql t. refl;
    steps = λ stmt t. refl;
    counts = λ stmt t. refl;
  }

  pub serving-Serves : Serves serving columns sample_row
  serving-Serves = record {
    int_at = λ stmt i t. refl;
    double_at = λ stmt i t. refl;
    text_at = λ stmt i t. refl;
  }
