-- ===== src/Msstd/Process.antt =====
-- libs/msstd/thread_ex.c: running a shell command, and pipes to one. What the system answers is a
-- parameter: of each round of a wait, of a fork, and of the calls that open a pipe. A descriptor is a
-- number, and a FILE is an Option of the number of its descriptor. fdopen, which the code does not test,
-- is taken to succeed. The child runs the shell, or ends.
pub mod Waits
pub mod Pipes
use build_project.Prelude.{
  ℕ, zero, suc, ◌+◌, ◌==◌, ℤ, pos, negsuc, minus_one, Bool, true, false, not, ◌&&◌, ◌||◌, Option,
  none, some, List, [], ◌∷◌, Bytes, if◌then◌else◌,
}

-- What a process left: `exited` is WIFEXITED and `code` WEXITSTATUS, `raw` the number as it is.
pub record Status : Type 0 where
  pub exited : Bool
  pub code : ℕ
  pub raw : ℤ

-- The answer of wait4 or waitpid: a status, -1 with EINTR, or -1 with another error.
pub data Wait : Type 0 where
  ended : Status → Wait
  interrupted : Wait
  failed : Wait

-- The answer of vfork in the parent.
pub data Fork : Type 0 where
  child : ℕ → Fork
  no_child : Fork

abbrev pub exit_code : Status → ℤ
exit_code s = if s.exited then pos s.code else minus_one

-- The loop around wait4 or waitpid; `waits` answers each round. `none` is still waiting.
unfoldable pub wait_child : ℕ → (Status → ℤ) → (ℕ → Wait) → Option ℤ
wait_child zero f waits = none
wait_child (suc n) f waits =
    let again = wait_child n f (λ k. waits (suc k)) in
    elim (waits 0) [ ended s ↦ some (f s) | interrupted ↦ again | failed ↦ some minus_one ]

unfoldable pub ms_system : ℕ → Option Bytes → Fork → (ℕ → Wait) → Option ℤ
ms_system fuel none fork waits = some minus_one
ms_system fuel (some cmd) no_child waits = some minus_one
ms_system fuel (some cmd) (child p) waits = wait_child fuel exit_code waits

unfoldable pub ms_vsystem : ℕ → Option Bytes → Fork → (ℕ → Wait) → Option ℤ
ms_vsystem fuel none fork waits = some minus_one
ms_vsystem fuel (some cmd) no_child waits = some minus_one
ms_vsystem fuel (some cmd) (child p) waits = wait_child fuel exit_code waits

-- The table `childpid`, 0 where a descriptor has no child, and the descriptors that are open.
pub record Table : Type 0 where
  pub childpid : Option (ℕ → ℕ)
  pub opened : List ℕ

abbrev pub close : ℕ → List ℕ → List ℕ
close fd [] = []
close fd (f ∷ fs) = if f == fd then fs else f ∷ close fd fs

-- What the calls of ms_vpopen answer: whether calloc has memory, the ends of the pipe, and the child.
pub record Calls : Type 0 where
  pub has_memory : Bool
  pub pipe : Option (ℕ × ℕ)
  pub fork : Fork

abbrev pub set_pid : (ℕ → ℕ) → ℕ → ℕ → ℕ → ℕ
set_pid t fd p q = if q == fd then p else t q

-- The end that the parent keeps, and the one that it closes.
abbrev pub kept : Bool → ℕ × ℕ → ℕ
kept reads ends = if reads then ends.0 else ends.1

abbrev pub given : Bool → ℕ × ℕ → ℕ
given reads ends = if reads then ends.1 else ends.0

abbrev pub start_child : Bool → (ℕ → ℕ) → ℕ × ℕ → Fork → List ℕ → Option ℕ × Table
start_child reads t ends no_child fds = (
  none,
  record { childpid = some t; opened = close ends.1 (close ends.0 (ends.0 ∷ ends.1 ∷ fds)) },
)
start_child reads t ends (child p) fds = (
  some (kept reads ends),
  record {
    childpid = some (set_pid t (kept reads ends) p);
    opened = close (given reads ends) (ends.0 ∷ ends.1 ∷ fds);
  },
)

abbrev pub open_pipe : Bool → (ℕ → ℕ) → Calls → List ℕ → Option ℕ × Table
open_pipe reads t calls fds = elim calls.pipe [
  | none ↦ (none, record { childpid = some t; opened = fds })
  | some ends ↦ start_child reads t ends calls.fork fds
]

-- `childpid`, with no child in a new one.
abbrev pub table_of : Table → Bool → Option (ℕ → ℕ)
table_of s has_memory = elim s.childpid [
  | none ↦ (if has_memory then some (λ q. 0) else none)
  | some t ↦ some t
]

-- The FILE, and the table.
unfoldable pub ms_vpopen : Table → Bytes → Calls → Option ℕ × Table
ms_vpopen s [] calls = (none, s)
ms_vpopen s (c ∷ d ∷ type) calls = (none, s)
ms_vpopen s (c ∷ []) calls =
    if not (c == b'r') && not (c == b'w') then (none, s) else elim (table_of s calls.has_memory) [
      | none ↦ (none, s)
      | some t ↦ open_pipe (c == b'r') t calls s.opened
    ]

abbrev pub raw_status : Status → ℤ
raw_status s = s.raw

abbrev pub waited : Table → Option ℤ → Option (ℤ × Table)
waited s none = none
waited s (some r) = some (r, s)

abbrev pub close_child : ℕ → (ℕ → Wait) → Table → (ℕ → ℕ) → ℕ → Option (ℤ × Table)
close_child fuel waits s t fd =
    if t fd == 0
    then some (minus_one, s)
    else waited (record { childpid = some (set_pid t fd 0); opened = close fd s.opened })
        (wait_child fuel raw_status waits)

-- `none` is still waiting.
unfoldable pub ms_vpclose : ℕ → (ℕ → Wait) → Table → Option ℕ → Option (ℤ × Table)
ms_vpclose fuel waits s none = some (minus_one, s)
ms_vpclose fuel waits s (some fd) = elim s.childpid [
  | none ↦ some (minus_one, s)
  | some t ↦ close_child fuel waits s t fd
]
