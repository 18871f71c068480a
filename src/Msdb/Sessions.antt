-- ===== src/Msdb/Sessions.antt =====
-- What a session of libs/msdb/msdb.c leaves behind, for the children, which go through its functions.
pub mod Video
pub mod Alarm
pub mod Network
use build_project.Sys.{Trace, Env, M}
use build_project.Sys.Ends.{Ends, Safe}
use build_project.Sys.Monitor.{held, GivenBack}
use build_project.Prelude.{ℕ, List, ◌≡◌, false}

-- The run returns, and nothing is held, but for the connection of an open that fails.
abbrev pub ReturnsIdle : {A : Type 0} → Env → List ℕ → Trace → M A → Type 0
ReturnsIdle e lost t m = Ends (λ _ t'. GivenBack lost (held e t')) (m e t)

-- The run returns, and nothing is held but for that connection, or it goes on trying, and made no call
-- out of order.
abbrev pub SettlesIdle : {A : Type 0} → Env → List ℕ → Trace → M A → Type 0
SettlesIdle e lost t m =
    Safe (λ _ t'. GivenBack lost (held e t')) (λ t'. (held e t').bad ≡ false) (m e t)
