-- ===== src/Tests/Outcomes.antt =====
-- The theorems of Msdb/Outcomes at concrete inputs.
use build_project.Sys.Ends.{Ends}
