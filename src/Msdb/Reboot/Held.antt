-- ===== src/Msdb/Reboot/Held.antt =====
-- The functions on struct reboot_conf give back all that they acquire.
use build_project.Prelude.{ℕ, true, Option, none, some, Bytes}
use build_project.Msdb.Held.{
  Reads, Reads-bind, Reads-pure, int_column-Reads, uint_column-Reads, double_column-Reads,
  text_column-Reads, execute-Writes, Balanced, Balanced-pure, Settles, Settles-of_Balanced,
  run_query-Balanced, run_update-Settles,
}
use build_project.Msdb.Reboot.{
  write_autoreboot_conf, read_autoreboot_conf, autoreboot_conf_update, autoreboot_conf_query,
  reboot_row, Reboot,
}

pub reboot_row-Reads : (stmt : ℕ) (s : Reboot) → Reads stmt (reboot_row stmt s)
unfolding reboot_row
reboot_row-Reads stmt s =
    search
      (
        Reads-bind, Reads-pure, int_column-Reads, uint_column-Reads, double_column-Reads,
        text_column-Reads,
      )
      depth 45

pub write_autoreboot_conf-Settles :
    (fuel : ℕ) (db : Option Bytes) (s : Option Reboot) → Settles (write_autoreboot_conf fuel db s)
unfolding write_autoreboot_conf
write_autoreboot_conf-Settles fuel none s = Settles-of_Balanced (Balanced-pure _)
write_autoreboot_conf-Settles fuel (some db) none = Settles-of_Balanced (Balanced-pure _)
write_autoreboot_conf-Settles fuel (some db) (some s) =
    run_update-Settles db _ (execute-Writes fuel (autoreboot_conf_update s))

pub read_autoreboot_conf-Balanced :
    (db : Option Bytes) (s : Option Reboot) → Balanced (read_autoreboot_conf db s)
unfolding read_autoreboot_conf
read_autoreboot_conf-Balanced none s = Balanced-pure _
read_autoreboot_conf-Balanced (some db) none = Balanced-pure _
read_autoreboot_conf-Balanced (some db) (some s) =
    run_query-Balanced db autoreboot_conf_query true _ _ _
      λ stmt. Reads-bind (reboot_row-Reads stmt s) λ s'. Reads-pure _
