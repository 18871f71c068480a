-- ===== src/Msdb/Outcomes/Network.antt =====
-- What the readers of this group leave in the caller's struct or array.
use build_project.Sys.Ends.{Ends}
use build_project.Msdb.Upnp.{Upnp}
use build_project.Msdb.Pppoe.{Pppoe}
use build_project.Msdb.Ddns.{Ddns}
use build_project.Msdb.Time.{Time}
use build_project.Msdb.Disk.{Disk}
use build_project.Msdb.Storage.{Storage}
use build_project.Msdb.Reboot.{Reboot}
