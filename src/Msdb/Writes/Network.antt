-- ===== src/Msdb/Writes/Network.antt =====
-- What the writers of this group do and answer.
use build_project.Prelude.{ℕ, suc, pos, Bytes, some, ◌≡◌, ◌≤◌}
use build_project.Sys.{Trace, Env, done}
use build_project.Ccsqlite.{sqlite_opt_cnt}
use build_project.Ccsqlite.Execute.{NeverLocked}
use build_project.Msdb.Course.{Works, update_course, run_update-course}
use build_project.Msdb.Written.{Answers, run_update_one-Answers}
use build_project.Msdb.Upnp.{Upnp, write_upnp, upnp_update}
use build_project.Msdb.Pppoe.{Pppoe, write_pppoe, pppoe_update}
use build_project.Msdb.Ddns.{Ddns, write_ddns, ddns_update}
use build_project.Msdb.Time.{Time, write_time, time_update}
use build_project.Msdb.Disk.{Disk, write_disk, disk_update}
use build_project.Msdb.Storage.{Storage, write_storage, storage_update}
use build_project.Msdb.Reboot.{Reboot, write_autoreboot_conf, autoreboot_conf_update}

-- On a system where nothing fails, each of these writers answers 0 after exactly these calls: the file
-- lock and the write lock, the connection, its statement once, and all of it given back.
pub network_writes-course :
    (e : Env) (t : Trace) (db : Bytes) (fuel : ℕ) (upnp : Upnp) (pppoe : Pppoe) (ddns : Ddns)
    (time : Time) (disk : Disk) (storage : Storage) (reboot : Reboot)
    → Works e
    → (write_upnp (suc fuel) (some db) (some upnp) e t
        ≡ done (pos 0) (update_course e db (upnp_update upnp) t))
      × (write_pppoe (suc fuel) (some db) (some pppoe) e t
          ≡ done (pos 0) (update_course e db (pppoe_update pppoe) t))
      × (write_ddns (suc fuel) (some db) (some ddns) e t
          ≡ done (pos 0) (update_course e db (ddns_update ddns) t))
      × (write_time (suc fuel) (some db) (some time) e t
          ≡ done (pos 0) (update_course e db (time_update time) t))
      × (write_disk (suc fuel) (some db) (some disk) e t
          ≡ done (pos 0) (update_course e db (disk_update disk) t))
      × (write_storage (suc fuel) (some db) (some storage) e t
          ≡ done (pos 0) (update_course e db (storage_update storage) t))
      × (write_autoreboot_conf (suc fuel) (some db) (some reboot) e t
          ≡ done (pos 0) (update_course e db (autoreboot_conf_update reboot) t))
unfolding write_upnp write_pppoe write_ddns write_time write_disk write_storage
    write_autoreboot_conf
network_writes-course e t db fuel upnp pppoe ddns time disk storage reboot works = (
  run_update-course e works fuel db (upnp_update upnp) t,
  run_update-course e works fuel db (pppoe_update pppoe) t,
  run_update-course e works fuel db (ddns_update ddns) t,
  run_update-course e works fuel db (time_update time) t,
  run_update-course e works fuel db (disk_update disk) t,
  run_update-course e works fuel db (storage_update storage) t,
  run_update-course e works fuel db (autoreboot_conf_update reboot) t,
)

-- Unless SQLite reports a lock, each of these writers returns with fuel for 200 tries: -1 if its open of
-- the database failed, with no statement tried; and 0 if it did not, behind at least one try of its
-- statement, unless the handle is NULL, and at most 200 tries.
pub network_writes-Answers :
    (e : Env) (t : Trace) (db : Bytes) (fuel : ℕ) (upnp : Upnp) (pppoe : Pppoe) (ddns : Ddns)
    (time : Time) (disk : Disk) (storage : Storage) (reboot : Reboot)
    → NeverLocked e
    → sqlite_opt_cnt ≤ fuel
    → Answers e t (write_upnp fuel (some db) (some upnp))
      × Answers e t (write_pppoe fuel (some db) (some pppoe))
      × Answers e t (write_ddns fuel (some db) (some ddns))
      × Answers e t (write_time fuel (some db) (some time))
      × Answers e t (write_disk fuel (some db) (some disk))
      × Answers e t (write_storage fuel (some db) (some storage))
      × Answers e t (write_autoreboot_conf fuel (some db) (some reboot))
unfolding write_upnp write_pppoe write_ddns write_time write_disk write_storage
    write_autoreboot_conf
network_writes-Answers e t db fuel upnp pppoe ddns time disk storage reboot free enough = (
  run_update_one-Answers e fuel db (upnp_update upnp) t free enough,
  run_update_one-Answers e fuel db (pppoe_update pppoe) t free enough,
  run_update_one-Answers e fuel db (ddns_update ddns) t free enough,
  run_update_one-Answers e fuel db (time_update time) t free enough,
  run_update_one-Answers e fuel db (disk_update disk) t free enough,
  run_update_one-Answers e fuel db (storage_update storage) t free enough,
  run_update_one-Answers e fuel db (autoreboot_conf_update reboot) t free enough,
)
