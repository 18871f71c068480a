-- ===== src/Msdb/Sessions/Network.antt =====
-- The sessions of the functions of libs/msdb/msdb.c on the tables of this group.
use build_project.Msdb.{Array}
use build_project.Prelude.{ℕ, ℤ, Option, List, Bytes}
use build_project.Sys.{Trace, Env}
use build_project.Sys.Monitor.{held, IsDocumented, IsIdle}
use build_project.Msdb.Sessions.{ReturnsIdle, SettlesIdle}
use build_project.Msdb.Upnp.{Upnp, read_upnp, write_upnp}
use build_project.Msdb.Upnp.Held.{read_upnp-Balanced, write_upnp-Settles}
use build_project.Msdb.Pppoe.{Pppoe, read_pppoe, write_pppoe}
use build_project.Msdb.Pppoe.Held.{read_pppoe-Balanced, write_pppoe-Settles}
use build_project.Msdb.Ddns.{Ddns, read_ddns, write_ddns}
use build_project.Msdb.Ddns.Held.{read_ddns-Balanced, write_ddns-Settles}
use build_project.Msdb.Time.{Time, read_time, write_time}
use build_project.Msdb.Time.Held.{read_time-Balanced, write_time-Settles}
use build_project.Msdb.Disk.{Disk, read_disks, read_disk, write_disk}
use build_project.Msdb.Disk.Held.{read_disks-Balanced, read_disk-Balanced, write_disk-Settles}
use build_project.Msdb.Storage.{Storage, read_storages, read_storage, write_storage}
use build_project.Msdb.Storage.Held.{
  read_storages-Balanced, read_storage-Balanced, write_storage-Settles,
}
use build_project.Msdb.Reboot.{Reboot, write_autoreboot_conf, read_autoreboot_conf}
use build_project.Msdb.Reboot.Held.{write_autoreboot_conf-Settles, read_autoreboot_conf-Balanced}

-- If the system keeps to what it documents and nothing is held, each of these readers returns with
-- nothing held: the lock file, both locks, the connection and the statement are given back, and no
-- call is out of order, on success and on every error, and for a NULL file name, struct or array too
-- (`count` is what pCount points to, which is taken to be valid);
-- but for the handle of a sqlite3_open that fails, which may be lost.
pub network_reads-IsIdle :
    (e : Env) (lost : List ℕ) (t : Trace) (db : Option Bytes) (id : ℤ) (count : ℕ)
    (upnp : Option Upnp) (pppoe : Option Pppoe) (ddns : Option Ddns) (time : Option Time)
    (disk : Option Disk) (disks : Option (Array Disk)) (storage : Option Storage)
    (storages : Option (Array Storage)) (reboot : Option Reboot)
    → IsDocumented e
    → IsIdle lost (held e t)
    → ReturnsIdle e lost t (read_upnp db upnp)
      × ReturnsIdle e lost t (read_pppoe db pppoe)
      × ReturnsIdle e lost t (read_ddns db ddns)
      × ReturnsIdle e lost t (read_time db time)
      × ReturnsIdle e lost t (read_disks db disks count)
      × ReturnsIdle e lost t (read_disk db disk id)
      × ReturnsIdle e lost t (read_storages db storages count)
      × ReturnsIdle e lost t (read_storage db storage id)
      × ReturnsIdle e lost t (read_autoreboot_conf db reboot)
network_reads-IsIdle e lost t db id count upnp pppoe ddns time disk disks storage storages reboot
      doc i =
    (
      (read_upnp-Balanced db upnp).returns e doc lost t i,
      (read_pppoe-Balanced db pppoe).returns e doc lost t i,
      (read_ddns-Balanced db ddns).returns e doc lost t i,
      (read_time-Balanced db time).returns e doc lost t i,
      (read_disks-Balanced db disks count).returns e doc lost t i,
      (read_disk-Balanced db disk id).returns e doc lost t i,
      (read_storages-Balanced db storages count).returns e doc lost t i,
      (read_storage-Balanced db storage id).returns e doc lost t i,
      (read_autoreboot_conf-Balanced db reboot).returns e doc lost t i,
    )

-- If the system keeps to what it documents and nothing is held, each of these writers gives back all
-- that it acquired if it returns, but for the handle of a sqlite3_open that fails, which may be lost;
-- and it has made no call out of order if it is still trying to execute its statement.
pub network_writes-IsIdle :
    (e : Env) (lost : List ℕ) (t : Trace) (db : Option Bytes) (fuel : ℕ) (upnp : Option Upnp)
    (pppoe : Option Pppoe) (ddns : Option Ddns) (time : Option Time) (disk : Option Disk)
    (storage : Option Storage) (reboot : Option Reboot)
    → IsDocumented e
    → IsIdle lost (held e t)
    → SettlesIdle e lost t (write_upnp fuel db upnp)
      × SettlesIdle e lost t (write_pppoe fuel db pppoe)
      × SettlesIdle e lost t (write_ddns fuel db ddns)
      × SettlesIdle e lost t (write_time fuel db time)
      × SettlesIdle e lost t (write_disk fuel db disk)
      × SettlesIdle e lost t (write_storage fuel db storage)
      × SettlesIdle e lost t (write_autoreboot_conf fuel db reboot)
network_writes-IsIdle e lost t db fuel upnp pppoe ddns time disk storage reboot doc i = (
  (write_upnp-Settles fuel db upnp).returns e doc lost t i,
  (write_pppoe-Settles fuel db pppoe).returns e doc lost t i,
  (write_ddns-Settles fuel db ddns).returns e doc lost t i,
  (write_time-Settles fuel db time).returns e doc lost t i,
  (write_disk-Settles fuel db disk).returns e doc lost t i,
  (write_storage-Settles fuel db storage).returns e doc lost t i,
  (write_autoreboot_conf-Settles fuel db reboot).returns e doc lost t i,
)
