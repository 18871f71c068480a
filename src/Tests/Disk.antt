-- ===== src/Tests/Disk.antt =====
-- The theorem on insert_disk at a concrete input.
use build_project.Prelude.{pos, minus_one, false, some, [], ◌==◌, ◌≡◌}
use build_project.Sys.Ends.{Ends}
use build_project.Sys.Monitor.{held}
use build_project.Msdb.Disk.{insert_disk}
use build_project.Msdb.Disk.Leak.{insert_disk-leaks}
use build_project.Tests.Systems.{working, working-Works, start-IsIdle}
use build_project.Tests.Samples.{db_path, disk_sample}

insert_disk-leaks_example :
    Ends
      (λ r t'.
        (r ≡ pos 0)
        × (((held working t').conn == 0) ≡ false)
        × ((held working t').fd ≡ minus_one)
        × ((held working t').rwlock ≡ false)
        × ((held working t').flock ≡ false)
        × ((held working t').bad ≡ false))
      (insert_disk 5 (some db_path) (some disk_sample) working [])
insert_disk-leaks_example =
    insert_disk-leaks working 4 db_path disk_sample [] [] working-Works start-IsIdle
