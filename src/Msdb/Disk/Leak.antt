-- ===== src/Msdb/Disk/Leak.antt =====
-- insert_disk never gives its connection back.
use build_project.Prelude.{
  List, ℕ, suc, ℤ, pos, minus_one, is_negative, false, Bytes, some, ◌∷◌, ◌≡◌, refl, ◌==◌, arith,
}
use build_project.Sys.{
  Trace, Env, done, pure, ◌>>=◌, and_then, call, open_file, rwlock_wrlock, rwlock_unlock,
  lockf_lock, lockf_unlock, close_file, sqlite3_open, sqlite3_busy_handler, sqlite3_exec,
}
use build_project.Sys.Monitor.{held, IsIdle}
use build_project.Sys.Ends.{Ends, ends}
use build_project.Msdb.{file_lock_name, file_unlock}
use build_project.Msdb.Course.{Works, file_lock-course, sqlite_conn-course, execute-course}
use build_project.Msdb.Disk.{Disk, disk_insert, insert_disk}

-- The history after `insert_disk` from the history `t`.
abbrev leak_course : Env → Bytes → Bytes → Trace → Trace
leak_course e db sql t =
    let t₁ = open_file file_lock_name ∷ t in
    let fd = e.ret t₁ in
    let t₂ = sqlite3_open db ∷ lockf_lock fd ∷ rwlock_wrlock ∷ t₁ in
    let h = e.out t₂ in
    close_file fd
    ∷ lockf_unlock fd
    ∷ rwlock_unlock
    ∷ sqlite3_exec h sql
    ∷ sqlite3_busy_handler h
    ∷ t₂

unlock-course :
    (e : Env) (fd : ℤ) (t : Trace)
    → is_negative fd ≡ false
    → file_unlock fd e t ≡ done tt (close_file fd ∷ lockf_unlock fd ∷ rwlock_unlock ∷ t)
unfolding file_unlock pure ◌>>=◌ and_then call
unlock-course e fd t locked = rw locked refl

insert_disk-course :
    (e : Env) (works : Works e) (fuel : ℕ) (db : Bytes) (s : Disk) (t : Trace)
    → insert_disk (suc fuel) (some db) (some s) e t
      ≡ done (pos 0) (leak_course e db (disk_insert s) t)
unfolding insert_disk ◌>>=◌ and_then pure
insert_disk-course e works fuel db s t = rw (file_lock-course e works file_lock_name t) (
    rw (sqlite_conn-course e works db _) (
      rw (execute-course e works fuel (disk_insert s) _ _ (works.connects db _)) (
        rw (unlock-course e _ (sqlite3_exec _ (disk_insert s) ∷ _) (works.locks file_lock_name t))
          refl)))

leak_course-held :
    (e : Env) (works : Works e) (db sql : Bytes) (lost : List ℕ) (t : Trace)
    → IsIdle lost (held e t)
    → (((held e (leak_course e db sql t)).conn == 0) ≡ false)
      × ((held e (leak_course e db sql t)).fd ≡ minus_one)
      × ((held e (leak_course e db sql t)).rwlock ≡ false)
      × ((held e (leak_course e db sql t)).flock ≡ false)
      × ((held e (leak_course e db sql t)).bad ≡ false)
unfolding held
leak_course-held e works db sql lost t i = ground (
  arith,
  works.opens db (
      lockf_lock (e.ret (open_file file_lock_name ∷ t))
      ∷ rwlock_wrlock
      ∷ open_file file_lock_name
      ∷ t),
  works.connects db (
      lockf_lock (e.ret (open_file file_lock_name ∷ t))
      ∷ rwlock_wrlock
      ∷ open_file file_lock_name
      ∷ t),
  i.fd_closed,
  i.rwlock_free,
  i.flock_free,
  i.conn_closed,
  i.stmt_closed,
  i.in_order,
)

-- On a system where nothing fails, and with nothing held before, `insert_disk` returns 0 after it gave
-- back the file lock and both locks, but its connection is still open.
pub insert_disk-leaks :
    (e : Env) (fuel : ℕ) (db : Bytes) (s : Disk) (lost : List ℕ) (t : Trace)
    → Works e
    → IsIdle lost (held e t)
    → Ends
        (λ r t'.
          (r ≡ pos 0)
          × (((held e t').conn == 0) ≡ false)
          × ((held e t').fd ≡ minus_one)
          × ((held e t').rwlock ≡ false)
          × ((held e t').flock ≡ false)
          × ((held e t').bad ≡ false))
        (insert_disk (suc fuel) (some db) (some s) e t)
insert_disk-leaks e fuel db s lost t works i =
    let (open_conn, fd, rwlock, flock, order) =
      leak_course-held e works db (disk_insert s) lost t i in
    rw (insert_disk-course e works fuel db s t) (ends (refl, open_conn, fd, rwlock, flock, order))
