-- ===== src/Msdb/Writes/Video.antt =====
-- What the writers of this group do and answer.
use build_project.Prelude.{ℕ, suc, pos, Bytes, some, ◌≡◌, ◌∙◌, ◌≤◌}
use build_project.Msdb.Osd.Written.{write_osd_one, insert_osd_one}
use build_project.Sys.{Trace, Env, done}
use build_project.Ccsqlite.{sqlite_opt_cnt}
use build_project.Ccsqlite.Execute.{NeverLocked}
use build_project.Msdb.Course.{Works, update_course, run_update-course}
use build_project.Msdb.Written.{
  Answers, run_update_one-Answers, Refuses, Refused, run_update-refused,
}
use build_project.Msdb.Osd.{Osd, write_osd, insert_osd, osd_update, osd_insert}
use build_project.Msdb.Record.{
  Record, write_record, insert_record, write_record_prev_post, record_update, record_insert,
  record_prev_post_update,
}
use build_project.Msdb.Layout.{Layout, write_layout, layout_update}

-- On a system where nothing fails, each of these writers answers 0 after exactly these calls: the file
-- lock and the write lock, the connection, its statement once, and all of it given back.
pub video_writes-course :
    (e : Env) (t : Trace) (db : Bytes) (fuel : ℕ) (osd : Osd) (rec : Record) (layout : Layout)
    → Works e
    → (write_osd (suc fuel) (some db) (some osd) e t
        ≡ done (pos 0) (update_course e db (osd_update e.fmt_f osd) t))
      × (insert_osd (suc fuel) (some db) (some osd) e t
          ≡ done (pos 0) (update_course e db (osd_insert e.fmt_f osd) t))
      × (write_record (suc fuel) (some db) (some rec) e t
          ≡ done (pos 0) (update_course e db (record_update rec) t))
      × (insert_record (suc fuel) (some db) (some rec) e t
          ≡ done (pos 0) (update_course e db (record_insert rec) t))
      × (write_record_prev_post (suc fuel) (some db) (some rec) e t
          ≡ done (pos 0) (update_course e db (record_prev_post_update rec) t))
      × (write_layout (suc fuel) (some db) (some layout) e t
          ≡ done (pos 0) (update_course e db (layout_update layout) t))
unfolding write_record insert_record write_record_prev_post write_layout
video_writes-course e t db fuel osd rec layout works = (
  write_osd_one e (suc fuel) db osd t
      ∙ run_update-course e works fuel db (osd_update e.fmt_f osd) t,
  insert_osd_one e (suc fuel) db osd t
      ∙ run_update-course e works fuel db (osd_insert e.fmt_f osd) t,
  run_update-course e works fuel db (record_update rec) t,
  run_update-course e works fuel db (record_insert rec) t,
  run_update-course e works fuel db (record_prev_post_update rec) t,
  run_update-course e works fuel db (layout_update layout) t,
)

-- Unless SQLite reports a lock, each of these writers returns with fuel for 200 tries: -1 if its open of
-- the database failed, with no statement tried; and 0 if it did not, behind at least one try of its
-- statement, unless the handle is NULL, and at most 200 tries.
pub video_writes-Answers :
    (e : Env) (t : Trace) (db : Bytes) (fuel : ℕ) (osd : Osd) (rec : Record) (layout : Layout)
    → NeverLocked e
    → sqlite_opt_cnt ≤ fuel
    → Answers e t (write_osd fuel (some db) (some osd))
      × Answers e t (insert_osd fuel (some db) (some osd))
      × Answers e t (write_record fuel (some db) (some rec))
      × Answers e t (insert_record fuel (some db) (some rec))
      × Answers e t (write_record_prev_post fuel (some db) (some rec))
      × Answers e t (write_layout fuel (some db) (some layout))
unfolding write_record insert_record write_record_prev_post write_layout
video_writes-Answers e t db fuel osd rec layout free enough = (
  rw (write_osd_one e fuel db osd t)
      (run_update_one-Answers e fuel db (osd_update e.fmt_f osd) t free enough),
  rw (insert_osd_one e fuel db osd t)
      (run_update_one-Answers e fuel db (osd_insert e.fmt_f osd) t free enough),
  run_update_one-Answers e fuel db (record_update rec) t free enough,
  run_update_one-Answers e fuel db (record_insert rec) t free enough,
  run_update_one-Answers e fuel db (record_prev_post_update rec) t free enough,
  run_update_one-Answers e fuel db (layout_update layout) t free enough,
)

-- If SQLite refuses every try of the statement, and not by a lock, each of these writers answers 0 all
-- the same, after exactly 200 tries.
pub video_writes-Refused :
    (e : Env) (t : Trace) (db : Bytes) (fuel : ℕ) (osd : Osd) (rec : Record) (layout : Layout)
    → Refuses e
    → sqlite_opt_cnt ≤ fuel
    → Refused e t (write_osd fuel (some db) (some osd))
      × Refused e t (insert_osd fuel (some db) (some osd))
      × Refused e t (write_record fuel (some db) (some rec))
      × Refused e t (insert_record fuel (some db) (some rec))
      × Refused e t (write_record_prev_post fuel (some db) (some rec))
      × Refused e t (write_layout fuel (some db) (some layout))
unfolding write_record insert_record write_record_prev_post write_layout
video_writes-Refused e t db fuel osd rec layout refuses enough = (
  rw (write_osd_one e fuel db osd t)
      (run_update-refused e refuses fuel db (osd_update e.fmt_f osd) t enough),
  rw (insert_osd_one e fuel db osd t)
      (run_update-refused e refuses fuel db (osd_insert e.fmt_f osd) t enough),
  run_update-refused e refuses fuel db (record_update rec) t enough,
  run_update-refused e refuses fuel db (record_insert rec) t enough,
  run_update-refused e refuses fuel db (record_prev_post_update rec) t enough,
  run_update-refused e refuses fuel db (layout_update layout) t enough,
)
