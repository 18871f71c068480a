-- ===== src/Msdb/Writes.antt =====
-- What the writers of libs/msdb/msdb.c do and answer, by group.
pub mod Video
pub mod Alarm
pub mod Network
