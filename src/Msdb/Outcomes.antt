-- ===== src/Msdb/Outcomes.antt =====
-- What the readers of libs/msdb/msdb.c leave in the structs and arrays of their callers, by group.
pub mod Video
pub mod Alarm
pub mod Network
