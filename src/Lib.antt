-- ===== src/Lib.antt =====
-- The settings database of a network video recorder: libs/msdb under project/src. A process keeps its
-- settings in an SQLite file. Every read and every write of a table is a session: a lock file and a
-- read-write lock are taken, a connection is opened, one statement is prepared and stepped or
-- executed, and all of it is given back. The library msstd stands on its
-- own: strings and codecs, bits, a linked list, a pool of threads, processes, and a list of the blocks
-- in use.
--
-- Sys.antt: every call that the code makes of the C library, of pthread and of SQLite is a value of
--   `Call`, and a run is a history of calls. What a call answers is the parameter `Env`, a function of
--   the history, so a theorem holds for any behaviour of the system that it does not exclude. `M` is
--   the type of the modelled functions. A handle is a number, and 0 is NULL. A double is its 64 bits.
-- Sys/Ends.antt: postconditions of runs. Sys/Monitor.antt: what a history holds (`Held`), when that is
--   nothing (`IsIdle`), or nothing but the connection of an open that failed (`GivenBack`), and what
--   the system documents (`IsDocumented`).
-- Ccsqlite.antt: project/src/libs/msdb/ccsqlite.c, one definition for each function under its name, the
--   blob functions in Blob. Its children prove what each wrapper acquires (Held), how often
--   sqlite_execute tries (Execute) and what sqlite_query_record answers (Query).
-- Msdb.antt: the lock and the course of a session in project/src/libs/msdb/msdb.c. `run_query` is the
--   body of a reader behind its guard, `run_update` that of a writer, `rows_loop` the loop over rows.
--   A module below it per table (Osd, Record, Disk, ...) has the struct, the texts of the statements and
--   the functions under their names; its children Held and Fields have the proofs. A reader returns its
--   result and what it leaves in the struct; a pointer argument that may be NULL is an Option.
-- Msdb/Quote.antt: the doubling of quotes, and Literal below it the way SQL reads a literal.
-- Msdb/Select.antt: the names in a select list, and a row as a function of the names.
-- Msdb/Sessions, Msdb/Outcomes and Msdb/Writes: the theorems on the functions, by groups of tables.
-- Msstd/Text.antt: ms_string_strip and the URL codecs of project/src/libs/msstd/string.c; sscanf is a
--   parameter of url_decode. RoundTrip and Strip below it have the proofs.
-- Msstd/Base64.antt: the base64 codec of string.c. Tables below it has its bit operations as
--   arithmetic, RoundTrip what the two functions write. Hex has Base64to16.
-- Msstd/Bits.antt: project/src/libs/msstd/bit_ex.c. Digits below it has the laws of bit operations.
-- Msstd/MsList.antt: the linked list of project/src/libs/msstd/thread_ex.c, over a memory that maps an
--   address to a node; a read, a write or a free of an address without one is a fault. The iterator is
--   in Iterator, the functions that free a list in Free. Chain has what a list in memory is, and Add,
--   Remove, Iterate and Inserted compare each function with one on sequences.
-- Msstd/Pool.antt: the pool of threads of the same file. Queue has its functions one at a time, Steps
--   those of several threads in any order.
-- Msstd/Process.antt: ms_system, ms_vsystem, ms_vpopen and ms_vpclose of the same file, over what vfork,
--   pipe and the waits answer. Waits below it has the loops, Pipes the round of a pipe.
-- Msstd/Tracker.antt: the list of blocks in project/src/libs/msstd/memory.c with MS_LEAK_DETECT.
-- Tests: systems that answer in a fixed way, sample structs, and the theorems applied to them.
--
-- Bounds and fuel: the loops of 200 tries are structural in the tries left. The loop of sqlite_execute
-- has no bound while the database is locked and takes fuel: 200 is enough without a lock, and with one
-- no fuel is. The walks along a list are structural in the position; the loops to the end of one take
-- one round more than it has nodes, or as many as the theorem asks for. A wait for a child takes one
-- round more than it has interruptions. A text is written by `snprintf` into a buffer of the size in
-- the code, and cut. `%d` has its decimal text; `%f` is part of `Env`.
--
-- Not modelled: the other tables, the writers of the motion table and emaildb.c, which have the shape of
-- what is here; the wrappers of pthread, files, named pipes, the network settings, hex_2_base64
-- and the URI list of string.c; what is printed; other processes, whose effect on the database is in the
-- answers of `Env`. An array is what its pointer sees, and how long it is is not known to the model, as
-- it is not to the code; a pointer to a count is taken to be valid, since the code writes through it
-- untested. The buffer of `sqlite_debug` has 1,024 bytes: a longer line is in the history (`vsprintf`),
-- and what it overwrites is not modelled.
pub mod Prelude
pub mod Sys
pub mod Ccsqlite
pub mod Msdb
pub mod Msstd
pub mod Tests
