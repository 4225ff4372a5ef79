-- ===== src/Lib.antt =====
-- sto, a sampling profiler that stores call paths as a graph. A BPF program (src/bpf/bpftune.bpf.c)
-- writes one event per sample into a ring buffer. The command line tool (src/bin/cli.rs) takes the
-- events, symbolises and aggregates them and posts three tables. The server (src/bin/server.rs)
-- merges the tables into a database (migrations/20230305040305_init.up.sql) and draws flame graphs.
--
--   Prelude   shared names, Boolean tests, lists, maps as association lists, lists of identifiers
--   Words     machine words as bit patterns: u64 and i64 below 2 ^ 64, u32 and i32 below 2 ^ 32.
--             Release builds wrap on overflow, and the model is of a release build. Bytes has their
--             bytes in memory and in network order
--   Text      the operations of str: a text is a list of code points; Split and Parse have the words
--             of a line and the numbers in it
--   Bpf       struct stacktrace_event of bpftune.h and its bytes; Codec is the agreement of both
--             sides on them, Declared that of the bytes with the C declaration; Profile
--             is the function profile; FromStr reads an event from a line of text, as lib.rs does
--   Defs      the records of src/defs.rs; References says which rows refer to which
--   Kernel    Layout is the layout of C structures on x86-64, Types the structures of
--             src/bpf/vmlinux.h that a sample passes through
--   Cli       Setup is main, bump_memlock_rlimit and the perf events of profile; Sample is the
--             callback in profile; Worker the thread spawned by process; Threads the
--             threads of the samples, the channel and the worker, in any order; Ids the
--             functions misc_id, id_stack_node and id_data; Sink is process_and_sink_data with
--             cached_demangle, one function for each loop, from on_frame up to on_symlists
--   Server    Rows has the two kinds of INSERT; Db the tables and constraints; Ingest is data_ingest
--             for one request, with Kept for what it stores; Requests for any number whose
--             transactions interleave; Dag is the handler data with build_dag; Pages has metadata
--             and index; Subtree is the function subtree of the migration
--   Load      demo/demo.c, and burn_cycles of testApp/main.cpp
--   System    both together: what the tool posts is what the server takes; Traffic has any number
--             of tools; Drawn follows a batch into the flame graph
--   Tests     concrete collaborators, runs, and the theorems at concrete inputs
--
-- A structure that is changed in place is a record that is passed on: Sink holds the local maps of
-- process_and_sink_data and the caches, Worker the buffer, Db the tables. A hash map is an
-- association list; the program relies on no order of its entries. A panic is none, or false beside
-- the state that is left.
--
-- Parameters, with what is asked of them: the kernel's helpers (Kernel, KernelLaws), the hash
-- function of crate highway (Hasher, HasherLaws), the caches of crate moka (Cache, CacheLaws; an
-- entry may be forgotten at any call), the demangler, the symboliser's results, the sizes that crate
-- deepsize reports, crate rlimit (Rlimit, RlimitLaws), the results of rand(), and the clocks.
--
-- Loops are recursions on the list that they go through. The recursion of build_dag follows the
-- parents in the database, as that of subtree does, and takes a fuel: what exceeds the rank of every
-- node is enough, where a rank is any measure that falls from parent to child. The loop of
-- burn_cycles has as fuel the number of turns that it is watched for, and the inner loop 100, the
-- length that it fills a string to. A batch of the tool adds at most 2 ^ 32 to a counter of 64 bits,
-- so that the first 2 ^ 31 batches overflow none.
--
-- Kernel structures are taken for one kernel, the one that vmlinux.h was made for; a pointer is taken
-- without what it points to.
--
-- Not modelled: HTTP, JSON as a format, the templates, the polling of the ring buffer, and the report
-- findRegressions of the migration. A transaction of the database is atomic; that it may be aborted, as
-- a deadlock is ended, is a step. Texts hold no zero byte, which PostgreSQL would refuse.
pub mod Prelude
pub mod Words
pub mod Bpf
pub mod Text
pub mod Defs
pub mod Cli
pub mod Kernel
pub mod Load
pub mod Server
pub mod System
pub mod Tests
