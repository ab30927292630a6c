-- ===== src/Lib.antt =====
-- BorderPatrol traces a multi-process system without changing its programs. A preloaded library
-- wraps the C library's calls, logs each as a binary entry, and follows the protocols that
-- descriptors carry; a daemon collects the logs; a tool prints them.
--
-- The parts, and the files that model them:
--   - Fmt, from src/logd/fmt.c and src/logd/fmt.h: the entry, `Frozen` as it is stored and
--     `Thawed` in memory, with `freeze`, `thaw1` and `thaw2`. Fmt/Entry says what an entry is
--     apart from either form, Fmt/RoundTrip proves the conversions.
--   - Binlog, from src/logd/binlog.c: `Ctx`, the log buffer of a thread; `lb_alloc_bytes` gives
--     room in it, `logbin_gen` writes an entry there, `lb_flush` sends it. Binlog/Flush, Buffer,
--     Logged and Log prove them, Binlog/Calls has the other calls, Binlog/Trace follows the
--     entries to the reader's output.
--   - Reader, from src/logd/common.c: `refill`, `fill` and `get_le` over the reads that a
--     descriptor gives, with proofs in Reader/Ready, Stream and Entries.
--   - Expand, from src/logd/expand.c: the loop that prints entries, with proofs in Expand/Prints.
--   - Logd, from src/logd/logd.c: `Conn`, the buffer and the time difference of a client;
--     `transfer_out` moves whole entries to the log and their times to the daemon's clock,
--     `transfer_in` reads, `serve` is a round of the loop of `main`. Logd/Times, Transfer,
--     Retimes and Reconnect are about them.
--   - Protocol, from src/trace/protocol.c: the plugins that read what passes over a descriptor
--     and log the messages in it. Protocol has the events and what a call comes to; Perl, Http,
--     Psql, Mysql, Xorg and Fcgi have a plugin's state and functions each; Dispatch has the
--     dispatcher structs and the lookup by port, path or program. Framing is the way in which
--     src/trace/vfd.c drives a plugin, with the laws of a plugin that keeps its place in a
--     stream; Mysql/Packets and Psql/InOrder prove them, by Mysql/Steps and Psql/Due, Body and
--     Steps. Dispatch/Fits says which type each plugin casts its `void *` to.
--   - Vfd, from src/trace/vfd.c and src/trace/vfd.h: `Vfd`, the buffers of a descriptor;
--     `present_pp` shows a plugin what has been read, `buf_ret` returns what is released,
--     `virtual_read` drives both. Vfd/Kernel, Invariant, Delivered, More and Transparent prove it
--     for every plugin with `IsPlugin`, Vfd/Mysql shows that a plugin has it, and Vfd/Reads is
--     about sequences of reads. Vfd/Write has `vwrite_req`; Vfd/WriteLoop and Writes are about a
--     plugin that keeps its place in a stream (`IsFramer`), and Vfd/MysqlWrites is about
--     sequences of writes.
--   - Services, from src/trace/getservice.c: the parser of the services file, and
--     `getportbyname`. Services/Port says which port it finds, Services/Examples has concrete
--     files.
--   - Wrap, from src/trace/vfd.c: the wrappers of the C library. `Process` has the table of
--     descriptors, the cache of `select` and the log; Wrap/Files makes and closes descriptors,
--     Network finds their plugins, Input and Output drive Vfd, Select and Poll answer from the
--     cache. Their children, Session and Datagram are about calls one after another
--     (Input/Drained, about calls until nothing is left); Safety has a call of the wrappers for
--     descriptors as a value (`Call`), which `run` takes lists of.
--   - Wrap/Env, from src/trace/vfd.c and src/trace/wrap.h: the environment that a process passes
--     on; Env/Argv is ARG2ARGV, Env/Exec the `exec` functions, and Wrap/Init what a program does
--     first. Env/Lookup, Carried and Set find variables, Env/Child joins the two programs.
--   - Faults, from src/pfdura/pfdura-mod.c, src/trace/vfd.c and src/trace/pf.c: the processes
--     that the kernel module follows and what its probes relay (Faults), and the loop that logs
--     it (Faults/Feed). Faults/Digits and Tracked follow a pid to its bit, Entries, Paired and
--     Traced a fault to the log.
--   - Base: the tests, lists, integers and byte strings that these share. Witnesses: the theorems
--     at concrete inputs.
--
-- Memory is a list of bytes, numbers below 256. A function that aborts, exits or leaves an object
-- returns `none`, or a value that says which where the callers tell these apart. System calls are
-- inputs: the list of what each call will do. Machine integers are natural numbers with their
-- wrap-around written out, or integers where the source's type is signed.
--
-- The numbers of the logged calls are generated by the build, so that they are constructors here;
-- the lookup of a port by name is a parameter of Protocol/Dispatch. `usleep` before a plugin's
-- read and the output under DEBUG_PP, which is 0, are left out. What the C library and the kernel
-- answer a wrapper with are arguments; the functions for the environment are those of the C
-- library over a list of strings. Not modelled: the locks of src/trace/vfd.c, which are taken to
-- succeed, `abort` and `pthread_atfork` in it, the connection of src/trace/pf.c to the log,
-- src/pfdura/pfdura.c, which prints, the older tracer src/trace/trace.c and benchmarks, and the
-- offline analysis in src/agg.
--
-- The counters of the reader are the bits of an `int`, and a size that is read is cast to one as in the
-- source. `lb_alloc_bytes` exits for an entry that is too long: so do Binlog and the text of a query in
-- Psql, while the other texts that are logged are taken to be short enough. Of the flags of `recv`
-- MSG_PEEK alone is told apart.
--
-- `vwrite_loop` has a round for each byte of its buffer and one more. `transfer_out` has fuel for
-- each byte of its buffer and each call of `write` given, one of which every round but the last
-- uses up. `header_lines` has fuel for each byte of its array. `fill_loop` has a round more of
-- fuel than the bytes it is asked for, which is enough since each refill brings one. `expand`
-- takes its fuel as an argument.
pub mod Base
pub mod Fmt
pub mod Reader
pub mod Expand
pub mod Binlog
pub mod Logd
pub mod Protocol
pub mod Services
pub mod Vfd
pub mod Wrap
pub mod Faults
pub mod Witnesses
