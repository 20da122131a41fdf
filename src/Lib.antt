-- ===== src/Lib.antt =====
-- xmSigma: the base library of a robotics stack. It has a ring buffer, wire-format helpers, loggers
-- and a set of value types. This development models all of these and proves what makes them
-- correct.
--
-- Parts of the program, and the files here that model them.
--   include/xmsigma/container/ring_buffer.hpp, a mutex-guarded byte or element FIFO of N cells
--     (N a power of two) with free-running indices: RingBuffer. Each method is one function with
--     the method's name in snake case; a burst loop is a structural recursion of its own
--     (read_loop, peek_loop, write_loop). The mutex makes a call one step, so threads interleave as
--     whole calls and a run is a list of calls (RingBuffer/Client), of every method but GetBuffer,
--     which shows the whole array. RingBuffer/Inv relates a ring to
--     the queue it holds; RingBuffer/Queue is the abstract bounded queue.
--   include/xmsigma/serialization/byte_order.hpp, the loads and stores of wire integers:
--     Serialization/ByteOrder, one function for each, on a buffer that is a list of bytes.
--   include/xmsigma/serialization/checksum.hpp, CRC-8/MAXIM, CRC-16/XMODEM and the inverted sum:
--     Serialization/Checksum, with the inner loop body, the outer loop body and the whole function.
--     Checksum/Polynomial is the division of polynomials over GF(2) that the CRCs are compared with.
--   include/xmsigma/logging/details/logger_interface.hpp and the conversions in
--     src/logger_vendor_spdlog.cpp: Logging/Level.
--   include/xmsigma/logging/rt_logger.hpp and src/rt_logger.cpp, the logger for hard-RT loops: a
--     producer thread formats records into a lock-free ring, a drain thread gives them to the sink:
--     Logging/Format (FormatInto) and Logging/RtLogger. A thread is a program point with its locals
--     (Producer for Log, Drain for DrainLoop, Flusher for Flush), an event is one shared-memory
--     access of one thread, and a run is a list of events, so it is any interleaving.
--     RtLogger/Invariant holds in all of them; RtLogger/Steps proves it. RtLogger/Growth is
--     about what the other threads leave to Flush, and RtLogger/Flushing about Flush.
--   include/xmsigma/logging/rt_logger_mpsc.hpp and src/rt_logger_mpsc.cpp, the same logger for any
--     number of producers: Logging/MpscRtLogger, in the same way, with producers that are numbered
--     and a ring of cells with sequence numbers. MpscRtLogger/Invariant holds in all interleavings;
--     its child modules prove it for one kind of access each, and MpscRtLogger/Steps for all.
--     MpscRtLogger/Accounts counts the calls of Log by how they end. MpscRtLogger/Pending relates
--     the cells that are claimed and not published to the producers that fill them; Draining is
--     about the end of the drain thread, Shutdown about the destructor, Flushing and Returning
--     about Flush, the latter over Working (the drain thread catches up) and Alone (it and Flush
--     take turns).
--   include/xmsigma/logging/csv_logger.hpp and event_logger.hpp, with build_string of
--     details/specialized_logger.hpp: Logging/Rows, the row that a call of LogData or LogEvent
--     writes, and Logging/Specialized, the loggers themselves over Logging/Spdlog.
--   include/xmsigma/logging/ctrl_logger.hpp and src/ctrl_logger.cpp: Logging/CtrlLogger, one
--     function for each method, on a record of its maps, its data and the rows that were written;
--     the two that write rows are functions of whether the build defines ENABLE_LOGGING.
--   include/xmsigma/logging/details/logging_utils.hpp: Logging/Environment, the level from the
--     environment, and Logging/Paths, the name of the process and the names of log files.
--   include/xmsigma/logging/details/logger_vendor_spdlog.hpp and src/logger_vendor_spdlog.cpp, the
--     logger for the rest of the program: Logging/Vendor, over the operations of spdlog that
--     Logging/Spdlog names.
--   include/xmsigma/logging/xlogger.hpp, details/default_logger.hpp and src/default_logger.cpp, the
--     logger of the process and the macros, with those at the end of rt_logger.hpp: Logging/Macros.
--     The macros are functions of what the build defines.
--   include/xmsigma/types/, the value types: Types/Quantities (quantities.hpp), Types/Geometry
--     (geometry.hpp, vector.hpp) and Types/Time (time.hpp, stamped.hpp), over the record
--     Types/Eigen of what they use of Eigen.
--
-- How they interact. RtLogger uses Level and Format; the macros use Vendor, which uses Environment,
-- Paths and Level; the hard-RT macros use RtLogger; Specialized uses Rows and Paths, and CtrlLogger
-- shares the texts of Rows; the rings of RtLogger and MpscRtLogger and RingBuffer have the same
-- free-running 64-bit indices masked by a power of two, whose arithmetic is in Common/Indices and
-- Common/Cells. Serialization and Types stand alone.
--
-- Numbers. `std::size_t` and `std::uint64_t` are natural numbers with the wrap-around written out
-- (u64, sub64 in Common/Words), also for the indices, which do wrap. Bytes and narrower words are
-- cut where the source casts. Bit operations are the native ones. The signed difference of two
-- sequence numbers is read by the order of the signed numbers (signed_place in
-- Logging/MpscRtLogger). What is shown of the multi-producer ring, but for the accounts and a ring
-- of one cell, is for 2 to 2 ^ 62 cells and fewer than 2 ^ 62 claims, so that no sequence number
-- reaches the sign bit.
--
-- Undefined behaviour. An access out of range is `none` in RingBuffer, ByteOrder, Checksum and
-- CtrlLogger, and the use of a null logger in Vendor and Specialized. In the loggers with a ring
-- the drain thread stands still there, and a write does nothing; the invariant shows that neither
-- occurs.
--
-- Fuel. The loop that rounds a capacity up has fuel: 64 rounds are enough up to 2 ^ 63, and no
-- number of rounds is enough above. No other definition has fuel: the burst loops recurse on what
-- is left, and a thread's endless loop is cut by the list of events.
--
-- Parameters. What fmt makes of a format string and its arguments is a value of the call (the text,
-- or that it throws); the clock is a value of the event that reads it; the level from the
-- environment and what the ring's memory holds before the first write are arguments of the
-- constructor. `getenv` and `strtol` are functions. What `operator<<` and `std::to_string` make of
-- a value is the value's text. The sink is the list of what it was given. Of the operating system
-- and the C library, a record `Platform` has what the program asks of them. spdlog is a record
-- `Spdlog`, and its documented behaviour a record `IsSpdlog` that the theorems on the macros and on
-- Specialized take; an exception of its is `none`. Eigen is a record `Eigen` of
-- operations, and the monotonic clock a record `SteadyClock` with `IsSteady`.
--
-- Not modelled. Accesses of the loggers with a ring are sequentially consistent, where the code has
-- acquire and release. `const` methods that return one field (GetLevel, dropped) have no definition
-- of their own. The branches for other systems than Linux, the queue of the async logger and its
-- overruns are not modelled, nor are the aliases and facades of types/ that only rename or include.
-- spdlog, fmt, Eigen and the threads of the standard library are not part of the repository.
pub mod Common
pub mod RingBuffer
pub mod Serialization
pub mod Logging
pub mod Types
