-- ===== src/Lib.antt =====
-- rust-systemd: a Rust interface to libsystemd, as a model of its wrappers and the theorems on them.
--
-- The program. Each module of src/ wraps one part of libsystemd: it turns arguments into C values, calls
-- the C function, and turns the return value and what was written into a `Result`. The macros `sd_try!`
-- and `char_or_null!` and the function `ffi_result` of src/lib.rs are shared by all. src/bus/mod.rs also
-- checks names, counts references under its handles and carries errors over the border in both
-- directions; src/bus/types.rs chooses the wire type of a value. libsystemd-sys declares the C functions
-- and packs the entries of a vtable.
--
-- The files.
--   Base       lists, Boolean tests and `c_int`, shared by all (Base/Tests, Base/Lists,
--              Base/SameBytes, Base/Int)
--   Ffi        src/lib.rs: `Machine` is the heap of C strings and the state behind the C functions, an
--              `Eff` is a function of it that returns, fails with an `io::Error` or panics; Ffi/Heap is
--              the heap, in which no address is used twice, so that a freed address stays recognisable;
--              Ffi/Scoped carries the allocated strings through a chain of calls, with a rule for each
--              way to chain them, and Ffi/Answers says what a wrapper of one call gives
--   Names      the four names of src/bus/mod.rs, one file each: `from_bytes` as it loops over the slice,
--              `inner` as the slice with its '\0'; Grammar is the specification and the equivalence,
--              Errors the message of a refused slice, over Names/Loop; Names/Counter is the `i32` that
--              counts periods, InterfaceName/Overflow a name with more of them than it can count, and
--              Names/UnitTests runs the unit tests of the source
--   Daemon     src/daemon.rs: one function for each of the source; Daemon/State is the text of `notify`,
--              Daemon/Unordered its `HashMap` as the quotient of the orders that `iter` can go in
--   Vtable     libsystemd-sys/src/bus/vtable.rs, over bytes and a byte order (Vtable/Packing, and
--              Vtable/Bounds for every argument)
--   Iovec      `array_to_iovecs` of libsystemd-sys/src/lib.rs
--   Id128      src/id128.rs: Id128/Sources is where an id comes from, Id128/RoundTrip reads its print
--   Login      src/login.rs
--   Journal    src/journal.rs: `open`, `get_next_field`, `previous_record`, `seek` and `cursor`;
--              Journal/Records has the loops of a program that reads a journal with them,
--              Journal/Cursors a journal with cursors and a read pointer
--   Strings    the C strings that Daemon and Journal make (Daemon/Strings, Journal/Strings), together
--   Bus        the rest of src/bus/mod.rs and src/bus/types.rs: RawError and Error over the heap,
--              Handles (Bus, Message and their counts), Message (operations of BusRef, MessageRef and
--              MessageIter), Types (values, and in Types/Body a whole body; Types/Stores has the types
--              of D-Bus and what C takes for each); Error/Ownership has a step for each operation that
--              makes, copies, hands over or drops an error, Handles/Counts the same for handles
--              (Handles/Steps has the steps, Handles/Owned the hypotheses, Handles/Gains one call
--              each), Types/Body/Sent for a message that was sent; Message/Relay follows an error from a handler of one program
--              to `call` of another, Types/Body/Sharing two handles of one message
--   Log        `log_with!` and `sd_journal_log!` of src/lib.rs: the token trees that they match
--              (Log/Expansion) and the code that they expand to (Log/Order)
-- Names of functions and fields are those of the source; `open`, `default`, `call` and `with`, which are
-- taken, are `open_journal`, `default_bus`, `call_method` and `with_name`, and `Journal::cursor` is
-- `current_cursor`.
--
-- Parameters. libsystemd is not part of the repository: the records SdDaemon, SdJournal, SdLogin,
-- SdId128, SdBus and SdError hold its functions, over a state of any type; `mstring_from_raw` of the
-- crate mbox and `format_args!` of the language are parameters too. What a theorem needs of them, as the
-- manual pages state it, is a record of hypotheses of its own (ReadsHex, WritesIds, CopiesStrings, Allocates,
-- Counted, IsAnswered, Seals, Stores, LeavesSealed, IsRelayed, RefShares, Peeks, PeeksEnd, Holds,
-- Ordered), and each has a concrete instance in the tests. Stores speaks only of the basic types that
-- src/bus/types.rs appends, in memory of their width, and not of file descriptors.
--
-- Choices. The loops of the source are structural recursion on bytes or on a count of rounds. Only the
-- two loops of Journal/Records and the reader of Bus/Types/Body/Reader run on fuel, since C decides when
-- they end: one round more than there are fields, entries or values is enough. Text is the list of its
-- bytes. A HashMap is handed over as the list of its entries in the order of iteration. Out-parameters
-- are returned beside the return value. A counter that overflows wraps, as in a release build.
-- `add_object` and `call_async` take the address of a callback and hand it to C; `clone` of an error takes
-- what happens to stand in the value that it leaves uninitialised.
--
-- Not modelled: the debug print of BusRef, which is a constant; the declarations of C functions, which
-- have no bodies; the memory layout of the tables of a vtable; how long a callback that C keeps is
-- alive; the build script; and code that is commented out (Track, VtableBuilder).
pub mod Base
pub mod Ffi
pub mod Names
pub mod Daemon
pub mod Vtable
pub mod Iovec
pub mod Id128
pub mod Login
pub mod Journal
pub mod Strings
pub mod Bus
pub mod Log
