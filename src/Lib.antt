-- ===== src/Lib.antt =====
-- A model of libhinawa, which gives user space access to the Linux FireWire subsystem: nodes of the
-- bus and their events (src/fw_node.c), transactions to them (src/fw_req.c), a responder for
-- transactions from them (src/fw_resp.c), the Function Control Protocol over both (src/fw_fcp.c),
-- and the CYCLE_TIME register (src/cycle_time.c).
--
-- The parts. An object of `HinawaFwNode` owns the file descriptor of a character device. All other
-- classes reach the kernel through `hinawa_fw_node_ioctl`, which also keeps the addresses of the
-- requests under way. The event source of the node reads the events and hands them to the object
-- that the closure names: a response goes to its `HinawaFwReq` if the node still keeps it, a request
-- to its `HinawaFwResp`. `HinawaFwFcp` is a `HinawaFwResp` on the response address of the protocol:
-- it tells the responses of its node from other requests by a history of bus generations and node
-- IDs, and hands them to the threads that wait.
--
-- The files.
-- - CycleTime: src/cycle_time.c; its fields as numbers (CycleTime/Fields), completed time stamps
--   (CycleTime/Tstamp).
-- - Enums and Abi: src/hinawa_enum_types.h, and of include/linux/firewire-cdev.h what the library
--   uses.
-- - Env: what lies outside the repository, as a parameter: the answers of `ioctl(2)` and `open(2)`
--   by what was asked before, the lists of GLib, the byte order of the host, and what `g_set_error`
--   leaves in a variable that is set. Hypotheses on them are `ListLaws` (Env), `BigEndianLaw`
--   (Node/Rom) and `OpenLaw` (Session/Files).
-- - Node: `HinawaFwNodePrivate`, `fw_node_get_property`, `fw_node_finalize`, `update_info` (with the
--   bytes in Node/Rom); Node/Open: `hinawa_fw_node_open`, `hinawa_fw_node_get_config_rom`,
--   `handle_update`; Node/Ioctl: `hinawa_fw_node_ioctl`, `hinawa_fw_node_invalidate_transaction`,
--   `hinawa_fw_node_read_cycle_time`. Their theorems are in Node/Open/Laws and Node/Ioctl/Laws.
-- - Req: the guards and the handlers of src/fw_req.c; Req/Execute: `hinawa_fw_req_request` and
--   `hinawa_fw_req_transaction_with_tstamp`; theorems in Req/Check, Req/Send, Req/Wait and
--   Req/Transaction. Req/Threads: the caller of a transaction and the thread of the event source as
--   a step relation, with their mutexes (theorems in Lifetime and Progress); Stores refines the step
--   that writes the structure to its stores.
-- - Resp: the object of src/fw_resp.c; Resp/Region: reserve and release; Resp/Handle: the handlers
--   of events; theorems in Resp/Invariant, Resp/Reserve, Resp/Respond and Resp/Kept.
-- - Fcp: the object of src/fw_fcp.c; Fcp/History: `struct node_history` (theorems in Find and Ring);
--   Fcp/Waiters: the list of waiting transactions (Safety, Overflow); Fcp/Requested:
--   `handle_requested_signal`; Fcp/Bind: bind and unbind (Laws, Unbind); Fcp/Avc: commands and
--   transactions (Loop, Reply, Failure); Fcp/Receive: an event of the kernel on its way through the
--   responder to the object, in Source from the event source on, in Answer to the transaction that
--   waits, and in Exchange with the command that it answers; Fcp/Threads: the caller of a
--   transaction and the thread that handles responses as a step relation, with their mutexes
--   (Lifetime, Progress, Order).
-- - Dispatch: `check_src`, `dispatch_src` and `hinawa_fw_node_create_source` of src/fw_node.c. Laws:
--   one call of the source; Run: many; Delivery: a transaction against the source; Update: a bus
--   reset before a request; Soundness: all responders, over many calls.
-- - Wire: the events as bytes in the buffer of the event source, by the structures of
--   include/linux/firewire-cdev.h in either byte order (RoundTrip), and what `read(2)` leaves of an
--   event in the page (Page); Delivery goes from the bytes to the caller of a transaction. The numbers
--   of the codes are a parameter. `dispatch_src` of Dispatch takes the event that is read so.
-- - Session: sequences of calls on all objects of a process, as a program and its main loop make them;
--   a transaction is two calls. References, Classes, Nodes, Holders and
--   Balance count the references to nodes; Closed and Preserve carry what each elementary step keeps
--   to whole sessions, which Files and Opening use for the file descriptors.
-- - Class: what the `class_init` functions register: properties, signals and marshallers (theorems
--   in Class/Laws).
-- - Base and Bits: shared names, Boolean tests, lists over native numbers, and bit masks as
--   quotients and remainders. Samples: a machine that has the documented behaviour, for the Tests
--   modules.
--
-- How code becomes a definition. Objects are records in a `World`, by their address; the calls of
-- the kernel are a trace, the latest first. A pointer that may be null is an `Option`, and a
-- function whose code may read through a null or dangling pointer, or beyond a buffer, returns an
-- `Option` whose `none` is that fault. `GError **` is a slot that is null, empty or set. Numbers
-- that the code lets wrap carry their `% 2 ^ w`. A wait on a condition variable takes a schedule: a
-- list of wakes, each with the signals that other threads emit before it; any finite list is
-- allowed, and at its end the time is over. In these definitions a mutex is the order of the steps.
-- Where the order itself is the question, the threads are a relation: each step is one access under
-- a mutex, or the taking or the leaving of one, and the theorems are about all states that steps
-- reach.
--
-- Bounds. The loop over the history has fuel for ten turns and the one that ends it, as many as the
-- array has records and one more. All other loops run over a list or a counter.
--
-- The handlers of events return nothing that could be none: a `memset` beyond a responder's frame is
-- an effect in the trace (`overrun`), which none of the theorems on a valid responder lets in. Two
-- accesses beyond memory do not show. `update_info` swaps no quadlet behind the last of the ROM
-- (src/fw_node.c:344): the kernel tells at most 1,024 bytes, and the theorem on the ROM asks for it.
-- Links of a `GList` are values, so a link that is used after it is freed does not show.
--
-- Not modelled. Registration of types and error quarks; texts of messages; memory that is only
-- allocated and freed; the main loop; what handlers of signals
-- do beside setting a frame of the responder that emits and releasing its range, as reserving again or
-- dropping the last reference to it; more than one transaction of an object at once
-- in the relations of threads. In src/fw_req.c the pointers to
-- buffers, sizes and time stamps are not null. The numbers of the enumerations stand in a header of
-- the kernel that the repository does not hold.
pub mod Base
pub mod Bits
pub mod CycleTime
pub mod Enums
pub mod Abi
pub mod Env
pub mod Node
pub mod Resp
pub mod Req
pub mod Fcp
pub mod Dispatch
pub mod Class
pub mod Session
pub mod Wire
pub mod Samples
