-- ===== src/Lib.antt =====
-- Verification of polarbeam, a network measurement system of agents that probe their peers and a
-- server that keeps the results and raises incidents.
--
-- An agent runs probes, writes each result to an on-disk spool, and pushes the spool to the server.
-- The server folds each pushed batch, in one transaction, into the outage state of every series and
-- into the path MTU of every path, and grades the measurements by thresholds. The parts modelled:
--
-- * Outage (internal/server/outage/outage.go): `step`, the hysteresis of one series, as a function
--   from a state and a result to a state and the operations to write; Outage/Table has the rows of
--   series_state and outage_events with the SQL statements as functions on lists of rows, and
--   Outage/Apply the loops of `Apply` over the series, the results and the operations. Streaks,
--   Timeline and Runs are about `step`; Store, Batch, Total and Persist about `Apply`. Outage/Sweep
--   (internal/server/outage/sweep.go) has the periodic repairs of the same tables: the agent_offline
--   events, the events of probes that are no longer assigned, and pointers to closed events.
-- * PathMtu (internal/agent/probes/pathmtu.go): `pmtuSearch` with `next`, `record` and `outcome`;
--   PathMtu/Prober has the loop of `Run` as a step function on what the socket, the timer and the
--   context do, with the late replies that `fold` sends to the search; PathMtu/Finalize the
--   parameters and the status. Bracket, Run, Limits, Network and Creeping are about the search.
-- * Spool (internal/agent/spool/spool.go): Spool/Counters has the drop counters, their two
--   sidecar files and what `Open` makes of them after a crash; Spool/Frames the record framing, the
--   scan of a segment at startup and its reading; Spool/Files the directory; Spool/Segments the
--   struct `Spool` with `Append`, `Next` and its ack, `AckDropped`, rotation and the bounds, and
--   its Startup `Open`. Blocks says what well-formed files hold, and that the records read from
--   them are a queue; Reading, Turns, Acks and Fifo are about its front, Opening, Writing, Appends
--   and Appended about its back, Bounds, Limits, Overdue and Drops about what is dropped, Stale and
--   Marks about a batch on its way, Reopening and Recovery about crashes, Faults about results that
--   cannot be spooled. What the encoder and the checksum promise is the record `Codec`.
-- * Pusher (internal/agent/uplink/pusher.go): the drain loop of `Run` over the spool, a phase for each
--   call of it, and appends between any two calls. Fates and Ledger say what became of each record,
--   Delivery is about any run, Drain about one in which the server accepts.
-- * MtuWatch (internal/server/mtuwatch/mtuwatch.go): `decide`, the fold of one series' runs into
--   its current path MTU and its change events, and the check of the rows that the insert returns;
--   MtuWatch/Upsert has `bulkUpsertCurrent` on the rows of path_mtu_current, whose times are those
--   that the column keeps, and MtuWatch/Apply has `Apply`, with path_mtu_events. Chain, Bulk, Locks,
--   Finals and Accepted have the proofs.
-- * PathWatch (internal/server/pathwatch/pathwatch.go): the same for traceroute paths, by the hash of
--   the path: `decide`, the fold of one series and the check of the returned rows.
-- * Thresholds (internal/server/thresholds/thresholds.go): the merge of override layers, and the
--   warning and critical grades.
-- * Watchdog (internal/agent/uplink/watchdog.go): the loop that ends an agent whose network is dead,
--   as a fold over what each tick sees.
-- * Syslog (internal/server/syslogfwd/forwarder.go): the ring of a `sink` with `push`, `takeLocked`,
--   `ack` and `requeue`, and the sequence numbers; Syslog/Writer has `run`, `fail`, `connected`,
--   `delivered` and `stop` as steps of one world, each section under the sink's lock a step, so that
--   a run is any interleaving of the goroutines; Syslog/Queue is what the ring promises. Window and
--   Ring are about the ring, Rising, Pushes, Taking, Untouched, Steps and Delivery about runs,
--   Outage and Clock about failures. Syslog/Format (internal/server/syslogfwd/format.go) has
--   `sdEscape`, `clipRunes` and `truncate` on bytes; its Receiver is the reader that they are for.
-- * Scheduler (internal/agent/scheduler/scheduler.go): `Apply`, `startWorkerLocked`, `Stop` and
--   `FastestInterval` on the workers by id and the goroutines that go on; Scheduler/Tables has Go's
--   maps by a text. Collect and Reconcile see `Apply` at one id, Known, Loops and Live match workers
--   and goroutines, Fastest is about the interval that the watchdog waits for.
-- * MeshExpand (internal/server/meshexpand/meshexpand.go, internal/server/probeid/probeid.go):
--   `BuildSnapshot`, from the rows of an agent to the specs that its scheduler gets. Orders is about
--   lists by their probe id, Expanded about permuted rows, Same about the snapshot, Hash about what
--   is hashed of it.
--
-- Base holds the shared names: tests, list lemmas, integers, and the `Outcome` of code that can fail.
--
-- Machine numbers: a time is the number of nanoseconds since Go's zero time, and a time before it
-- does not occur; a UUID is its 128-bit number. A counter that is an int is its 64-bit pattern,
-- wrap-around written out; a uint64 sum wraps; an int4 column keeps 32 bits with the sign. Floats
-- are an argument with the tests that the code makes. A sorted slice, a UUID that the database
-- makes, the precision of a timestamptz, a CRC and the protobuf decoder are arguments too.
--
-- Fuel: the scan of a segment takes one unit for each byte, and each turn takes at least eight
-- bytes of the file; the search of a path MTU on a fixed path takes one unit for each number up to
-- the largest size, and two more, and each turn makes the bracket of sizes smaller.
-- The runs of the syslog forwarder are finite lists of steps, each of which takes at most two
-- sequence numbers; the theorems on runs stop before the numbers start again at 1.
--
-- Not modelled: a statement that fails ends `Apply` with the transaction rolled back, so the
-- model runs the statements that succeed; row locks and concurrent transactions; files as such (a
-- segment is the list of its bytes); sockets, packets and the wait budget; writes of the spool
-- that fail, which stop the agent; the pusher's batching window and its sleeps; the loop of a
-- worker of the scheduler and the other probes; the rest of the message format and the settings
-- of the syslog forwarder; the gRPC and HTTP services, the store, and all that is generated,
-- vendored or outside the Go code.
pub mod Base
pub mod MeshExpand
pub mod MtuWatch
pub mod Outage
pub mod PathMtu
pub mod PathWatch
pub mod Pusher
pub mod Scheduler
pub mod Spool
pub mod Syslog
pub mod Thresholds
pub mod Watchdog
