-- ===== src/Lib.antt =====
-- Verification library of pg-sprite, which changes PostgreSQL tables online: a planner decides how
-- each operation of a statement would run, a router assigns it to a backend, and the copy-and-swap
-- backend copies the table into a shadow in chunks, while an applier replays the changes that the
-- write-ahead log delivers. The files follow the packages.
--
-- Prelude: numbers, lists and tests shared by all. Prelude/Int64 counts Go's int64 from the least
-- one, as a natural number, with the wrap-around written out; Prelude/Assoc is a Go map with int64
-- keys, as an association list.
--
-- Copier (pkg/copier). Types and Cover: chunks, watermarks and the keys that they cover (types.go).
-- Options, Sizing and Chunker: how the key space is cut (chunker.go): `new_chunker` is NewChunker,
-- `next_chunk` is Next, `feedback` is Feedback, `next_rows` is nextRows. The query for a chunk's
-- upper boundary is a parameter, and so is the arithmetic of float64, of which only the rounding of a
-- value between two integers is used. Ledger: claimed, partial and landed chunks (ledger.go), `claim`, `settle`,
-- `land` and `advance` under their own names; `advance` runs on one more round than there are landed
-- chunks, of which each round takes one. Position: where a key stands (position.go), with the binary
-- search of Go's library on as much fuel as there are keys. Run: the state that the workers share and
-- the steps that they take on it (copier.go, and `cut` of cut.go, whose transaction may fail to commit
-- after the chunker moved on); a step is atomic, as the copier's locks make it, so
-- every interleaving of the workers is a list of steps. RunOptions: the options of a run. Retry: the
-- passes over a chunk that collides (retry.go), on as much fuel as there are attempts.
--
-- Applier (pkg/applier). Entry and Buffer: what is known of every changed key (entry.go, buffer.go);
-- `add` is Add, with one function for each kind of change. Buffer/Knowledge is the abstract view, a
-- function from keys to what is known of them, and the specification of an event on it. Snapshot:
-- which transactions are visible (snapshot.go). Drain: one drain against a position and a snapshot
-- (drain.go); the passes over the travelling pairs run on fuel, twice the number of pairs and one,
-- which is enough since every pass that changes something defers a half of a pair. Hold: what a flush
-- gives back (hold.go, requeue.go, and inShadowForm of conversion.go). The drain takes the copier's
-- position and asks it for the state of every key, so what is proved of Copier.Position holds for it.
--
-- Applier/Flusher: a flush (flusher.go, absent.go, complete.go, and `split` of flush_sql.go). Moved
-- is completeMoved and holdAbsent, Writes is applyColumnWise and applyWholeRows, Transaction is
-- apply, flush and Flush. A statement is its kind, its key and its columns; the database is a record
-- of answers, and an answer to a statement may depend on those that ran before it. Catchup: the
-- cycle of the catch-up (catchup.go), which calls the stream, the buffer, the drain, the flush and
-- the slot check; what a cycle meets outside the process is a record, `World`. `gather` goes by the
-- calls of Next that its interval leaves room for, and the changes that the options allow.
--
-- Decode (pkg/decode). Lsn: the text of a position (types.go). Relation: the shape of the target and
-- its tuples (relation.go, tuple.go). Stream: the positions of the stream and every message that
-- moves them (stream.go, feedback.go); messages are taken as the replication library parses them,
-- and what reaches the connection within one wait is a list. Slot: the ceiling on what a slot
-- retains (slot_lag.go).
--
-- Checksum (pkg/checksum). Settle: how a chunk that differs is judged and settled (settle.go). Its two
-- loops run on fuel: the wait on one more than its polls, and the rereads on one more than the
-- attempts, which is enough. Pass: the policy, the options and the report of a live pass (policy.go,
-- report.go, and the options of live.go). Repair: settling what was recopied (live_repair.go). Live: the
-- live pass and its proof (live.go, check.go), with the sweep and the recopy as arguments.
--
-- Planner (pkg/planner, and the operation types of pkg/statement). Types: operations, facts and
-- decisions. Coercion: the type changes without a rewrite. Classify: the route of an operation and of
-- a statement. Parsing is not modelled, and the safer sequences that the planner renders as SQL are
-- parameters. Router (pkg/router/router.go) takes the planner's plans to backends and dispositions.
--
-- Not modelled: whatever runs SQL or speaks the replication protocol (pkg/dbconn, pkg/executor,
-- pkg/preflight, the connections of pkg/decode, the transactions of pkg/copier, the guard of
-- pkg/applier), the sweep and the recopy of the checksum, the runner of a schema change, checkpoints,
-- the diff of schemas, and the command line. Error texts are left out: an error is a constructor.
-- Cancellation and time appear as arguments only.
pub mod Prelude
pub mod Decode
pub mod Checksum
pub mod Copier
pub mod Applier
pub mod Planner
pub mod Router
