-- ===== src/Applier/Catchup.antt =====
-- pkg/applier/catchup.go: the cycle of a catch-up, which gathers the stream's changes into the buffer, drains
-- and flushes them, and confirms to the server what the shadow holds. What reaches the stream, the database's
-- answers, the copier's position and whether a pause (pkg/applier/pause.go) has the flush gate are arguments
-- of a cycle. A deadline that passes is the end of the list of arrivals.
pub mod Above
pub mod Confirms
pub mod Cycle
pub mod Restart
use Prim.Native.Nat.{zero}
use pg_sprite.Applier.Flusher.Transaction.{flush}
use pg_sprite.Applier.Flusher.Writes.{Written}
use pg_sprite.Decode.Slot.{SlotStatus, SlotError, within_lag_ceiling}
use pg_sprite.Applier.Hold.{HoldError, release, hold, requeue}
use pg_sprite.Copier.Types.{is_complete}
use pg_sprite.Applier.Snapshot.{Snapshot}
use pg_sprite.Applier.Flusher.{
  FlushError, Attempt, Result, empty_result, Server, batch_deferred, is_empty, db_error, success,
  collision, raised, table_lock_lost, nil_old_key, absent_again, no_row_to_update,
  no_row_to_complete, omits_column,
}
use pg_sprite.Applier.Buffer.{Buffer, AddError, oldest_pending, new_buffer, add}
use pg_sprite.Applier.Drain.{Batch, empty_batch, drain}
use pg_sprite.Copier.Position.{Position}
use pg_sprite.Decode.Stream.{Stream, StreamError, Arrivals, confirm, next, ended, delivery}
use pg_sprite.Prelude.{
  Bool, List, Option, ℕ, String, false, if◌then◌else◌, length, some, true, ◌+◌, ◌-◌, ◌⊎◌, [], inl,
  inr, leb, ltb, none, ◌%◌, ◌&&◌, ◌==◌, ◌^◌, ◌∷◌, suc, not,
}
use pg_sprite.Prelude.Int64.{Int64, int64, zero64}

pub record CatchupOptions : Type 0 where
  -- In nanoseconds.
  pub interval : Int64
  pub max_changes : Int64
  pub slot_lag_ceiling : Int64

abbrev or_default : Int64 → Int64 → Int64
or_default v d = if v == zero64 then d else v

unfoldable pub with_defaults : CatchupOptions → CatchupOptions
with_defaults o = record {
  interval = or_default o.interval (int64 250000000);
  max_changes = or_default o.max_changes (int64 10000);
  slot_lag_ceiling = or_default o.slot_lag_ceiling (int64 1073741824);
}

pub data InvalidCatchupOptions : Type 0 where
  interval_too_short max_changes_below_one slot_lag_ceiling_below_one : InvalidCatchupOptions

unfoldable pub validate : CatchupOptions → Option InvalidCatchupOptions
validate o =
    if ltb o.interval (int64 1000000)
    then some interval_too_short
    else (if ltb o.max_changes (int64 1)
        then some max_changes_below_one
        else (if ltb o.slot_lag_ceiling (int64 1) then some slot_lag_ceiling_below_one else none))

pub data CycleError : Type 0 where
  stream_failed : StreamError → CycleError
  not_added : AddError → CycleError
  not_held : HoldError → CycleError
  not_flushed : FlushError → CycleError
  cannot_converge snapshot_failed wal_end_failed slot_unread slot_gone : CycleError
  slot_refused : SlotError → CycleError

pub record Status : Type 0 where
  pub delivered : ℕ
  pub confirmed : ℕ
  pub wal_end : ℕ
  pub buffered : ℕ
  pub deferred : ℕ
  pub held : ℕ
  pub invisible : ℕ
  pub applied : ℕ
  pub discarded : ℕ
  pub fallbacks : ℕ
  pub batches_deferred : ℕ

unfoldable pub lag : Status → ℕ
lag s = if leb s.wal_end s.confirmed then 0 else s.wal_end - s.confirmed

pub record Catchup : Type 0 where
  pub stream : Stream
  pub buffer : Buffer
  pub opts : CatchupOptions
  pub status : Status

-- What a cycle meets outside the process.
pub record World : Type 0 where
  -- For each call of Next; what a call leaves unread comes first in the next one's.
  pub arrivals : List Arrivals
  pub paused : Bool
  pub snapshot : Option Snapshot
  pub position : Position
  pub server : Server
  pub report_sent : Bool
  pub wal_end : Option ℕ
  -- No answer, no such slot, or its status.
  pub slot : Option (Option SlotStatus)

unfoldable pub new_catchup : Stream → CatchupOptions → Catchup ⊎ InvalidCatchupOptions
new_catchup s o = elim (validate (with_defaults o)) [
  | some e ↦ inr e
  | none ↦ inl (record {
    stream = s;
    buffer = new_buffer;
    opts = with_defaults o;
    status = record {
      delivered = s.delivered;
      confirmed = s.confirmed;
      wal_end = 0;
      buffered = 0;
      deferred = 0;
      held = 0;
      invisible = 0;
      applied = 0;
      discarded = 0;
      fallbacks = 0;
      batches_deferred = 0;
    };
  })
]

-- The stream and the buffer, and the error that ends a part of a cycle.
abbrev pub Gathered : Type 0
Gathered = (Stream × Buffer) × Option CycleError

-- gather, for as many changes as are left to add
unfoldable pub gather : ℕ → List Arrivals → Stream → Buffer → Gathered
gather n [] s b = ((s, b), none)
gather zero (a ∷ later) s b = ((s, b), none)
gather (suc n) (a ∷ later) s b =
    let r = (next a s).0 in
    let progress_only = gather (suc n) later r.0 b in
    elim r.1 [
      | ended e ↦ ((r.0, b), some (stream_failed e))
      | delivery d ↦ elim d.change [
        | none ↦ progress_only
        | some ev ↦
            let q = add ev b in
            let rest = gather n later r.0 q.0 in
            elim q.1 [ none ↦ rest | some e ↦ ((r.0, q.0), some (not_added e)) ]
      ]
    ]

unfoldable pub copy_landed : Position → Bool
copy_landed pos = is_complete pos.cut && is_empty pos.in_flight_chunks

pub record CycleOutcome : Type 0 where
  pub batch : Batch
  pub result : Result
  pub deferred : Bool
  pub paused : Bool

abbrev pub outcome_of : Batch → Result → Bool → CycleOutcome
outcome_of t r d = record { batch = t; result = r; deferred = d; paused = false }

abbrev pub paused_outcome : CycleOutcome
paused_outcome = record {
  batch = empty_batch;
  result = empty_result;
  deferred = false;
  paused = true;
}

abbrev pub Applied : Type 0
Applied = Buffer × (CycleOutcome ⊎ CycleError)

abbrev pub or_not_held : CycleOutcome → Buffer × Option HoldError → Applied
or_not_held o (b, none) = (b, inl o)
or_not_held o (b, some e) = (b, inr (not_held e))

abbrev pub is_deferral : FlushError → Bool
is_deferral batch_deferred = true
is_deferral db_error = false
is_deferral collision = false
is_deferral table_lock_lost = false
is_deferral nil_old_key = false
is_deferral absent_again = false
is_deferral no_row_to_update = false
is_deferral no_row_to_complete = false
is_deferral omits_column = false

-- What the flush of a drained batch leads to.
unfoldable pub settle_flush : Position → Buffer × Batch → Attempt Written → Applied
settle_flush pos (b, t) (success w) = or_not_held (outcome_of t w.1 false) (hold w.1.held b)
settle_flush pos (b, t) (raised e) =
    if not (is_deferral e)
    then (b, inr (not_flushed e))
    else (if copy_landed pos
        then (b, inr cannot_converge)
        else or_not_held (outcome_of t empty_result true) (requeue t b))

-- The snapshot, which is not read where the buffer is empty.
abbrev pub no_snapshot : Snapshot
no_snapshot = record { read = false; everything = false; xmin = 0; xmax = 0; in_progress = [] }

unfoldable pub snapshot_for : World → Buffer → Option Snapshot
snapshot_for w b = if is_empty b.entries then some no_snapshot else w.snapshot

-- The writable columns are given by their names.
unfoldable pub apply_drain : List String → World → Buffer → Snapshot → Applied
apply_drain names w b snap =
    let drained = drain w.position snap b in
    settle_flush w.position drained (flush w.server names drained.1)

unfoldable pub apply : List String → World → Buffer → Applied
apply names w b = if w.paused then (b, inl paused_outcome) else elim (snapshot_for w b) [
  | none ↦ (b, inr snapshot_failed)
  | some snap ↦ apply_drain names w b snap
]

unfoldable pub confirm_bound : ℕ → ℕ × Bool → ℕ
confirm_bound delivered (oldest, has_pending) =
    if has_pending && ltb oldest delivered then oldest else delivered

unfoldable pub confirm_cycle : Bool → Stream → Buffer → Stream × Option StreamError
confirm_cycle sent s b =
    let bound = confirm_bound s.delivered (oldest_pending b) in
    if leb bound s.confirmed then (s, none) else confirm sent bound s

-- Adding to an unsigned counter of 64 bits.
abbrev pub counted : ℕ → ℕ → ℕ
counted n m = (n + m) % 2 ^ 64

abbrev pub record_outcome : CycleOutcome → Status → Status
record_outcome o s =
    if o.paused
    then s
    else (if o.deferred
        then record s {
          discarded = counted s.discarded o.batch.discarded;
          deferred = o.batch.deferred + length o.batch.entries;
          invisible = o.batch.invisible;
          batches_deferred = counted s.batches_deferred 1;
        }
        else record s {
          discarded = counted s.discarded o.batch.discarded;
          deferred = o.batch.deferred;
          invisible = o.batch.invisible;
          applied = counted s.applied (o.result.images + o.result.deletes);
          fallbacks = if o.result.fallback then counted s.fallbacks 1 else s.fallbacks;
        })

-- `record`
unfoldable pub record_cycle : CycleOutcome → ℕ → Catchup → Catchup
record_cycle o wal_end c = record c {
  status = record (record_outcome o c.status) {
    buffered = length c.buffer.entries;
    held = length c.buffer.pending;
    delivered = c.stream.delivered;
    confirmed = c.stream.confirmed;
    wal_end = wal_end;
  };
}

unfoldable pub check_slot : Int64 → Option (Option SlotStatus) → Option CycleError
check_slot ceiling none = some slot_unread
check_slot ceiling (some none) = some slot_gone
check_slot ceiling (some (some s)) = elim (within_lag_ceiling ceiling s) [
  | none ↦ none
  | some e ↦ some (slot_refused e)
]

-- The cycle from its confirmation on.
unfoldable pub finish_cycle : World → CycleOutcome → Catchup → Catchup × Option CycleError
finish_cycle w o c =
    let (s, failure) = confirm_cycle w.report_sent c.stream c.buffer in
    let confirmed = record c { stream = s } in
    elim failure [
      | some e ↦ (confirmed, some (stream_failed e))
      | none ↦ elim w.wal_end [
        | none ↦ (confirmed, some wal_end_failed)
        | some wal_end ↦
            (record_cycle o wal_end confirmed, check_slot c.opts.slot_lag_ceiling w.slot)
      ]
    ]

-- The cycle from its drain on.
unfoldable pub apply_cycle : List String → World → Catchup → Catchup × Option CycleError
apply_cycle names w c =
    let (b, r) = apply names w (release c.stream.delivered c.buffer).0 in
    elim r [
      | inr e ↦ (record c { buffer = b }, some e)
      | inl o ↦ finish_cycle w o (record c { buffer = b })
    ]

-- The number of changes that the options allow: int64 values below 1 allow none.
abbrev pub changes_left : Int64 → ℕ
changes_left max_changes = max_changes - zero64

unfoldable pub cycle : List String → World → Catchup → Catchup × Option CycleError
cycle names w c =
    let ((s, b), failure) = gather (changes_left c.opts.max_changes) w.arrivals c.stream c.buffer in
    let gathered = record c { stream = s; buffer = b } in
    elim failure [ some e ↦ (gathered, some e) | none ↦ apply_cycle names w gathered ]

-- Run: the cycles until one fails.
unfoldable pub run : List String → List World → Catchup → Catchup × Option CycleError
run names [] c = (c, none)
run names (w ∷ ws) c =
    let (next, failure) = cycle names w c in
    let rest = run names ws next in elim failure [ some e ↦ (next, some e) | none ↦ rest ]
