-- ===== src/Applier/CycleExamples.antt =====
-- Flushes and cycles at concrete inputs: a delete at key 1, and an image at key 2.
use pg_sprite.Applier.Buffer.Invariant.{new_buffer-Inv}
use pg_sprite.Applier.Catchup.Confirms.{Sound}
use pg_sprite.Decode.Slot.{reserved}
use pg_sprite.Applier.Snapshot.{all_visible}
use pg_sprite.Prelude.Assoc
use pg_sprite.Applier.Buffer.{new_buffer}
use pg_sprite.Copier.Types.{new_watermark}
use pg_sprite.Applier.Flusher.Outcome.{Flushed, flush-Flushed}
use pg_sprite.Applier.Hold.Unique.{Unique}
use pg_sprite.Prelude.Int64.{int64}
use pg_sprite.Applier.Catchup.Restart.{Resumes, unapplied_in, run-Resumes}
use pg_sprite.Decode.Stream.{open_stream, keepalive}
use pg_sprite.Applier.Catchup.{Catchup, World, cycle, run}
use pg_sprite.Copier.Position.{Position}
use pg_sprite.Decode.Relation.{RelationTarget}
use pg_sprite.Applier.Flusher.Transaction.{flush}
use pg_sprite.Applier.Drain.Fate.{find_entry}
use pg_sprite.Applier.Flusher.{
  Holds, Server, absent, success, delete_row, affected, upsert_row, empty_result,
}
use pg_sprite.Applier.Drain.{Batch, empty_batch}
use pg_sprite.Applier.Entry.{Column, Entry, text, delete_marker, image}
use pg_sprite.Prelude.{List, String, false, ◌≡◌, [], refl, true, ◌∷◌, none, some, arith}

abbrev names : List String
names = "name" ∷ []

abbrev name_column : Column
name_column = record { name = "name"; value = text "a"; present = true }

abbrev gone : Entry
gone = record {
  key = int64 1;
  kind = delete_marker;
  old_key = none;
  old_key_reused = false;
  absence_awaited = false;
  columns = [];
  first_lsn = 20;
  xid = 700;
}

abbrev written : Entry
written = record gone { key = int64 2; kind = image; columns = name_column ∷ [] }

abbrev batch : Batch
batch = record empty_batch { entries = gone ∷ written ∷ [] }

-- A database on which everything succeeds.
abbrev server : Server
server = record {
  begin_fails = false;
  conversions_fail = false;
  shadow_row = λ k ns. absent;
  source_row = λ k ns. absent;
  shadow_keys = λ ks. some ((λ k. true), 30);
  reread_row = λ k ns. absent;
  save_fails = false;
  release_fails = false;
  execute = λ sts st. affected 1;
  unresolved = false;
  commit_fails = false;
  lock_lost = false;
}

batch-Unique : Unique batch.entries
unfolding find_entry
batch-Unique = (refl, (refl, tt))

flush-Flushed_example : Holds (Flushed names (gone ∷ written ∷ [])) (flush server names batch)
flush-Flushed_example = flush-Flushed server names batch batch-Unique

flush_deletes_first :
    flush server names batch
    ≡ success (
      delete_row (int64 1) ∷ upsert_row (int64 2) (name_column ∷ []) ∷ [],
      record empty_result { images = 1; deletes = 1 },
    )
unfolding flush pg_sprite.Applier.Flusher.Transaction.flush_transaction
    pg_sprite.Applier.Flusher.Transaction.apply pg_sprite.Applier.Flusher.Moved.complete_moved
    pg_sprite.Applier.Drain.complete_first pg_sprite.Applier.Flusher.Moved.hold_absent
    pg_sprite.Applier.Flusher.Moved.checked_keys pg_sprite.Applier.Flusher.Moved.checks_shadow_row
    pg_sprite.Applier.Flusher.split pg_sprite.Applier.Entry.find_column
    pg_sprite.Applier.Flusher.Writes.apply_column_wise pg_sprite.Applier.Flusher.Writes.write_pass
    pg_sprite.Applier.Flusher.Writes.write pg_sprite.Applier.Flusher.Writes.run
    pg_sprite.Applier.Flusher.Writes.write_image
flush_deletes_first = refl

abbrev target : RelationTarget
target = record { schema = "public"; table = "t"; oid = 16384; pk_column = "id" }

abbrev position : Position
position = record {
  watermark = new_watermark (int64 10);
  cut = new_watermark (int64 10);
  in_flight_chunks = [];
  pending = [];
  rows_inserted = int64 1;
}

-- A keepalive raises the delivered position to 40.
abbrev world : World
world = record {
  arrivals = record { messages = keepalive 40 false ∷ []; receive_fails = false; sent = true } ∷ [];
  paused = false;
  snapshot = some all_visible;
  position = position;
  server = server;
  report_sent = true;
  wal_end = some 50;
  slot = some (
      some
        (record { wal_status = reserved; retained = record { known = true; bytes = int64 4096 } }));
}

abbrev started : Catchup
started = record {
  stream = open_stream target 10;
  buffer = new_buffer;
  opts = record {
    interval = int64 250000000;
    max_changes = int64 3;
    slot_lag_ceiling = int64 1073741824;
  };
  status = record {
    delivered = 10;
    confirmed = 0;
    wal_end = 0;
    buffered = 0;
    deferred = 0;
    held = 0;
    invisible = 0;
    applied = 0;
    discarded = 0;
    fallbacks = 0;
    batches_deferred = 0;
  };
}

started-Sound : Sound started.stream started.buffer
unfolding open_stream new_buffer Assoc.lookup
started-Sound = record { inv = new_buffer-Inv; ceiling = omega arith; above = λ k. refl }

run-Resumes_example :
    Resumes started.stream.confirmed
      (unapplied_in names (world ∷ world ∷ []) started)
      (run names (world ∷ world ∷ []) started)
run-Resumes_example = run-Resumes names (world ∷ world ∷ []) started started-Sound

cycle_confirms : (cycle names world started).0.stream.confirmed ≡ 40
unfolding cycle pg_sprite.Applier.Catchup.gather pg_sprite.Decode.Stream.next open_stream
    pg_sprite.Decode.Stream.next_loop pg_sprite.Decode.Stream.handle_message
    pg_sprite.Decode.Stream.handle_keepalive pg_sprite.Decode.Stream.raise_delivered
    pg_sprite.Applier.Catchup.apply_cycle pg_sprite.Applier.Catchup.apply
    pg_sprite.Applier.Catchup.snapshot_for pg_sprite.Applier.Hold.release
    pg_sprite.Applier.Hold.release_loop new_buffer pg_sprite.Applier.Catchup.apply_drain
    pg_sprite.Applier.Catchup.settle_flush flush pg_sprite.Applier.Drain.drain
    pg_sprite.Applier.Drain.drain_loop pg_sprite.Applier.Drain.sort_by_key
    pg_sprite.Applier.Hold.hold pg_sprite.Applier.Hold.first_taken pg_sprite.Applier.Hold.hold_loop
    pg_sprite.Applier.Catchup.finish_cycle pg_sprite.Applier.Catchup.confirm_cycle
    pg_sprite.Applier.Catchup.confirm_bound pg_sprite.Applier.Buffer.oldest_pending
    pg_sprite.Decode.Stream.confirm pg_sprite.Applier.Catchup.record_cycle empty_batch
cycle_confirms = refl
