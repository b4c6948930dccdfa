-- ===== src/Applier/Examples.antt =====
-- A buffer at concrete inputs: a row moves from key 1 to key 2 with a marker for its unchanged
-- column, and another row then takes key 1.
use pg_sprite.Applier.Drain.Oldest.{Bounds, drain-Bounds}
use pg_sprite.Applier.Drain.Travel.{drain-travels}
use pg_sprite.Applier.Hold.Return.{requeue-drain}
use pg_sprite.Applier.Drain.Progress.{drain-counted, drain-frees}
use pg_sprite.Applier.Hold.Release.{completed_by, waiting, release_keys}
use pg_sprite.Prelude.Assoc.{HasKeysOnce}
use pg_sprite.Applier.Hold.Unique.{Unique}
use pg_sprite.Applier.Drain.Preserve.{drain-Inv}
use pg_sprite.Copier.Types.{new_watermark}
use pg_sprite.Applier.Hold.{HeldImage, hold, release, requeue, entries_of}
use pg_sprite.Applier.Drain.Fate.{find_entry}
use pg_sprite.Applier.Drain.{Batch, drain, empty_batch, oldest_first_lsn}
use pg_sprite.Applier.Drain.Safety.{Fate, drain-Fate}
use pg_sprite.Applier.Snapshot.{Snapshot, visible, all_visible, is_in_progress, visible_iff}
use pg_sprite.Applier.Buffer.Moves.{add-Meets}
use pg_sprite.Applier.Buffer.Invariant.{new_buffer-Inv, is_some}
use pg_sprite.Applier.Buffer.Knowledge.{spec, view}
use pg_sprite.Applier.Buffer.Adds.{add-Inv}
use pg_sprite.Applier.Buffer.Refinement.{Meets}
use pg_sprite.Applier.Buffer.Invariant.{Inv}
use pg_sprite.Prelude.Int64.{int64, Int64}
use pg_sprite.Prelude.Assoc
use pg_sprite.Copier.Position.{in_flight, uncut, Position, classify}
use pg_sprite.Prelude.{
  [], ◌∷◌, none, some, true, false, length, ◌≡◌, refl, ◌%◌, ◌+◌, ◌≢◌, ◌⊎◌, arith, ◌^◌, ◌↔◌, ◌<◌,
}
use pg_sprite.Applier.Entry.{
  ChangeEvent, insert, update, text, Column, Entry, find_column, image, assign, overlay, has_marker,
}
use pg_sprite.Applier.Buffer.{
  Buffer, new_buffer, add, has_pair, mark_image, add_delete, add_kind, add_update, earlier, is_key,
  mark_entry, overlay_entry, update_or_move, add_insert, add_key_move, put, track_oldest, index,
  drop_pending, unindex, moved_image, mark_old_key_reused, mark_images, first_lsn, drop_pair,
  oldest_pending,
}

abbrev name_column : Column
name_column = record { name = "name"; value = text "a"; present = true }

abbrev unchanged_column : Column
unchanged_column = record { name = "body"; value = text ""; present = false }

abbrev moves : ChangeEvent
moves = record {
  kind = update;
  delivered = 5;
  xid = 700;
  key = int64 2;
  old_key = some (int64 1);
  columns = name_column ∷ unchanged_column ∷ [];
}

abbrev takes : ChangeEvent
takes = record {
  kind = insert;
  delivered = 6;
  xid = 701;
  key = int64 1;
  old_key = none;
  columns = name_column ∷ [];
}

abbrev moved : Buffer
moved = (add moves new_buffer).0

add-Inv_example : Inv (add moves new_buffer).0
add-Inv_example = add-Inv moves new_buffer new_buffer-Inv

add-Meets_example : Meets (spec takes (view moved)) moved (add takes moved)
add-Meets_example = add-Meets takes moved (add-Inv moves new_buffer new_buffer-Inv)

-- Chunk 1 to 10 has landed, and nothing above 10 is cut; transaction 701 is still in progress.
abbrev reached : Position
reached = record {
  watermark = new_watermark (int64 10);
  cut = new_watermark (int64 10);
  in_flight_chunks = [];
  pending = [];
  rows_inserted = int64 1;
}

abbrev seen : Snapshot
seen = record { read = true; everything = false; xmin = 701; xmax = 705; in_progress = 701 ∷ [] }

moved-Inv : Inv moved
moved-Inv = add-Inv moves new_buffer new_buffer-Inv

abbrev both : Buffer
both = (add takes moved).0

both-Inv : Inv both
both-Inv = add-Inv takes moved moved-Inv

abbrev image_at_two : Entry
image_at_two = record {
  key = int64 2;
  kind = image;
  old_key = some (int64 1);
  old_key_reused = true;
  absence_awaited = false;
  columns = name_column ∷ unchanged_column ∷ [];
  first_lsn = 5;
  xid = 700;
}

abbrev image_at_one : Entry
image_at_one = record {
  key = int64 1;
  kind = image;
  old_key = none;
  old_key_reused = false;
  absence_awaited = false;
  columns = name_column ∷ [];
  first_lsn = 5;
  xid = 701;
}

two_stands : Assoc.lookup (int64 2) both.entries ≡ some image_at_two
unfolding Assoc.lookup add new_buffer Assoc.insert Assoc.delete mark_image add_delete add_kind
    add_update earlier is_key mark_entry overlay_entry update_or_move add_insert add_key_move put
    track_oldest index drop_pending unindex moved_image mark_old_key_reused mark_images first_lsn
    drop_pair assign overlay has_marker
two_stands = refl

one_stands : Assoc.lookup (int64 1) both.entries ≡ some image_at_one
unfolding Assoc.lookup add new_buffer Assoc.insert Assoc.delete mark_image add_delete add_kind
    add_update earlier is_key mark_entry overlay_entry update_or_move add_insert add_key_move put
    track_oldest index drop_pending unindex moved_image mark_old_key_reused mark_images first_lsn
    drop_pair assign overlay has_marker
one_stands = refl

drain-Fate_example :
    Fate reached seen both
      (int64 2)
      image_at_two
      (drain reached seen both).0
      (drain reached seen both).1
drain-Fate_example = drain-Fate reached seen both (int64 2) image_at_two both-Inv two_stands

drain-Inv_example : Inv (drain reached seen both).0
drain-Inv_example = drain-Inv reached seen both both-Inv

drain-travels_example :
    (find_entry (int64 2) (drain reached seen both).1.entries ≡ some image_at_two
      → (Assoc.lookup (int64 1) (drain reached seen both).0.entries ≡ none)
        ⊎ (is_some (Assoc.lookup (int64 1) both.pending) ≡ true))
    × (visible seen 700 ≡ false → find_entry (int64 1) (drain reached seen both).1.entries ≡ none)
drain-travels_example =
    drain-travels reached seen both (int64 2) (int64 1) image_at_two image_at_one both-Inv
      two_stands refl one_stands

drain-counted_example :
    length (drain reached seen both).1.entries
      + (drain reached seen both).1.discarded
      + (drain reached seen both).1.deferred
      + (drain reached seen both).1.held
      + (drain reached seen both).1.invisible
    ≡ length both.entries
drain-counted_example = drain-counted reached seen both

abbrev alone : Buffer
alone = (add takes new_buffer).0

abbrev alone_image : Entry
alone_image = record image_at_one { first_lsn = 6 }

alone_stands : Assoc.lookup (int64 1) alone.entries ≡ some alone_image
unfolding Assoc.lookup add add_insert new_buffer pg_sprite.Applier.Entry.has_marker put track_oldest
    index drop_pending unindex mark_old_key_reused mark_images Assoc.insert first_lsn
alone_stands = refl

alone_free : Assoc.lookup (int64 1) alone.pending ≡ none
unfolding Assoc.lookup add add_insert new_buffer pg_sprite.Applier.Entry.has_marker put track_oldest
    index drop_pending unindex mark_old_key_reused mark_images Assoc.delete
alone_free = refl

alone_unmoved : (j : Int64) → has_pair (int64 1) j alone.moved_from ≡ false
unfolding has_pair add add_insert Assoc.lookup new_buffer pg_sprite.Applier.Entry.has_marker put
    track_oldest index drop_pending unindex mark_old_key_reused mark_images
alone_unmoved j = refl

alone_seen : visible all_visible 701 ≡ true
unfolding visible all_visible
alone_seen = refl

alone_landed : classify reached (int64 1) ≢ in_flight
unfolding classify
alone_landed e = ground arith

drain-frees_example : Assoc.lookup (int64 1) (drain reached all_visible alone).0.entries ≡ none
drain-frees_example =
    drain-frees reached all_visible alone (int64 1) alone_image
      (add-Inv takes new_buffer new_buffer-Inv) alone_stands alone_free alone_seen refl
      alone_unmoved alone_landed

requeue-drain_example :
    ((requeue (drain reached seen both).1 (drain reached seen both).0).1 ≡ none)
    × ((k : Int64)
        → classify reached k ≢ uncut
        → Assoc.lookup k (requeue (drain reached seen both).1 (drain reached seen both).0).0.entries
          ≡ Assoc.lookup k both.entries)
requeue-drain_example = requeue-drain reached seen both both-Inv

abbrev batch : Batch
batch = record empty_batch { entries = image_at_two ∷ [] }

batch-Unique : Unique batch.entries
unfolding find_entry
batch-Unique = (refl, tt)

abbrev held : HeldImage
held = record {
  entry = image_at_two;
  completed = record { name = "body"; value = text "b"; present = true } ∷ [];
  from_source = false;
  read_lsn = 8;
}

held-Unique : Unique (entries_of (held ∷ []))
unfolding find_entry
held-Unique = (refl, tt)

abbrev holding : Buffer
holding = (hold (held ∷ []) new_buffer).0

holding_once : HasKeysOnce holding.pending
unfolding hold Assoc.lookup pg_sprite.Applier.Hold.first_taken new_buffer
    pg_sprite.Applier.Hold.hold_loop Assoc.insert Assoc.delete put track_oldest index drop_pending
    unindex
holding_once = (refl, tt)

holding_stands : Assoc.lookup (int64 2) holding.entries ≡ some image_at_two
unfolding Assoc.lookup hold pg_sprite.Applier.Hold.first_taken new_buffer
    pg_sprite.Applier.Hold.hold_loop put track_oldest index drop_pending unindex Assoc.insert
holding_stands = refl

release_keys_example :
    (Assoc.lookup (int64 2) (release 9 holding).0.entries
      ≡ completed_by 9
          (Assoc.lookup (int64 2) holding.pending)
          (Assoc.lookup (int64 2) holding.entries))
    × (Assoc.lookup (int64 2) (release 9 holding).0.pending
        ≡ waiting 9 (Assoc.lookup (int64 2) holding.pending))
release_keys_example = release_keys 9 holding (int64 2) holding_once

visible_iff_example :
    (visible seen (700 % 2 ^ 32) ≡ true)
    ↔ ((700 < 701) ⊎ ((700 < 705) × (is_in_progress 700 seen.in_progress ≡ false)))
visible_iff_example =
    visible_iff seen 700 (omega arith) (omega arith) (omega arith) (omega arith) refl refl

one_reached : classify reached (int64 1) ≢ uncut
unfolding classify new_watermark
one_reached e = ground arith

drain-Bounds_example :
    Bounds (oldest_first_lsn (drain reached all_visible alone).1) alone_image.first_lsn
    ⊎ Bounds (oldest_pending (drain reached all_visible alone).0) alone_image.first_lsn
drain-Bounds_example =
    drain-Bounds reached all_visible alone (int64 1) alone_image
      (add-Inv takes new_buffer new_buffer-Inv) alone_stands one_reached
