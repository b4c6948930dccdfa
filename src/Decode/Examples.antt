-- ===== src/Decode/Examples.antt =====
-- A stream of one transaction that inserts the row with key 1, and commits at 30.
use pg_sprite.Decode.Stream.Invariant.{next-ended}
use pg_sprite.Prelude.Int64.{int64}
use pg_sprite.Decode.Slot.{SlotStatus, within_lag_ceiling, reserved, is_lost, lag_exceeded}
use pg_sprite.Decode.Stream.Order.{NextAhead, IsAhead, next-IsAhead}
use pg_sprite.Prelude.{List, false, ◌∷◌, ◌≡◌, [], some, true, ◌++◌, Bool, arith, refl, ℕ}
use pg_sprite.Decode.Stream.{
  Arrivals, Stream, next, open_stream, Message, wal_data, begin, commit, ended, truncates,
  describes, keepalive, unsupported_truncate, inserts, confirm,
}
use pg_sprite.Decode.Relation.{RelationMessage, RelationTarget, text_data}
use pg_sprite.Decode.Lsn.{parse_lsn, print_lsn, parse-print_lsn}

parse-print_lsn_example : parse_lsn (print_lsn 4294967296) ≡ some 4294967296
parse-print_lsn_example = parse-print_lsn 4294967296 (omega arith)

abbrev target : RelationTarget
target = record { schema = "public"; table = "t"; oid = 16384; pk_column = "id" }

abbrev described : RelationMessage
described = record {
  relation_id = 16384;
  namespace = "public";
  relation_name = "t";
  identity = 100;
  columns = record { flags = 1; name = "id"; data_type = 20; modifier = 0 } ∷ [];
}

abbrev opened : Stream
opened = open_stream target 10

abbrev transaction : List Message
transaction =
    wal_data (begin 700)
    ∷ wal_data (describes described)
    ∷ wal_data (inserts 16384 (some (text_data "1" ∷ [])))
    ∷ []

abbrev still_to_come : List Message
still_to_come = wal_data (commit 30) ∷ keepalive 40 false ∷ []

abbrev arriving : Arrivals
arriving = record { messages = transaction; receive_fails = false; sent = true }

opened-IsAhead : IsAhead opened (transaction ++ still_to_come)
unfolding open_stream
opened-IsAhead = ((omega arith, tt), (tt, (tt, tt)))

next-IsAhead_example : NextAhead (next arriving opened) still_to_come
next-IsAhead_example = next-IsAhead arriving opened still_to_come opened-IsAhead

abbrev broken : Arrivals
broken = record { messages = wal_data truncates ∷ []; receive_fails = false; sent = true }

broken_ends : (next broken opened).0.1 ≡ ended unsupported_truncate
unfolding next open_stream pg_sprite.Decode.Stream.next_loop pg_sprite.Decode.Stream.handle_message
    pg_sprite.Decode.Stream.handle_wal_data
broken_ends = refl

next-ended_example :
    ((next broken opened).0.0.failed ≡ some unsupported_truncate)
    × ((b : Arrivals)
        → (next b (next broken opened).0.0).0
          ≡ ((next broken opened).0.0, ended unsupported_truncate))
    × ((sent : Bool) (lsn : ℕ)
        → confirm sent lsn (next broken opened).0.0
          ≡ ((next broken opened).0.0, some unsupported_truncate))
next-ended_example = next-ended broken opened unsupported_truncate broken_ends

abbrev slot : SlotStatus
slot = record { wal_status = reserved; retained = record { known = true; bytes = int64 4096 } }

over_ceiling : within_lag_ceiling (int64 1024) slot ≡ some lag_exceeded
unfolding within_lag_ceiling is_lost
over_ceiling = refl
