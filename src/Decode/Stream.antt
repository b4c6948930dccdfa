-- ===== src/Decode/Stream.antt =====
-- pkg/decode/stream.go and pkg/decode/feedback.go: the positions of the stream and the messages that move
-- them. Messages are taken as the replication library parses them, and whether the connection takes a
-- report is an argument. The changes' own write positions, which order nothing, are left out.
pub mod Invariant
pub mod Order
pub mod Stamped
use pg_sprite.Prelude.Int64.{Int64}
use pg_sprite.Prelude.{
  [], ◌∷◌, none, some, true, false, Bool, List, Option, if◌then◌else◌, ℕ, ltb, not, ◌&&◌, ◌==◌,
}
use pg_sprite.Applier.Entry.{ChangeEvent, insert, update, delete, ChangeKind, Column}
use pg_sprite.Decode.Relation.{
  Decoded, decoded, rejected, DecodeError, Relation, RelationMessage, RelationTarget, Tuple,
  new_relation, change_outside_transaction, decode_key, same_shape, ◌>>=◌, change_before_relation,
  decode_columns, foreign_relation,
}

pub data StreamError : Type 0 where
  undecodable : DecodeError → StreamError
  server_error stream_ended outside_copy_mode withheld_changes : StreamError
  empty_message unknown_message malformed_message unknown_output : StreamError
  begin_inside commit_outside shape_changed unsupported_truncate : StreamError
  report_failed receive_failed confirm_below confirm_beyond : StreamError

pub record Stream : Type 0 where
  pub target : RelationTarget
  pub start : ℕ
  pub delivered : ℕ
  pub confirmed : ℕ
  pub server_wal_end : ℕ
  pub relation : Option Relation
  pub in_transaction : Bool
  pub xid : ℕ
  pub failed : Option StreamError

pub record Delivery : Type 0 where
  pub change : Option ChangeEvent
  pub delivered : ℕ

-- A decoded pgoutput message.
pub data Output : Type 0 where
  begin : ℕ → Output
  commit : ℕ → Output
  describes : RelationMessage → Output
  inserts : ℕ → Option Tuple → Output
  updates : ℕ → Option Tuple → Option Tuple → Output
  deletes : ℕ → Option Tuple → Output
  truncates type_or_origin other_output unparsable : Output

pub data Message : Type 0 where
  keepalive : ℕ → Bool → Message
  wal_data : Output → Message
  warning notice parameter_status error_response copy_done : Message
  empty_data malformed_data unknown_data unexpected : Message

-- What a handler comes to: a delivery, nothing for the caller, or an error.
pub data Handled : Type 0 where
  yields : Delivery → Handled
  continues : Handled
  fails : StreamError → Handled

abbrev pub progress : Stream → Delivery
progress s = record { change = none; delivered = s.delivered }

unfoldable pub raise_delivered : ℕ → Stream → Stream
raise_delivered lsn s = if ltb s.delivered lsn then record s { delivered = lsn } else s

-- The relation that the change must name.
unfoldable pub change_relation : ℕ → Stream → Decoded Relation
change_relation id s =
    if not s.in_transaction then rejected change_outside_transaction else elim s.relation [
      | none ↦ rejected change_before_relation
      | some r ↦ if not (id == r.id) then rejected foreign_relation else decoded r
    ]

abbrev pub event : ChangeKind → Int64 → Option Int64 → List Column → ChangeEvent
event kind key old columns = record {
  kind = kind;
  delivered = 0;
  xid = 0;
  key = key;
  old_key = old;
  columns = columns;
}

unfoldable pub decode_insert : ℕ → Option Tuple → Stream → Decoded ChangeEvent
decode_insert id tuple s = change_relation id s >>= λ rel. decode_columns rel tuple >>= λ columns.
    decode_key rel tuple >>= λ key. decoded (event insert key none columns)

-- The key that the row had, where the update moved it.
abbrev pub moved_key : Relation → Int64 → Option Tuple → Decoded (Option Int64)
moved_key rel key none = decoded none
moved_key rel key (some t) =
    decode_key rel (some t) >>= λ old. decoded (if not (old == key) then some old else none)

unfoldable pub decode_update : ℕ → Option Tuple → Option Tuple → Stream → Decoded ChangeEvent
decode_update id old tuple s = change_relation id s >>= λ rel.
    decode_columns rel tuple >>= λ columns. decode_key rel tuple >>= λ key.
    moved_key rel key old >>= λ before. decoded (event update key before columns)

unfoldable pub decode_delete : ℕ → Option Tuple → Stream → Decoded ChangeEvent
decode_delete id old s =
    change_relation id s >>= λ rel. decode_key rel old >>= λ key. decoded (event delete key none [])

unfoldable pub deliver_change : Decoded ChangeEvent → Stream → Handled
deliver_change (rejected e) s = fails (undecodable e)
deliver_change (decoded ev) s = yields (record {
  change = some (record ev { delivered = s.delivered; xid = s.xid });
  delivered = s.delivered;
})

abbrev pub record_new : Relation → Option Relation → Stream → Stream × Handled
record_new rel none s = (record s { relation = some rel }, continues)
record_new rel (some held) s =
    if not (same_shape held rel)
    then (s, fails shape_changed)
    else (record s { relation = some rel }, continues)

abbrev pub record_decoded : Decoded Relation → Stream → Stream × Handled
record_decoded (rejected e) s = (s, fails (undecodable e))
record_decoded (decoded rel) s = record_new rel s.relation s

unfoldable pub record_relation : RelationMessage → Stream → Stream × Handled
record_relation msg s = record_decoded (new_relation msg s.target) s

unfoldable pub handle_wal_data : Output → Stream → Stream × Handled
handle_wal_data (begin xid) s =
    if s.in_transaction
    then (s, fails begin_inside)
    else (record s { in_transaction = true; xid = xid }, continues)
handle_wal_data (commit lsn) s =
    if not s.in_transaction
    then (s, fails commit_outside)
    else (let t = raise_delivered lsn (record s { in_transaction = false }) in
        (t, yields (progress t)))
handle_wal_data (describes msg) s = record_relation msg s
handle_wal_data (inserts id tuple) s = (s, deliver_change (decode_insert id tuple s) s)
handle_wal_data (updates id old tuple) s = (s, deliver_change (decode_update id old tuple s) s)
handle_wal_data (deletes id old) s = (s, deliver_change (decode_delete id old s) s)
handle_wal_data truncates s = (s, fails unsupported_truncate)
handle_wal_data type_or_origin s = (s, continues)
handle_wal_data other_output s = (s, fails unknown_output)
handle_wal_data unparsable s = (s, fails unknown_output)

-- The argument says whether a report goes out.
unfoldable pub handle_keepalive : Bool → ℕ → Bool → Stream → Stream × Handled
handle_keepalive sent wal_end reply s =
    let seen = record s { server_wal_end = wal_end } in
    let t = if not s.in_transaction then raise_delivered wal_end seen else seen in
    if reply && not sent then (t, fails report_failed) else (t, yields (progress t))

unfoldable pub handle_message : Bool → Message → Stream → Stream × Handled
handle_message sent (keepalive wal_end reply) s = handle_keepalive sent wal_end reply s
handle_message sent (wal_data output) s = handle_wal_data output s
handle_message sent warning s = (s, fails withheld_changes)
handle_message sent notice s = (s, continues)
handle_message sent parameter_status s = (s, continues)
handle_message sent error_response s = (s, fails server_error)
handle_message sent copy_done s = (s, fails stream_ended)
handle_message sent empty_data s = (s, fails empty_message)
handle_message sent malformed_data s = (s, fails malformed_message)
handle_message sent unknown_data s = (s, fails unknown_message)
handle_message sent unexpected s = (s, fails outside_copy_mode)

pub data Received : Type 0 where
  delivery : Delivery → Received
  ended : StreamError → Received

-- fail
abbrev pub fail : StreamError → Stream → Stream × Received
fail e s = (record s { failed = some e }, ended e)

-- What reaches the connection within one wait: messages, and then the wait runs out or receiving fails.
pub record Arrivals : Type 0 where
  pub messages : List Message
  pub receive_fails : Bool
  pub sent : Bool

abbrev pub wait_over : Bool → Bool → Stream → Stream × Received
wait_over true sent s = fail receive_failed s
wait_over false true s = (s, delivery (progress s))
wait_over false false s = fail report_failed s

-- The loop of Next, with the messages that were left unread.
unfoldable pub next_loop : Bool → Bool → List Message → Stream → (Stream × Received) × List Message
next_loop broken sent [] s = (wait_over broken sent s, [])
next_loop broken sent (m ∷ ms) s =
    let r = handle_message sent m s in
    elim r.1 [
      | yields d ↦ ((r.0, delivery d), ms)
      | continues ↦ next_loop broken sent ms r.0
      | fails e ↦ (fail e r.0, ms)
    ]

unfoldable pub next : Arrivals → Stream → (Stream × Received) × List Message
next a s = elim s.failed [
  | some e ↦ ((s, ended e), a.messages)
  | none ↦ next_loop a.receive_fails a.sent a.messages s
]

unfoldable pub confirm : Bool → ℕ → Stream → Stream × Option StreamError
confirm sent lsn s = elim s.failed [
  | some e ↦ (s, some e)
  | none ↦
      if ltb lsn s.confirmed
      then (s, some confirm_below)
      else (if ltb s.delivered lsn
          then (s, some confirm_beyond)
          else (if not sent
              then (record s { failed = some report_failed }, some report_failed)
              else (record s { confirmed = lsn }, none)))
]

-- OpenStream, from a position
unfoldable pub open_stream : RelationTarget → ℕ → Stream
open_stream target from = record {
  target = target;
  start = from;
  delivered = from;
  confirmed = 0;
  server_wal_end = 0;
  relation = none;
  in_transaction = false;
  xid = 0;
  failed = none;
}
