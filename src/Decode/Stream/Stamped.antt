-- ===== src/Decode/Stream/Stamped.antt =====
-- Every change that Next yields is stamped with the delivered position of the stream.
use mathlib.Core.Bool.{false}
use mathlib.Core.Option.{none}
use mathlib.Core.List.{[]}
use pg_sprite.Decode.Stream.Order.{IsStamped, go_on}
use pg_sprite.Applier.Entry.{ChangeEvent}
use pg_sprite.Decode.Relation.{Decoded, Relation, decoded, rejected, same_shape, new_relation}
use pg_sprite.Prelude.{Bool, List, Option, ◌∷◌, not, refl, true, if◌then◌else◌, ◌&&◌}
use pg_sprite.Decode.Stream.{
  report_failed, Stream, deliver_change, handle_message, handle_wal_data, next, next_loop, Arrivals,
  Handled, List, Received, handle_keepalive, record_decoded, record_relation, wait_over, Message,
  Output, StreamError, delivery, record_new, yields, begin, some, wal_data, ended, fails, keepalive,
  begin_inside, continues, shape_changed, commit, raise_delivered, commit_outside, progress,
  describes, inserts, decode_insert, updates, decode_update, deletes, decode_delete, truncates,
  type_or_origin, other_output, unparsable, report_failed, warning, notice, parameter_status,
  error_response, copy_done, empty_data, malformed_data, unknown_data, unexpected,
}

abbrev pub StampedHandled : Stream × Handled → Type 0
StampedHandled (s, yields d) = IsStamped d.change s
StampedHandled (s, continues) = Unit {0}
StampedHandled (s, fails e) = Unit {0}

abbrev pub StampedReceived : Stream × Received → Type 0
StampedReceived (s, delivery d) = IsStamped d.change s
StampedReceived (s, ended e) = Unit {0}

abbrev StampedNext : (Stream × Received) × List Message → Type 0
StampedNext q = StampedReceived q.0

change-Stamped : (ev : Decoded ChangeEvent) (s : Stream) → StampedHandled (s, deliver_change ev s)
unfolding deliver_change
change-Stamped (decoded ev) s = (refl, refl)
change-Stamped (rejected e) s = tt

if-Stamped :
    (b : Bool) (x y : Stream × Handled)
    → StampedHandled x
    → StampedHandled y
    → StampedHandled (if b then x else y)
if-Stamped true x y h g = h
if-Stamped false x y h g = g

new-Stamped :
    (rel : Relation) (held : Option Relation) (s : Stream) → StampedHandled (record_new rel held s)
new-Stamped rel none s = tt
new-Stamped rel (some h) s =
    if-Stamped (not (same_shape h rel)) (s, fails shape_changed)
      (record s { relation = some rel }, continues) tt tt

relation-Stamped : (d : Decoded Relation) (s : Stream) → StampedHandled (record_decoded d s)
relation-Stamped (rejected e) s = tt
relation-Stamped (decoded rel) s = new-Stamped rel s.relation s

output-Stamped : (o : Output) (s : Stream) → StampedHandled (handle_wal_data o s)
unfolding handle_wal_data record_relation
output-Stamped (begin xid) s =
    if-Stamped s.in_transaction (s, fails begin_inside)
      (record s { in_transaction = true; xid = xid }, continues) tt tt
output-Stamped (commit lsn) s =
    let t = raise_delivered lsn (record s { in_transaction = false }) in
    if-Stamped (not s.in_transaction) (s, fails commit_outside) (t, yields (progress t)) tt tt
output-Stamped (describes msg) s = relation-Stamped (new_relation msg s.target) s
output-Stamped (inserts id tuple) s = change-Stamped (decode_insert id tuple s) s
output-Stamped (updates id old tuple) s = change-Stamped (decode_update id old tuple s) s
output-Stamped (deletes id old) s = change-Stamped (decode_delete id old s) s
output-Stamped truncates s = tt
output-Stamped type_or_origin s = tt
output-Stamped other_output s = tt
output-Stamped unparsable s = tt

message-Stamped :
    (sent : Bool) (m : Message) (s : Stream) → StampedHandled (handle_message sent m s)
unfolding handle_message handle_keepalive
message-Stamped sent (wal_data o) s = output-Stamped o s
message-Stamped sent (keepalive lsn reply) s =
    let seen = record s { server_wal_end = lsn } in
    let t = if not s.in_transaction then raise_delivered lsn seen else seen in
    if-Stamped (reply && not sent) (t, fails report_failed) (t, yields (progress t)) tt tt
message-Stamped sent warning s = tt
message-Stamped sent notice s = tt
message-Stamped sent parameter_status s = tt
message-Stamped sent error_response s = tt
message-Stamped sent copy_done s = tt
message-Stamped sent empty_data s = tt
message-Stamped sent malformed_data s = tt
message-Stamped sent unknown_data s = tt
message-Stamped sent unexpected s = tt

over-Stamped : (broken sent : Bool) (s : Stream) → StampedReceived (wait_over broken sent s)
over-Stamped true sent s = tt
over-Stamped false true s = tt
over-Stamped false false s = tt

step-Stamped :
    (broken sent : Bool) (ms : List Message) (r : Stream × Handled)
    → ((s : Stream) → StampedReceived (next_loop broken sent ms s).0)
    → StampedHandled r
    → StampedReceived (go_on broken sent ms r).0
step-Stamped broken sent ms (s, yields d) go h = h
step-Stamped broken sent ms (s, continues) go h = go s
step-Stamped broken sent ms (s, fails e) go h = tt

loop-Stamped :
    (broken sent : Bool) (ms : List Message) (s : Stream)
    → StampedReceived (next_loop broken sent ms s).0
unfolding next_loop
loop-Stamped broken sent [] s = over-Stamped broken sent s
loop-Stamped broken sent (m ∷ ms) s =
    step-Stamped broken sent ms (handle_message sent m s) (λ t. loop-Stamped broken sent ms t)
      (message-Stamped sent m s)

-- Whatever arrives, in any order.
pub next-Stamped : (a : Arrivals) (s : Stream) → StampedReceived (next a s).0
unfolding next
next-Stamped a s = go s.failed
  where
    go :
        (f : Option StreamError)
        → StampedNext (elim f [
          | some e ↦ ((s, ended e), a.messages)
          | none ↦ next_loop a.receive_fails a.sent a.messages s
        ])
    go (some e) = tt
    go none = loop-Stamped a.receive_fails a.sent a.messages s
