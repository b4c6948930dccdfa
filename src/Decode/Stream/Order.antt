-- ===== src/Decode/Stream/Order.antt =====
-- The server sends transactions in the order of their commits, and a keepalive between two of them names a
-- position below the later one. So the delivered position never reaches the commit of a transaction that was
-- not yielded in full.
use pg_sprite.Applier.Entry.{ChangeEvent}
use pg_sprite.Prelude.{
  [], ◌∷◌, none, some, true, false, inl, inr, refl, Bool, ℕ, List, ◌≡◌, arith, Bool-cases, ◌<◌, ltb,
  if◌then◌else◌, Option, not, subst, sym, ◌∙◌, ◌&&◌, ◌++◌,
}
use pg_sprite.Decode.Relation.{
  decoded, rejected, Decoded, RelationMessage, Relation, new_relation, same_shape,
}
use pg_sprite.Decode.Stream.{
  wal_data, keepalive, begin, commit, describes, inserts, updates, deletes, truncates,
  type_or_origin, other_output, unparsable, warning, notice, parameter_status, error_response,
  copy_done, empty_data, malformed_data, unknown_data, unexpected, delivery, ended, yields,
  continues, fails, Stream, deliver_change, handle_message, handle_wal_data, raise_delivered,
  record_relation, Handled, List, Output, handle_keepalive, Message, decode_insert, decode_update,
  decode_delete, begin_inside, not, record_decoded, commit_outside, record_new, progress,
  shape_changed, report_failed, Received, confirm, next, wait_over, Arrivals, next_loop,
  StreamError, fail,
}

-- Every commit still to come lies above the position.
abbrev pub Below : ℕ → List Message → Type 0
Below p [] = Unit {0}
Below p (wal_data (commit lsn) ∷ ms) = (p < lsn) × Below p ms
Below p (m ∷ ms) = Below p ms

-- The order that the server keeps in the messages to come, inside a transaction or between two.
abbrev pub IsOrderly : Bool → List Message → Type 0
IsOrderly inside [] = Unit {0}
IsOrderly inside (wal_data (begin xid) ∷ ms) = IsOrderly true ms
IsOrderly inside (wal_data (commit lsn) ∷ ms) = Below lsn ms × IsOrderly false ms
IsOrderly true (keepalive lsn reply ∷ ms) = IsOrderly true ms
IsOrderly false (keepalive lsn reply ∷ ms) = Below lsn ms × IsOrderly false ms
IsOrderly inside (m ∷ ms) = IsOrderly inside ms

abbrev pub IsAhead : Stream → List Message → Type 0
IsAhead s ms = Below s.delivered ms × IsOrderly s.in_transaction ms

raise-Below :
    (lsn : ℕ) (s : Stream) (ms : List Message)
    → Below s.delivered ms
    → Below lsn ms
    → Below (raise_delivered lsn s).delivered ms
unfolding raise_delivered
raise-Below lsn s ms h g = elim (Bool-cases (ltb s.delivered lsn)) [
  | inl up ↦ rw up g
  | inr stays ↦ rw stays h
]

raised_inside : (lsn : ℕ) (s : Stream) → (raise_delivered lsn s).in_transaction ≡ s.in_transaction
unfolding raise_delivered
raised_inside lsn s = ground arith

-- A change is stamped with the position it was delivered at and with its transaction.
abbrev pub IsStamped : Option ChangeEvent → Stream → Type 0
IsStamped none s = Unit {0}
IsStamped (some ev) s = (ev.delivered ≡ s.delivered) × (ev.xid ≡ s.xid)

-- A handler that does not fail keeps the stream ahead.
abbrev AheadAfter : Stream × Handled → List Message → Type 0
AheadAfter (s, yields d) ms = IsAhead s ms × (d.delivered ≡ s.delivered) × IsStamped d.change s
AheadAfter (s, continues) ms = IsAhead s ms
AheadAfter (s, fails e) ms = Unit {0}

change-Ahead :
    (ev : Decoded ChangeEvent) (s : Stream) (ms : List Message)
    → IsAhead s ms
    → AheadAfter (s, deliver_change ev s) ms
unfolding deliver_change
change-Ahead (decoded ev) s ms a = (a, refl, (refl, refl))
change-Ahead (rejected e) s ms a = tt

if-Ahead :
    (b : Bool) (x y : Stream × Handled) (ms : List Message)
    → (b ≡ true → AheadAfter x ms)
    → (b ≡ false → AheadAfter y ms)
    → AheadAfter (if b then x else y) ms
if-Ahead true x y ms f g = f refl
if-Ahead false x y ms f g = g refl

new-Ahead :
    (rel : Relation) (held : Option Relation) (s : Stream) (ms : List Message)
    → IsAhead s ms
    → AheadAfter (record_new rel held s) ms
new-Ahead rel none s ms a = a
new-Ahead rel (some h) s ms a =
    if-Ahead (not (same_shape h rel)) (s, fails shape_changed)
      (record s { relation = some rel }, continues) ms (λ e. tt) (λ e. a)

decoded-Ahead :
    (d : Decoded Relation) (s : Stream) (ms : List Message)
    → IsAhead s ms
    → AheadAfter (record_decoded d s) ms
decoded-Ahead (rejected e) s ms a = tt
decoded-Ahead (decoded rel) s ms a = new-Ahead rel s.relation s ms a

record-Ahead :
    (msg : RelationMessage) (s : Stream) (ms : List Message)
    → IsAhead s ms
    → AheadAfter (record_relation msg s) ms
unfolding record_relation
record-Ahead msg s ms a = decoded-Ahead (new_relation msg s.target) s ms a

output-Ahead :
    (o : Output) (s : Stream) (ms : List Message)
    → IsAhead s (wal_data o ∷ ms)
    → AheadAfter (handle_wal_data o s) ms
unfolding handle_wal_data
output-Ahead (begin xid) s ms a =
    if-Ahead s.in_transaction (s, fails begin_inside)
      (record s { in_transaction = true; xid = xid }, continues) ms (λ e. tt) (λ e. a)
output-Ahead (commit lsn) s ms a =
    let t = raise_delivered lsn (record s { in_transaction = false }) in
    if-Ahead (not s.in_transaction) (s, fails commit_outside) (t, yields (progress t)) ms (λ e. tt)
      (λ e. (
        (
          raise-Below lsn (record s { in_transaction = false }) ms a.0.1 a.1.0,
          subst (λ b. IsOrderly b ms)
              (sym (raised_inside lsn (record s { in_transaction = false }))) a.1.1,
        ),
        refl,
        tt,
      ))
output-Ahead (describes msg) s ms a = record-Ahead msg s ms a
output-Ahead (inserts id tuple) s ms a = change-Ahead (decode_insert id tuple s) s ms a
output-Ahead (updates id old tuple) s ms a = change-Ahead (decode_update id old tuple s) s ms a
output-Ahead (deletes id old) s ms a = change-Ahead (decode_delete id old s) s ms a
output-Ahead truncates s ms a = tt
output-Ahead type_or_origin s ms a = a
output-Ahead other_output s ms a = tt
output-Ahead unparsable s ms a = tt

kept_alive :
    (lsn : ℕ) (reply inside : Bool) (s : Stream) (ms : List Message)
    → Below s.delivered ms
    → s.in_transaction ≡ inside
    → IsOrderly inside (keepalive lsn reply ∷ ms)
    → IsAhead (if not inside then raise_delivered lsn s else s) ms
kept_alive lsn reply true s ms b e o = (b, subst (λ x. IsOrderly x ms) (sym e) o)
kept_alive lsn reply false s ms b e o =
    (raise-Below lsn s ms b o.0, subst (λ x. IsOrderly x ms) (sym (raised_inside lsn s ∙ e)) o.1)

message-Ahead :
    (sent : Bool) (m : Message) (s : Stream) (ms : List Message)
    → IsAhead s (m ∷ ms)
    → AheadAfter (handle_message sent m s) ms
unfolding handle_message handle_keepalive
message-Ahead sent (wal_data o) s ms a = output-Ahead o s ms a
message-Ahead sent (keepalive lsn reply) s ms a =
    let seen = record s { server_wal_end = lsn } in
    let t = if not s.in_transaction then raise_delivered lsn seen else seen in
    if-Ahead (reply && not sent) (t, fails report_failed) (t, yields (progress t)) ms (λ e. tt)
      (λ e. (kept_alive lsn reply s.in_transaction seen ms a.0 refl a.1, refl, tt))
message-Ahead sent warning s ms a = tt
message-Ahead sent notice s ms a = a
message-Ahead sent parameter_status s ms a = a
message-Ahead sent error_response s ms a = tt
message-Ahead sent copy_done s ms a = tt
message-Ahead sent empty_data s ms a = tt
message-Ahead sent malformed_data s ms a = tt
message-Ahead sent unknown_data s ms a = tt
message-Ahead sent unexpected s ms a = tt

-- What a call of Next leaves, with the messages that it did not read and those that come later.
abbrev pub NextAhead : (Stream × Received) × List Message → List Message → Type 0
NextAhead ((s, delivery d), rest) later =
    IsAhead s (rest ++ later) × (d.delivered ≡ s.delivered) × IsStamped d.change s
NextAhead ((s, ended e), rest) later = Unit {0}

over-Ahead :
    (broken sent : Bool) (s : Stream) (later : List Message)
    → IsAhead s later
    → NextAhead (wait_over broken sent s, []) later
over-Ahead true sent s later a = tt
over-Ahead false true s later a = (a, refl, tt)
over-Ahead false false s later a = tt

abbrev pub go_on :
    Bool → Bool → List Message → Stream × Handled → (Stream × Received) × List Message
go_on broken sent ms r = elim r.1 [
  | yields d ↦ ((r.0, delivery d), ms)
  | continues ↦ next_loop broken sent ms r.0
  | fails e ↦ (fail e r.0, ms)
]

step-Ahead :
    (broken sent : Bool) (ms later : List Message) (r : Stream × Handled)
    → ((s : Stream) → IsAhead s (ms ++ later) → NextAhead (next_loop broken sent ms s) later)
    → AheadAfter r (ms ++ later)
    → NextAhead (go_on broken sent ms r) later
step-Ahead broken sent ms later (s, yields d) go a = a
step-Ahead broken sent ms later (s, continues) go a = go s a
step-Ahead broken sent ms later (s, fails e) go a = tt

loop-Ahead :
    (broken sent : Bool) (ms later : List Message) (s : Stream)
    → IsAhead s (ms ++ later)
    → NextAhead (next_loop broken sent ms s) later
unfolding next_loop
loop-Ahead broken sent [] later s a = over-Ahead broken sent s later a
loop-Ahead broken sent (m ∷ ms) later s a =
    step-Ahead broken sent ms later (handle_message sent m s)
      (λ t h. loop-Ahead broken sent ms later t h) (message-Ahead sent m s (ms ++ later) a)

-- Where the server keeps its order in the messages to come, a call of Next that does not fail leaves the
-- delivered position below every commit still to come. It is the position of what the call yields and of a
-- change in it, so a change is stamped below the commit of its own transaction.
pub next-IsAhead :
    (a : Arrivals) (s : Stream) (later : List Message)
    → IsAhead s (a.messages ++ later)
    → NextAhead (next a s) later
unfolding next
next-IsAhead a s later h = go s.failed
  where
    go :
        (f : Option StreamError)
        → NextAhead
            (elim f [
              | some e ↦ ((s, ended e), a.messages)
              | none ↦ next_loop a.receive_fails a.sent a.messages s
            ])
            later
    go (some e) = tt
    go none = loop-Ahead a.receive_fails a.sent a.messages later s h

confirm_positions :
    (sent : Bool) (lsn : ℕ) (s : Stream)
    → ((confirm sent lsn s).0.delivered ≡ s.delivered)
      × ((confirm sent lsn s).0.in_transaction ≡ s.in_transaction)
unfolding confirm
confirm_positions sent lsn s = ground arith

-- Confirming changes nothing of it.
pub confirm-IsAhead :
    (sent : Bool) (lsn : ℕ) (s : Stream) (ms : List Message)
    → IsAhead s ms
    → IsAhead (confirm sent lsn s).0 ms
confirm-IsAhead sent lsn s ms h =
    let (d, i) = confirm_positions sent lsn s in
    (subst (λ p. Below p ms) (sym d) h.0, subst (λ b. IsOrderly b ms) (sym i) h.1)
