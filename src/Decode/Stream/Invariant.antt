-- ===== src/Decode/Stream/Invariant.antt =====
-- What every call of the stream keeps: the confirmed position never passes the delivered one, the delivered
-- one never falls, and a stream that failed stays as it is.
use pg_sprite.Decode.Relation.{RelationMessage}
use pg_sprite.Decode.Stream.{
  describes, wal_data, Arrivals, Stream, confirm, handle_message, handle_wal_data, next, next_loop,
  record_relation, Bool, handle_keepalive, raise_delivered, Message, Output, StreamError, ended,
}
use pg_sprite.Prelude.{[], ◌∷◌, some, true, false, Bool, arith, ◌≡◌, ◌≤◌, List, ℕ}

-- The positions after a call, from those before it.
pub record Advances (s t : Stream) : Type 0 where
  pub ceiling : s.confirmed ≤ s.delivered → t.confirmed ≤ t.delivered
  pub delivered_rises : s.delivered ≤ t.delivered
  pub confirmed_rises : s.confirmed ≤ t.confirmed

pub same-Advances : (s : Stream) → Advances s s
same-Advances s = record {
  ceiling = λ h. h;
  delivered_rises = omega arith;
  confirmed_rises = omega arith;
}

trans-Advances : (s t u : Stream) → Advances s t → Advances t u → Advances s u
trans-Advances s t u a b = record {
  ceiling = λ h. b.ceiling (a.ceiling h);
  delivered_rises = omega (arith, a.delivered_rises, b.delivered_rises);
  confirmed_rises = omega (arith, a.confirmed_rises, b.confirmed_rises);
}

-- A call of a handler leaves the confirmed position alone.
abbrev pub Kept : Stream → Stream → Type 0
Kept s t = (t.confirmed ≡ s.confirmed) × (s.delivered ≤ t.delivered)

Kept-Advances : (s t : Stream) → Kept s t → Advances s t
Kept-Advances s t k = record {
  ceiling = λ h. omega (arith, k, h);
  delivered_rises = k.1;
  confirmed_rises = omega (arith, k);
}

record-Kept : (msg : RelationMessage) (s : Stream) → Kept s (record_relation msg s).0
unfolding record_relation
record-Kept msg s = ground arith

wal-Kept : (o : Output) (s : Stream) → Kept s (handle_wal_data o s).0
unfolding handle_wal_data raise_delivered
wal-Kept (describes msg) s = record-Kept msg s
wal-Kept o s = ground arith

message-Kept : (sent : Bool) (m : Message) (s : Stream) → Kept s (handle_message sent m s).0
unfolding handle_message handle_keepalive raise_delivered
message-Kept sent (wal_data o) s = wal-Kept o s
message-Kept sent m s = ground arith

loop-Kept :
    (broken sent : Bool) (ms : List Message) (s : Stream) → Kept s (next_loop broken sent ms s).0.0
unfolding next_loop
loop-Kept broken sent [] s = ground arith
loop-Kept broken sent (m ∷ ms) s =
    ground (arith, message-Kept sent m s, loop-Kept broken sent ms (handle_message sent m s).0)

pub next-Kept : (a : Arrivals) (s : Stream) → Kept s (next a s).0.0
unfolding next
next-Kept a s = ground (arith, loop-Kept a.receive_fails a.sent a.messages s)

-- A call of Next moves the delivered position forward only, and leaves the confirmed one.
pub next-Advances : (a : Arrivals) (s : Stream) → Advances s (next a s).0.0
next-Advances a s = Kept-Advances s (next a s).0.0 (next-Kept a s)

pub confirm-Advances : (sent : Bool) (lsn : ℕ) (s : Stream) → Advances s (confirm sent lsn s).0
unfolding confirm
confirm-Advances sent lsn s = record {
  ceiling = ground arith;
  delivered_rises = ground arith;
  confirmed_rises = ground arith;
}

loop-ended :
    (broken sent : Bool) (ms : List Message) (s : Stream) (e : StreamError)
    → (next_loop broken sent ms s).0.1 ≡ ended e
    → (next_loop broken sent ms s).0.0.failed ≡ some e
unfolding next_loop
loop-ended true sent [] s e h = ground arith
loop-ended false true [] s e h = absurd (ground arith)
loop-ended false false [] s e h = ground arith
loop-ended broken sent (m ∷ ms) s e h =
    ground (arith, loop-ended broken sent ms (handle_message sent m s).0 e)

recorded :
    (a : Arrivals) (s : Stream) (e : StreamError)
    → (next a s).0.1 ≡ ended e
    → (next a s).0.0.failed ≡ some e
unfolding next
recorded a s e h = ground (arith, loop-ended a.receive_fails a.sent a.messages s e)

later :
    (b : Arrivals) (s : Stream) (e : StreamError) → s.failed ≡ some e → (next b s).0 ≡ (s, ended e)
unfolding next
later b s e at = ground (arith, at)

refused :
    (sent : Bool) (lsn : ℕ) (s : Stream) (e : StreamError)
    → s.failed ≡ some e
    → confirm sent lsn s ≡ (s, some e)
unfolding confirm
refused sent lsn s e at = ground (arith, at)

-- An error of Next ends the stream: the call of Next that returns one records it, and every later call of Next or
-- of Confirm returns that error and changes nothing.
pub next-ended :
    (a : Arrivals) (s : Stream) (e : StreamError)
    → (next a s).0.1 ≡ ended e
    → ((next a s).0.0.failed ≡ some e)
      × ((b : Arrivals) → (next b (next a s).0.0).0 ≡ ((next a s).0.0, ended e))
      × ((sent : Bool) (lsn : ℕ) → confirm sent lsn (next a s).0.0 ≡ ((next a s).0.0, some e))
next-ended a s e h =
    let at = recorded a s e h in
    (at, λ b. later b (next a s).0.0 e at, λ sent lsn. refused sent lsn (next a s).0.0 e at)
