-- ===== src/Applier/Flusher/Transaction.antt =====
-- `apply`, `flush` and `Flush` of pkg/applier/flusher.go: a batch in one transaction.
use pg_sprite.Applier.Flusher.Moved.{complete_moved, hold_absent}
use pg_sprite.Applier.Drain.{Batch}
use pg_sprite.Applier.Entry.{Entry}
use pg_sprite.Applier.Flusher.Writes.{Written, apply_whole_rows, apply_column_wise}
use pg_sprite.Prelude.{Bool, List, true, String, false, if◌then◌else◌, not, ◌||◌, [], ◌∷◌}
use pg_sprite.Applier.Flusher.{
  Attempt, FlushError, Server, List, String, raised, success, Entry, Result, table_lock_lost,
  batch_deferred, db_error, ◌>>=◌, empty_result, collision, nil_old_key, absent_again,
  no_row_to_update, no_row_to_complete, omits_column,
}

abbrev pub is_collision : FlushError → Bool
is_collision collision = true
is_collision db_error = false
is_collision batch_deferred = false
is_collision table_lock_lost = false
is_collision nil_old_key = false
is_collision absent_again = false
is_collision no_row_to_update = false
is_collision no_row_to_complete = false
is_collision omits_column = false

-- A collision of the fallback defers the batch.
abbrev pub or_deferred : Attempt Written → Attempt Written
or_deferred (success w) = success w
or_deferred (raised e) = raised (if is_collision e then batch_deferred else e)

-- The fallback takes over where a constraint refused the column-wise writes, which are rolled back.
abbrev pub or_whole_rows :
    Server → List String → Result × List Entry → Attempt Written → Attempt Written
or_whole_rows sv names q (success w) = success w
or_whole_rows sv names (r, es) (raised e) =
    if not (is_collision e)
    then raised e
    else or_deferred (
        apply_whole_rows sv names es
          (record empty_result { held = r.held; skipped = r.skipped; fallback = true }))

unfoldable pub apply : Server → List String → List Entry → Attempt Written
apply sv names es =
    if sv.conversions_fail
    then raised db_error
    else complete_moved sv names es >>= λ p. hold_absent sv names p >>= λ q.
        or_whole_rows sv names q (apply_column_wise sv names q.1 q.0)

unfoldable pub flush_transaction : Server → List String → List Entry → Attempt Written
flush_transaction sv names es =
    if sv.begin_fails
    then raised db_error
    else apply sv names es >>= λ w.
        if sv.unresolved || sv.commit_fails then raised db_error else success w

abbrev pub or_lost : Bool → Attempt Written → Attempt Written
or_lost true w = raised table_lock_lost
or_lost false w = w

-- Flush: the statements that were committed, and the result.
unfoldable pub flush : Server → List String → Batch → Attempt Written
flush sv names t = elim t.entries [
  | [] ↦ success ([], empty_result)
  | e ∷ es ↦ or_lost sv.lock_lost (flush_transaction sv names (e ∷ es))
]
