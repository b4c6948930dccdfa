-- ===== src/Applier/Flusher/Outcome.antt =====
-- What a whole flush commits and gives back.
use pg_sprite.Applier.Flusher.Absences.{absent-Accounts}
use pg_sprite.Applier.Flusher.Moved.{complete_moved, hold_absent}
use pg_sprite.Applier.Flusher.Fallback.{whole_rows-Trace}
use pg_sprite.Applier.Hold.Return.{AllImages}
use pg_sprite.Applier.Hold.{entries_of}
use mathlib.Core.Bool.{true, false}
use pg_sprite.Applier.Flusher.Commits.{has_entry, column_wise-Trace}
use pg_sprite.Applier.Hold.Unique.{Unique}
use pg_sprite.Applier.Flusher.Accounts.{Accounts, moved-Accounts}
use pg_sprite.Prelude.Int64.{Int64}
use pg_sprite.Applier.Drain.{Batch}
use pg_sprite.Applier.Entry.{Entry}
use pg_sprite.Applier.Flusher.Touches.{touches, deletes_first, Trace, AllWhole}
use pg_sprite.Applier.Drain.Fate.{find_entry}
use pg_sprite.Applier.Flusher.Transaction.{
  apply, flush, flush_transaction, or_deferred, or_lost, or_whole_rows, is_collision,
}
use pg_sprite.Applier.Flusher.{
  Server, Attempt, Bool, String, Entry, Holds, Result, ◌>>=◌, empty_result, success, raised,
  db_error, bind-Holds, map-Holds,
}
use pg_sprite.Applier.Flusher.Writes.{Written, apply_whole_rows, apply_column_wise}
use pg_sprite.Prelude.{
  List, Bool, String, [], ◌≡◌, arith, false, ◌&&◌, ◌∷◌, not, ◌∙◌, ap, sym, some, subst, ◌⊎◌,
  if◌then◌else◌, refl, ◌||◌,
}

-- A committed flush of a batch.
pub record Flushed (names : List String) (es : List Entry) (w : Written) : Type 0 where
  -- It writes under the batch's keys, but for those that it holds.
  pub touched :
      (k : Int64) → touches k w.0 ≡ (has_entry es k && not (has_entry (entries_of w.1.held) k))
  -- It deletes before it writes an image.
  pub order : deletes_first w.0 ≡ true
  -- What can make a row carries a value for every writable column.
  pub whole : AllWhole names w.0
  -- It holds images of the batch, one to a key.
  pub held_from :
      (k : Int64) (h : Entry)
      → find_entry k (entries_of w.1.held) ≡ some h
      → (e : Entry) × (find_entry k es ≡ some e)
        × ((h ≡ e) ⊎ (h ≡ record e { absence_awaited = true }))
  pub held_once : Unique (entries_of w.1.held)
  pub held_images : AllImages w.1.held

flushed :
    (names : List String) (es : List Entry) (q : Result × List Entry) (w : Written)
    → Accounts es q
    → Trace names (has_entry q.1) false q.0.held w
    → Flushed names es w
flushed names es q w a t = record {
  touched = λ k.
      t.touched k
      ∙ a.parted k
      ∙ ap (λ hs. has_entry es k && not (has_entry (entries_of hs) k)) (sym t.kept);
  order = t.order;
  whole = t.whole;
  held_from = λ k h at. a.held_from k h (ap (λ hs. find_entry k (entries_of hs)) (sym t.kept) ∙ at);
  held_once = subst (λ hs. Unique (entries_of hs)) (sym t.kept) a.held_once;
  held_images = subst AllImages (sym t.kept) a.held_images;
}

deferred-Holds : (P : Written → Type 0) (w : Attempt Written) → Holds P w → Holds P (or_deferred w)
deferred-Holds P (success w) h = h
deferred-Holds P (raised e) h = tt

fallback-Trace :
    (sv : Server) (names : List String) (q : Result × List Entry) (w : Attempt Written)
    → Holds (Trace names (has_entry q.1) false q.0.held) w
    → Holds (Trace names (has_entry q.1) false q.0.held) (or_whole_rows sv names q w)
fallback-Trace sv names q (success w) t = t
fallback-Trace sv names (r, es) (raised e) t = go (not (is_collision e))
  where
    again : Result
    again = record empty_result { held = r.held; skipped = r.skipped; fallback = true }

    go :
        (b : Bool)
        → Holds
            (Trace names (has_entry es) false r.held)
            (if b then raised e else or_deferred (apply_whole_rows sv names es again))
    go true = tt
    go false =
        deferred-Holds (Trace names (has_entry es) false r.held)
          (apply_whole_rows sv names es again) (whole_rows-Trace sv names es again)

apply-Flushed :
    (sv : Server) (names : List String) (es : List Entry)
    → Unique es
    → Holds (Flushed names es) (apply sv names es)
unfolding apply
apply-Flushed sv names es u = go sv.conversions_fail
  where
    go :
        (b : Bool)
        → Holds (Flushed names es) (
            if b
            then raised db_error
            else complete_moved sv names es >>= λ p. hold_absent sv names p >>= λ q.
                or_whole_rows sv names q (apply_column_wise sv names q.1 q.0))
    go true = tt
    go false =
        bind-Holds (Accounts es) (Flushed names es) (complete_moved sv names es)
          (λ p. hold_absent sv names p >>= λ q.
            or_whole_rows sv names q (apply_column_wise sv names q.1 q.0))
          (moved-Accounts sv names es u)
          (λ p a.
            bind-Holds (Accounts es) (Flushed names es) (hold_absent sv names p)
              (λ q. or_whole_rows sv names q (apply_column_wise sv names q.1 q.0))
              (absent-Accounts sv names es p a)
              (λ q b.
                map-Holds (Trace names (has_entry q.1) false q.0.held) (Flushed names es)
                  (or_whole_rows sv names q (apply_column_wise sv names q.1 q.0))
                  (λ w t. flushed names es q w b t)
                  (fallback-Trace sv names q (apply_column_wise sv names q.1 q.0)
                    (column_wise-Trace sv names q.1 q.0))))

-- The transaction's end, and the lock, can only turn a result into an error.
end-Holds :
    (P : Written → Type 0) (b : Bool) (w : Attempt Written)
    → Holds P w
    → Holds P (w >>= λ v. if b then raised db_error else success v)
end-Holds P b (raised e) h = tt
end-Holds P true (success w) h = tt
end-Holds P false (success w) h = h

lost-Holds :
    (P : Written → Type 0) (b : Bool) (w : Attempt Written) → Holds P w → Holds P (or_lost b w)
lost-Holds P true w h = tt
lost-Holds P false w h = h

transaction-Flushed :
    (sv : Server) (names : List String) (es : List Entry)
    → Unique es
    → Holds (Flushed names es) (flush_transaction sv names es)
unfolding flush_transaction
transaction-Flushed sv names es u = go sv.begin_fails
  where
    go :
        (b : Bool)
        → Holds (Flushed names es) (
            if b
            then raised db_error
            else apply sv names es >>= λ w.
                if sv.unresolved || sv.commit_fails then raised db_error else success w)
    go true = tt
    go false =
        end-Holds (Flushed names es) (sv.unresolved || sv.commit_fails) (apply sv names es)
          (apply-Flushed sv names es u)

none-Flushed : (names : List String) → Flushed names [] ([], empty_result)
unfolding find_entry touches deletes_first
none-Flushed names = record {
  touched = λ k. refl;
  order = refl;
  whole = tt;
  held_from = λ k h at. absurd (ground (arith, at));
  held_once = tt;
  held_images = tt;
}

-- A flush of a batch of different keys that commits, column by column or whole rows, writes under exactly
-- those of the batch's keys that it does not hold, deletes before it writes any image, gives every statement
-- that can make a row a value for every writable column, and holds only images of the batch, one to a key.
pub flush-Flushed :
    (sv : Server) (names : List String) (t : Batch)
    → Unique t.entries
    → Holds (Flushed names t.entries) (flush sv names t)
unfolding flush
flush-Flushed sv names t u = go t.entries u
  where
    go :
        (es : List Entry)
        → Unique es
        → Holds (Flushed names es) (elim es [
          | [] ↦ success ([], empty_result)
          | e ∷ es ↦ or_lost sv.lock_lost (flush_transaction sv names (e ∷ es))
        ])
    go [] u = none-Flushed names
    go (e ∷ es) u =
        lost-Holds (Flushed names (e ∷ es)) sv.lock_lost (flush_transaction sv names (e ∷ es))
          (transaction-Flushed sv names (e ∷ es) u)
