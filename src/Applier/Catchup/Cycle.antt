-- ===== src/Applier/Catchup/Cycle.antt =====
-- A cycle confirms no position above an entry that is still buffered.
use pg_sprite.Applier.Hold.Return.{hold-Inv, requeue-Inv}
use pg_sprite.Applier.Drain.Preserve.{drain-Inv}
use mathlib.Core.Option.{none}
use pg_sprite.Applier.Flusher.Transaction.{flush}
use pg_sprite.Applier.Drain.Safety.{drain_entries, drain_batch}
use mathlib.Core.List.{[]}
use pg_sprite.Applier.Flusher.Outcome.{Flushed, flush-Flushed}
use pg_sprite.Applier.Flusher.{Attempt, Holds, empty_result}
use pg_sprite.Applier.Flusher.Writes.{Written}
use pg_sprite.Prelude.Int64.{Int64}
use pg_sprite.Applier.Hold.Unique.{Unique, drain-Unique}
use pg_sprite.Applier.Buffer.Invariant.{Inv}
use pg_sprite.Applier.Catchup.Above.{Above, put-Above}
use pg_sprite.Applier.Snapshot.{Snapshot}
use pg_sprite.Applier.Entry.{Entry}
use pg_sprite.Applier.Buffer.{Buffer, put}
use pg_sprite.Applier.Drain.{Batch, drain}
use pg_sprite.Copier.Position.{Position}
use pg_sprite.Applier.Catchup.{
  apply, settle_flush, Applied, CycleOutcome, List, Position, apply_drain, Snapshot, String, World,
  ◌∷◌, or_not_held, inl, some, inr, success, outcome_of, snapshot_failed, raised, not_flushed,
  paused_outcome, cannot_converge, snapshot_for, is_deferral, copy_landed,
}
use pg_sprite.Applier.Hold.{
  hold, hold_loop, requeue, requeue_loop, hold_image, HeldImage, HoldError, entries_of, first_taken,
}
use pg_sprite.Applier.Drain.Fate.{find_entry}
use pg_sprite.Prelude.{
  ℕ, List, Option, String, Option-cases, ◌∷◌, arith, ◌≡◌, ◌≤◌, some, ==_iff, ◌==◌, true, Bool, ap,
  false, ◌⊎◌, if◌then◌else◌, not,
}

-- Entries at or above a position.
abbrev AllAbove : ℕ → List Entry → Type 0
AllAbove p [] = Unit {0}
AllAbove p (e ∷ es) = (p ≤ e.first_lsn) × AllAbove p es

AllAbove-of :
    (p : ℕ) (es : List Entry)
    → Unique es
    → ((k : Int64) (e : Entry) → find_entry k es ≡ some e → p ≤ e.first_lsn)
    → AllAbove p es
unfolding find_entry
AllAbove-of p [] u h = tt
AllAbove-of p (e ∷ es) u h = (
  h e.key e (ground (arith, ==_iff e.key e.key)),
  AllAbove-of p es u.1 (λ k d at. h k d (
      ground (
        arith,
        at,
        u.0,
        λ (q : (e.key == k) ≡ true). ap (λ i. find_entry i es) ((==_iff e.key k).0 q),
      ))),
)

drained-Above :
    (p : ℕ) (pos : Position) (snap : Snapshot) (b : Buffer)
    → Above p b
    → Above p (drain pos snap b).0
drained-Above p pos snap b a k = ground (arith, drain_entries pos snap b k, a k)

batch-Above :
    (p : ℕ) (pos : Position) (snap : Snapshot) (b : Buffer) (k : Int64) (e : Entry)
    → Inv b
    → Above p b
    → find_entry k (drain pos snap b).1.entries ≡ some e
    → p ≤ e.first_lsn
batch-Above p pos snap b k e v a at = ground (arith, drain_batch pos snap b k v, a k, at)

requeue_loop-Above :
    (p : ℕ) (es : List Entry) (b : Buffer) → AllAbove p es → Above p b → Above p (requeue_loop es b)
unfolding requeue_loop
requeue_loop-Above p [] b h a = a
requeue_loop-Above p (e ∷ es) b h a = requeue_loop-Above p es (put e b) h.1 (put-Above p e b h.0 a)

requeue-Above :
    (p : ℕ) (t : Batch) (b : Buffer) → AllAbove p t.entries → Above p b → Above p (requeue t b).0
unfolding requeue
requeue-Above p t b h a = elim (Option-cases (first_taken t.entries b)) [
  | inl free ↦ rw (free, requeue) (requeue_loop-Above p t.entries b h a)
  | inr (e, is_taken) ↦ rw (is_taken, requeue) a
]

hold_loop-Above :
    (p : ℕ) (hs : List HeldImage) (b : Buffer)
    → AllAbove p (entries_of hs)
    → Above p b
    → Above p (hold_loop hs b)
unfolding hold_loop hold_image
hold_loop-Above p [] b h a = a
hold_loop-Above p (x ∷ hs) b h a =
    hold_loop-Above p hs (hold_image x b) h.1 (put-Above p x.entry b h.0 a)

hold-Above :
    (p : ℕ) (hs : List HeldImage) (b : Buffer)
    → AllAbove p (entries_of hs)
    → Above p b
    → Above p (hold hs b).0
unfolding hold
hold-Above p hs b h a = elim (Option-cases (first_taken (entries_of hs) b)) [
  | inl free ↦ rw (free, hold) (hold_loop-Above p hs b h a)
  | inr (e, is_taken) ↦ rw (is_taken, hold) a
]

-- A held image arrived with the entry of the batch that it comes from.
held-Above :
    (p : ℕ) (names : List String) (es : List Entry) (w : Written)
    → Flushed names es w
    → ((k : Int64) (e : Entry) → find_entry k es ≡ some e → p ≤ e.first_lsn)
    → AllAbove p (entries_of w.1.held)
held-Above p names es w f h =
    AllAbove-of p (entries_of w.1.held) f.held_once (λ k d at. from k d (f.held_from k d at))
  where
    from :
        (k : Int64) (d : Entry)
        → (e : Entry) × (find_entry k es ≡ some e)
          × ((d ≡ e) ⊎ (d ≡ record e { absence_awaited = true }))
        → p ≤ d.first_lsn
    from k d (e, at, inl q) = omega (arith, h k e at, ap (λ x. x.first_lsn) q)
    from k d (e, at, inr q) = omega (arith, h k e at, ap (λ x. x.first_lsn) q)

-- What a part of a cycle between two positions of the stream leaves.
abbrev pub Fine : ℕ → Buffer → Type 0
Fine p b = Inv b × Above p b

abbrev FineApplied : ℕ → Applied → Type 0
FineApplied p q = Fine p q.0

or-Fine :
    (p : ℕ) (o : CycleOutcome) (r : Buffer × Option HoldError)
    → Fine p r.0
    → Fine p (or_not_held o r).0
or-Fine p o (b, none) f = f
or-Fine p o (b, some e) f = f

settle-Fine :
    (p : ℕ) (names : List String) (pos : Position) (b : Buffer) (t : Batch) (w : Attempt Written)
    → Unique t.entries
    → ((k : Int64) (e : Entry) → find_entry k t.entries ≡ some e → p ≤ e.first_lsn)
    → Holds (Flushed names t.entries) w
    → Fine p b
    → Fine p (settle_flush pos (b, t) w).0
unfolding settle_flush
settle-Fine p names pos b t (success w) u h f g =
    or-Fine p (outcome_of t w.1 false) (hold w.1.held b) (
      (hold-Inv w.1.held b f.held_images f.held_once g.0).0,
      hold-Above p w.1.held b (held-Above p names t.entries w f h) g.1,
    )
settle-Fine p names pos b t (raised e) u h f g = go (not (is_deferral e)) (copy_landed pos)
  where
    back : Fine p (requeue t b).0
    back = ((requeue-Inv t b u g.0).0, requeue-Above p t b (AllAbove-of p t.entries u h) g.1)

    go :
        (d l : Bool)
        → FineApplied p (
            if d
            then (b, inr (not_flushed e))
            else (if l
                then (b, inr cannot_converge)
                else or_not_held (outcome_of t empty_result true) (requeue t b)))
    go true l = g
    go false true = g
    go false false = or-Fine p (outcome_of t empty_result true) (requeue t b) back

pub apply-Fine :
    (p : ℕ) (names : List String) (w : World) (b : Buffer) → Fine p b → Fine p (apply names w b).0
unfolding apply apply_drain
apply-Fine p names w b g = paused w.paused
  where
    flushes : (snap : Snapshot) → FineApplied p (apply_drain names w b snap)
    flushes snap =
        let u = drain-Unique w.position snap b g.0 in
        settle-Fine p names w.position (drain w.position snap b).0 (drain w.position snap b).1
          (flush w.server names (drain w.position snap b).1) u
          (λ k e at. batch-Above p w.position snap b k e g.0 g.1 at)
          (flush-Flushed w.server names (drain w.position snap b).1 u)
          (drain-Inv w.position snap b g.0, drained-Above p w.position snap b g.1)

    read :
        (o : Option Snapshot)
        → FineApplied p
            (elim o [ none ↦ (b, inr snapshot_failed) | some snap ↦ apply_drain names w b snap ])
    read none = g
    read (some snap) = flushes snap

    paused :
        (x : Bool)
        → FineApplied p (
            if x then (b, inl paused_outcome) else elim (snapshot_for w b) [
              | none ↦ (b, inr snapshot_failed)
              | some snap ↦ apply_drain names w b snap
            ])
    paused true = g
    paused false = read (snapshot_for w b)
