-- ===== src/Applier/Drain/Oldest.antt =====
-- The position that bounds what the stream may confirm while a flush is under way.
use pg_sprite.Applier.Drain.Preserve.{drain-Inv}
use pg_sprite.Applier.Drain.Safety.{drain-Fate}
use pg_sprite.Applier.Snapshot.{Snapshot}
use pg_sprite.Prelude.Int64.{Int64}
use pg_sprite.Applier.Buffer.{oldest_pending, Buffer}
use pg_sprite.Applier.Entry.{Entry}
use pg_sprite.Applier.Drain.Fate.{find_entry}
use pg_sprite.Applier.Drain.{oldest_first_lsn, oldest_loop, List, Int64, drain}
use pg_sprite.Copier.Position.{uncut, classify, Position}
use pg_sprite.Prelude.{
  [], ◌∷◌, some, true, false, inl, inr, ℕ, Bool, List, arith, ◌≡◌, Bool-cases, ◌≤◌, ◌==◌, subst,
  ◌≢◌, ap, ◌⊎◌,
}
use pg_sprite.Prelude.Assoc
use pg_sprite.Applier.Buffer.Invariant.{Inv}

-- The position is known, and no entry lies below it.
abbrev pub Bounds : ℕ × Bool → ℕ → Type 0
Bounds found lsn = (found.1 ≡ true) × (found.0 ≤ lsn)

loop-Bounds :
    (es : List Entry) (found : ℕ × Bool) (lsn : ℕ)
    → Bounds found lsn
    → Bounds (oldest_loop es found) lsn
unfolding oldest_loop
loop-Bounds [] found lsn h = h
loop-Bounds (e ∷ es) (oldest, has) lsn h = loop-Bounds es _ lsn (ground arith)

found_here :
    (d : Entry) (ds : List Entry) (k : Int64) (e : Entry)
    → (d.key == k) ≡ true
    → find_entry k (d ∷ ds) ≡ some e
    → d ≡ e
unfolding find_entry
found_here d ds k e here h = ground arith

entry-Bounds :
    (es : List Entry) (found : ℕ × Bool) (k : Int64) (e : Entry)
    → find_entry k es ≡ some e
    → Bounds (oldest_loop es found) e.first_lsn
unfolding oldest_loop find_entry
entry-Bounds [] found k e h = absurd (ground arith)
entry-Bounds (d ∷ ds) (oldest, has) k e h = elim (Bool-cases (d.key == k)) [
  | inl here ↦
      loop-Bounds ds _ e.first_lsn
        (subst (Bounds _) (ap (λ x. x.first_lsn) (found_here d ds k e here h)) (ground arith))
  | inr later ↦ entry-Bounds ds _ k e (ground arith)
]

-- After a drain of a buffer that satisfies its invariant, the first event of every entry whose key is not uncut
-- is bounded: by the batch's oldest position, or by that of the buffer that the drain leaves.
pub drain-Bounds :
    (pos : Position) (snap : Snapshot) (b : Buffer) (k : Int64) (e : Entry)
    → Inv b
    → Assoc.lookup k b.entries ≡ some e
    → classify pos k ≢ uncut
    → Bounds (oldest_first_lsn (drain pos snap b).1) e.first_lsn
      ⊎ Bounds (oldest_pending (drain pos snap b).0) e.first_lsn
unfolding oldest_first_lsn oldest_pending
drain-Bounds pos snap b k e v at cut = elim (drain-Fate pos snap b k e v at) [
  | inl flushed ↦ inl (entry-Bounds (drain pos snap b).1.entries (0, false) k e flushed.0)
  | inr (inl discarded) ↦ absurd (cut discarded.2)
  | inr (inr kept) ↦ inr (ground (arith, (drain-Inv pos snap b v).oldest_below k, kept.1))
]
