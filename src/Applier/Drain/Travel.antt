-- ===== src/Applier/Drain/Travel.antt =====
-- A moved image and the entry at the key that it left (D13).
use pg_sprite.Applier.Drain.Deferral.{loop-Settled, slack_bound}
use pg_sprite.Applier.Drain.Safety.{
  final, drain_batch, drain_entries, judged_state, judged_invisible, final-Held,
}
use pg_sprite.Applier.Buffer.{Buffer}
use pg_sprite.Applier.Snapshot.{Snapshot, visible}
use pg_sprite.Applier.Entry.{Entry}
use pg_sprite.Applier.Drain.Fate.{leaves, flushes, find_entry}
use pg_sprite.Applier.Drain.{
  defer_pairs, move_pairs, MovePair, waits_together, Buffer, defers, drain, judge, pair_of,
}
use pg_sprite.Prelude.Int64.{Int64}
use pg_sprite.Prelude.{
  [], ◌∷◌, none, some, true, false, inl, inr, refl, Bool, ◌≡◌, arith, ◌⊎◌, suc, ◌*◌, length,
  Bool-cases, Option, List, Option-cases, subst, if◌then◌else◌, ◌==◌, ==_iff,
}
use pg_sprite.Prelude.Assoc
use pg_sprite.Prelude.Assoc.{Assoc}
use pg_sprite.Copier.Position.{KeyState, Position}
use pg_sprite.Applier.Drain.Deferral.{Settled}
use pg_sprite.Applier.Buffer.Invariant.{Inv, is_some}

abbrev pair : Int64 → Int64 → MovePair
pair k o = record { moved = k; old = o }

pair_of-Settled :
    (invisible : Int64 → Bool) (state : Int64 → KeyState) (all : Assoc Entry) (k : Int64)
    (old : Option Int64) (rest : List MovePair)
    → Settled invisible state (pair_of all k old rest)
    → Settled invisible state rest
      × ((o : Int64)
          → old ≡ some o
          → is_some (Assoc.lookup o all) ≡ true
          → defers state invisible (pair k o) ≡ false)
pair_of-Settled invisible state all k none rest s = (s, λ o e h. absurd (ground arith))
pair_of-Settled invisible state all k (some old) rest s =
    elim (Option-cases (Assoc.lookup old all)) [
      | inl gone ↦ (
        subst (λ x. Settled invisible state (if is_some x then pair k old ∷ rest else rest)) gone s,
        λ o e h. absurd (ground arith),
      )
      | inr (f, there) ↦
          let both =
            subst (λ x. Settled invisible state (if is_some x then pair k old ∷ rest else rest))
              there s in
          (
            both.1,
            λ o e h.
                subst (λ x. defers state invisible (pair k x) ≡ false) (ground (arith, e)) both.0,
          )
    ]

-- The pairs are what they should be: each moved entry whose old key is buffered.
pair-Settled :
    (invisible : Int64 → Bool) (state : Int64 → KeyState) (all m : Assoc Entry) (k o : Int64)
    (e : Entry)
    → Settled invisible state (move_pairs all m)
    → Assoc.lookup k m ≡ some e
    → e.old_key ≡ some o
    → is_some (Assoc.lookup o all) ≡ true
    → defers state invisible (pair k o) ≡ false
unfolding move_pairs Assoc.lookup
pair-Settled invisible state all [] k o e s at from there = absurd (ground arith)
pair-Settled invisible state all ((j, d) ∷ m) k o e s at from there =
    let (later, here) = pair_of-Settled invisible state all j d.old_key (move_pairs all m) s in
    elim (Bool-cases (j == k)) [
      | inl same ↦
          subst (λ x. defers state invisible (pair x o) ≡ false) ((==_iff j k).0 same)
            (here o (ground (arith)) there)
      | inr apart ↦ pair-Settled invisible state all m k o e later (ground arith) from there
    ]

final-Settled :
    (pos : Position) (snap : Snapshot) (b : Buffer) (k o : Int64) (e f : Entry)
    → Assoc.lookup k b.entries ≡ some e
    → e.old_key ≡ some o
    → Assoc.lookup o b.entries ≡ some f
    → defers (final pos snap b).state (final pos snap b).invisible (pair k o) ≡ false
unfolding defer_pairs
final-Settled pos snap b k o e f at from there =
    let ps = move_pairs b.entries b.entries in
    let g = judge pos snap b in
    pair-Settled g.invisible (final pos snap b).state b.entries b.entries k o e
      (loop-Settled (suc (2 * length ps)) g.invisible ps g.state
        (omega (arith, slack_bound g.state ps)))
      at from (rw there refl)

-- In a buffer that satisfies its invariant, where an image moved from a key whose entry is buffered
-- too: when a drain flushes the image, the old key's entry leaves with it or waits only for a
-- completion, and while the image's transaction is not visible the old key's entry is not flushed.
pub drain-travels :
    (pos : Position) (snap : Snapshot) (b : Buffer) (k o : Int64) (e f : Entry)
    → Inv b
    → Assoc.lookup k b.entries ≡ some e
    → e.old_key ≡ some o
    → Assoc.lookup o b.entries ≡ some f
    → (find_entry k (drain pos snap b).1.entries ≡ some e
        → (Assoc.lookup o (drain pos snap b).0.entries ≡ none)
          ⊎ (is_some (Assoc.lookup o b.pending) ≡ true))
      × (visible snap e.xid ≡ false → find_entry o (drain pos snap b).1.entries ≡ none)
unfolding leaves flushes waits_together
drain-travels pos snap b k o e f v at from there = (
  λ flushed. ground (
    arith,
    final-Settled pos snap b k o e f at from there,
    drain_batch pos snap b k v,
    drain_entries pos snap b o,
    judged_state pos snap b o f there,
    judged_invisible pos snap b k e at,
    judged_invisible pos snap b o f there,
    final-Held pos snap b o,
  ),
  λ hidden. ground (
    arith,
    final-Settled pos snap b k o e f at from there,
    drain_batch pos snap b o v,
    judged_state pos snap b k e at,
    judged_invisible pos snap b k e at,
    final-Held pos snap b k,
  ),
)
