-- ===== src/Applier/Drain/Safety.antt =====
-- What leaves the buffer in a drain, and why (CO-4).
use pg_sprite.Applier.Entry.{Entry}
use pg_sprite.Applier.Drain.Deferral.{Held, loop-Held}
use pg_sprite.Prelude.Int64.{Int64}
use pg_sprite.Applier.Snapshot.{Snapshot, visible}
use pg_sprite.Applier.Drain.{
  defer_pairs, drain, judge, Judged, Snapshot, empty_batch, Int64, Entry, drain_loop, Batch,
  judge_invisible, move_pairs, visible,
}
use pg_sprite.Applier.Drain.Fate.{
  flushes, leaves, find_entry, find-sort, loop_batch, loop_entries, stands-Owned,
}
use pg_sprite.Applier.Buffer.{Buffer}
use pg_sprite.Prelude.{
  none, some, true, false, refl, ◌≡◌, arith, if◌then◌else◌, not, suc, ◌∙◌, ◌⊎◌, ap, ◌*◌, length,
  ◌≢◌,
}
use pg_sprite.Prelude.Assoc
use pg_sprite.Prelude.Assoc.{Assoc}
use pg_sprite.Copier.Position.{uncut, in_flight, landed, Position, classify}
use pg_sprite.Applier.Buffer.Invariant.{Inv, is_some}

-- The states after the passes over the travelling pairs.
abbrev pub final : Position → Snapshot → Buffer → Judged
final pos snap b = defer_pairs b (judge pos snap b)

abbrev pub fresh : Buffer → Buffer
fresh b = record b { has_oldest = false }

kept_entries :
    (g : Judged) (b : Buffer) (k : Int64)
    → Assoc.lookup k (drain_loop g b.entries (fresh b) empty_batch).0.entries
      ≡ (if leaves g b k then none else Assoc.lookup k b.entries)
unfolding leaves
kept_entries g b k = ground (arith, loop_entries g b.entries (fresh b) empty_batch k)

flushed_entries :
    (g : Judged) (b : Buffer) (k : Int64)
    → Inv b
    → find_entry k (drain_loop g b.entries (fresh b) empty_batch).1.entries
      ≡ (if flushes g b k then Assoc.lookup k b.entries else none)
unfolding flushes empty_batch find_entry
flushed_entries g b k v = ground (
  arith,
  loop_batch g b.entries (fresh b) empty_batch k (stands-Owned b.entries v.once v.own_key),
)

pub drain_entries :
    (pos : Position) (snap : Snapshot) (b : Buffer) (k : Int64)
    → Assoc.lookup k (drain pos snap b).0.entries
      ≡ (if leaves (final pos snap b) b k then none else Assoc.lookup k b.entries)
unfolding drain
drain_entries pos snap b k = kept_entries (final pos snap b) b k

pub drain_batch :
    (pos : Position) (snap : Snapshot) (b : Buffer) (k : Int64)
    → Inv b
    → find_entry k (drain pos snap b).1.entries
      ≡ (if flushes (final pos snap b) b k then Assoc.lookup k b.entries else none)
unfolding drain
drain_batch pos snap b k v =
    find-sort k (drain_loop (final pos snap b) b.entries (fresh b) empty_batch).1.entries
    ∙ flushed_entries (final pos snap b) b k v

pub final-Held :
    (pos : Position) (snap : Snapshot) (b : Buffer) (k : Int64)
    → Held ((judge pos snap b).state k) ((final pos snap b).state k)
unfolding defer_pairs
final-Held pos snap b k =
    let ps = move_pairs b.entries b.entries in
    let g = judge pos snap b in loop-Held (suc (2 * length ps)) g.invisible ps g.state k

pub final-invisible :
    (pos : Position) (snap : Snapshot) (b : Buffer) (k : Int64)
    → (final pos snap b).invisible k ≡ judge_invisible snap (Assoc.lookup k b.entries)
unfolding defer_pairs judge
final-invisible pos snap b k = refl

-- What became of the entry under a key: flushed because its key had landed, discarded because its
-- key was uncut, in both cases only with its transaction visible and no completion pending; or kept,
-- and then for a completion, for visibility, or for a key that is not uncut.
abbrev pub Fate : Position → Snapshot → Buffer → Int64 → Entry → Buffer → Batch → Type 0
Fate pos snap b k e after t =
    ((find_entry k t.entries ≡ some e)
      × (Assoc.lookup k after.entries ≡ none)
      × (classify pos k ≡ landed)
      × (visible snap e.xid ≡ true)
      × (Assoc.lookup k b.pending ≡ none))
    ⊎ (((find_entry k t.entries ≡ none)
          × (Assoc.lookup k after.entries ≡ none)
          × (classify pos k ≡ uncut)
          × (visible snap e.xid ≡ true)
          × (Assoc.lookup k b.pending ≡ none))
        ⊎ ((find_entry k t.entries ≡ none)
            × (Assoc.lookup k after.entries ≡ some e)
            × ((is_some (Assoc.lookup k b.pending) ≡ true)
                ⊎ ((visible snap e.xid ≡ false) ⊎ (classify pos k ≢ uncut)))))

pub judged_state :
    (pos : Position) (snap : Snapshot) (b : Buffer) (k : Int64) (e : Entry)
    → Assoc.lookup k b.entries ≡ some e
    → (judge pos snap b).state k ≡ (if visible snap e.xid then classify pos k else in_flight)
unfolding judge
judged_state pos snap b k e at = rw at refl

pub judged_invisible :
    (pos : Position) (snap : Snapshot) (b : Buffer) (k : Int64) (e : Entry)
    → Assoc.lookup k b.entries ≡ some e
    → (final pos snap b).invisible k ≡ not (visible snap e.xid)
judged_invisible pos snap b k e at = final-invisible pos snap b k ∙ ap (judge_invisible snap) at

-- A drain of a buffer that satisfies its invariant settles the entry under every key by the key's own
-- state: it is flushed only when the key had landed and discarded only when it was uncut, only with
-- its transaction visible and no completion pending; it stays as it was otherwise, and then for a
-- completion, for visibility, or for a key that is not uncut.
pub drain-Fate :
    (pos : Position) (snap : Snapshot) (b : Buffer) (k : Int64) (e : Entry)
    → Inv b
    → Assoc.lookup k b.entries ≡ some e
    → Fate pos snap b k e (drain pos snap b).0 (drain pos snap b).1
unfolding leaves flushes
drain-Fate pos snap b k e v at = ground (
  arith,
  drain_entries pos snap b k,
  drain_batch pos snap b k v,
  judged_state pos snap b k e at,
  judged_invisible pos snap b k e at,
  final-Held pos snap b k,
)
