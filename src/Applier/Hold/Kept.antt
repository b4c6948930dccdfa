-- ===== src/Applier/Hold/Kept.antt =====
-- Release keeps the buffer's invariant.
use mathlib.Core.Option.{none}
use pg_sprite.Applier.Buffer.Effects.{is_from}
use pg_sprite.Applier.Hold.Release.{filled, lookup-fill_entry}
use pg_sprite.Applier.Buffer.Invariant.{Inv, stands_at, covers_lsn}
use pg_sprite.Prelude.Assoc.{Assoc, HasKeysOnce, lookup-delete}
use pg_sprite.Applier.Buffer.{Buffer, PendingCompletion, is_image}
use pg_sprite.Applier.Entry.{Column, Entry, fill}
use pg_sprite.Prelude.Int64.{Int64}
use pg_sprite.Applier.Hold.{
  fill_entry, release, release_key, release_loop, List, ℕ, Column, inl, inr, some,
}
use pg_sprite.Prelude.{
  [], ◌∷◌, Bool, List, ℕ, Option, Bool-cases, if◌then◌else◌, ltb, ◌≡◌, arith, ◌==◌,
}
use pg_sprite.Prelude.Assoc

filled_keeps :
    (here : Bool) (cols : List Column) (e : Option Entry) (k o : Int64) (lsn : ℕ) (has : Bool)
    → (stands_at k (if here then filled cols e else e) ≡ stands_at k e)
      × (is_from (if here then filled cols e else e) o ≡ is_from e o)
      × (is_image (if here then filled cols e else e) ≡ is_image e)
      × (covers_lsn lsn has (if here then filled cols e else e) ≡ covers_lsn lsn has e)
filled_keeps here cols none k o lsn has = ground arith
filled_keeps here cols (some e) k o lsn has = ground arith

fill_entry-once :
    (k : Int64) (cols : List Column) (m : Assoc Entry)
    → HasKeysOnce m
    → HasKeysOnce (fill_entry k cols m)
unfolding fill_entry
fill_entry-once k cols [] h = tt
fill_entry-once k cols ((j, e) ∷ m) h =
    ground (arith, lookup-fill_entry k j cols m, fill_entry-once k cols m h.1)

filled-Inv :
    (k : Int64) (cols : List Column) (b : Buffer)
    → Inv b
    → Inv (record b { entries = fill_entry k cols b.entries; pending = Assoc.delete k b.pending })
filled-Inv k cols b v =
    let keeps = λ (j o : Int64).
      filled_keeps (k == j) cols (Assoc.lookup j b.entries) j o b.oldest b.has_oldest in
    let at = λ (j : Int64). lookup-fill_entry k j cols b.entries in
    record {
      once = fill_entry-once k cols b.entries v.once;
      own_key = λ j. ground (arith, at j, (keeps j j).0, v.own_key j);
      indexed = λ o j. ground (arith, at j, (keeps j o).1, v.indexed o j);
      pended = λ j. ground (arith, at j, (keeps j j).2, v.pended j, lookup-delete k j b.pending);
      oldest_below = λ j. ground (arith, at j, (keeps j j).3, v.oldest_below j);
      oldest_met = elim v.oldest_met [
        | inl no_entry ↦ inl no_entry
        | inr (j, e, found, least) ↦ inr (
          j,
          (if k == j then record e { columns = fill e.columns cols } else e),
          ground (arith, at j),
          ground arith,
        )
      ];
    }

release_key-Inv :
    (passed : ℕ) (k : Int64) (c : PendingCompletion) (r : Buffer × ℕ)
    → Inv r.0
    → Inv (release_key passed k c r).0
unfolding release_key
release_key-Inv passed k c (b, n) v = elim (Bool-cases (ltb passed c.read_lsn)) [
  | inl waits ↦ rw (waits, release_key) v
  | inr over ↦ rw (over, release_key) (filled-Inv k c.completed b v)
]

release_loop-Inv :
    (passed : ℕ) (m : Assoc PendingCompletion) (r : Buffer × ℕ)
    → Inv r.0
    → Inv (release_loop passed m r).0
unfolding release_loop
release_loop-Inv passed [] r v = v
release_loop-Inv passed ((k, c) ∷ m) r v =
    release_loop-Inv passed m (release_key passed k c r) (release_key-Inv passed k c r v)

pub release-Inv : (passed : ℕ) (b : Buffer) → Inv b → Inv (release passed b).0
unfolding release
release-Inv passed b v = release_loop-Inv passed b.pending (b, 0) v
