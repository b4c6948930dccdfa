-- ===== src/Applier/Drain/Preserve.antt =====
-- A drain keeps the buffer's invariant: the index stays exact, and the oldest position is found again
-- over the entries that stay.
use pg_sprite.Applier.Drain.Safety.{final, fresh}
use pg_sprite.Applier.Snapshot.{Snapshot}
use pg_sprite.Applier.Buffer.Effects.{is_from}
use pg_sprite.Applier.Drain.Fate.{leaves, track_rest, key_entries, remove_entries, remove_pending}
use pg_sprite.Applier.Entry.{Entry}
use pg_sprite.Applier.Drain.{
  Judged, drain, drain_key, drain_loop, drain_state, Batch, empty_batch, ltb,
}
use pg_sprite.Prelude.Int64.{Int64}
use pg_sprite.Prelude.{
  [], ◌∷◌, none, some, true, false, inl, inr, refl, ℕ, arith, ◌≡◌, Bool-cases, ◌⊎◌, ==_iff, ap,
  ◌&&◌, not, if◌then◌else◌, ◌==◌, ◌||◌, ltb,
}
use pg_sprite.Prelude.Assoc
use pg_sprite.Prelude.Assoc.{Assoc, HasKeysOnce, lookup-delete, delete-HasKeysOnce}
use pg_sprite.Copier.Position.{KeyState, uncut, in_flight, landed, Position}
use pg_sprite.Applier.Buffer.{
  Buffer, remove, track_oldest, drop_pending, unindex, has_pair, is_image,
}
use pg_sprite.Applier.Buffer.Invariant.{Inv, stands_at, covers_lsn, is_some, unindex_pairs}

-- The invariant without the oldest position.
record Core (b : Buffer) : Type 0 where
  once : HasKeysOnce b.entries
  own_key : (k : Int64) → stands_at k (Assoc.lookup k b.entries) ≡ true
  indexed : (o k : Int64) → has_pair o k b.moved_from ≡ is_from (Assoc.lookup k b.entries) o
  pended :
      (k : Int64)
      → (is_some (Assoc.lookup k b.pending) && not (is_image (Assoc.lookup k b.entries))) ≡ false

remove_once : (k : Int64) (b : Buffer) → (remove k b).entries ≡ Assoc.delete k b.entries
unfolding remove unindex drop_pending
remove_once k b = ground arith

remove_pairs :
    (k o j : Int64) (b : Buffer)
    → Core b
    → has_pair o j (remove k b).moved_from ≡ (if k == j then false else has_pair o j b.moved_from)
unfolding remove drop_pending
remove_pairs k o j b c =
    unindex_pairs (Assoc.lookup k b.entries) k o j b (c.own_key k) (c.indexed o k)

remove-Core : (k : Int64) (b : Buffer) → Core b → Core (remove k b)
remove-Core k b c = record {
  once = rw (remove_once k b) (delete-HasKeysOnce k b.entries c.once);
  own_key = λ j. ground (arith, remove_entries k j b, c.own_key j);
  indexed = λ o j. ground (arith, remove_entries k j b, remove_pairs k o j b c, c.indexed o j);
  pended = λ j. ground (arith, remove_entries k j b, remove_pending k j b, c.pended j);
}

track-Core : (lsn : ℕ) (b : Buffer) → Core b → Core (track_oldest lsn b)
track-Core lsn b c =
    let (entries, pending, moved) = track_rest lsn b in
    record {
      once = rw entries c.once;
      own_key = λ j. rw entries (c.own_key j);
      indexed = λ o j. rw (entries, moved) (c.indexed o j);
      pended = λ j. rw (entries, pending) (c.pended j);
    }

by_state :
    (s : KeyState) (k : Int64) (e : Entry) (b : Buffer) (t : Batch)
    → Core b
    → Core (drain_state s k e b t).0
unfolding drain_state
by_state uncut k e b t c = remove-Core k b c
by_state in_flight k e b t c = track-Core e.first_lsn b c
by_state landed k e b t c = remove-Core k b c

key-Core :
    (g : Judged) (k : Int64) (e : Entry) (b : Buffer) (t : Batch)
    → Core b
    → Core (drain_key g k e b t).0
unfolding drain_key
key-Core g k e b t c = elim (Bool-cases (is_some (Assoc.lookup k b.pending))) [
  | inl held ↦ rw held (track-Core e.first_lsn b c)
  | inr free ↦ elim (Bool-cases (g.invisible k)) [
    | inl hidden ↦ rw (free, hidden) (track-Core e.first_lsn b c)
    | inr shown ↦ rw (free, shown) (by_state (g.state k) k e b t c)
  ]
]

-- The oldest position in the middle of the loop, with the entries of `m` still to come.
record Tracked (m : Assoc Entry) (b : Buffer) : Type 0 where
  met :
      (b.has_oldest ≡ false)
      ⊎ ((k : Int64) × (e : Entry) × (Assoc.lookup k m ≡ none)
          × (Assoc.lookup k b.entries ≡ some e)
          × (e.first_lsn ≡ b.oldest))
  passed :
      (k : Int64)
      → Assoc.lookup k m ≡ none
      → covers_lsn b.oldest b.has_oldest (Assoc.lookup k b.entries) ≡ true
  coming : (k : Int64) (e : Entry) → Assoc.lookup k m ≡ some e → Assoc.lookup k b.entries ≡ some e

key_oldest :
    (g : Judged) (k : Int64) (e : Entry) (b : Buffer) (t : Batch)
    → ((drain_key g k e b t).0.oldest ≡ (
        if leaves g b k
        then b.oldest
        else (if not b.has_oldest || ltb e.first_lsn b.oldest then e.first_lsn else b.oldest)))
      × ((drain_key g k e b t).0.has_oldest ≡ (if leaves g b k then b.has_oldest else true))
unfolding drain_key drain_state leaves remove track_oldest drop_pending unindex
key_oldest g k e b t = ground arith

stays_at :
    (g : Judged) (k : Int64) (e : Entry) (m : Assoc Entry) (b : Buffer)
    → Tracked ((k, e) ∷ m) b
    → Assoc.lookup k b.entries ≡ some e
unfolding Assoc.lookup
stays_at g k e m b r = r.coming k e (ground arith)

-- The entry that meets the position before the round still does, where the round leaves it alone.
old_met :
    (g : Judged) (k : Int64) (e : Entry) (m : Assoc Entry) (b : Buffer) (t : Batch)
    → (leaves g b k || not (not b.has_oldest || ltb e.first_lsn b.oldest)) ≡ true
    → Tracked ((k, e) ∷ m) b
    → ((drain_key g k e b t).0.has_oldest ≡ false)
      ⊎ ((j : Int64) × (d : Entry) × (Assoc.lookup j m ≡ none)
          × (Assoc.lookup j (drain_key g k e b t).0.entries ≡ some d)
          × (d.first_lsn ≡ (drain_key g k e b t).0.oldest))
unfolding Assoc.lookup
old_met g k e m b t same r = elim r.met [
  | inl empty ↦ inl (ground (arith, key_oldest g k e b t))
  | inr (j, d, apart, at, least) ↦ inr (
    j,
    d,
    ground arith,
    ground (arith, key_entries g k j e b t),
    ground (arith, key_oldest g k e b t),
  )
]

key-Tracked :
    (g : Judged) (k : Int64) (e : Entry) (m : Assoc Entry) (b : Buffer) (t : Batch)
    → Assoc.lookup k m ≡ none
    → Tracked ((k, e) ∷ m) b
    → Tracked m (drain_key g k e b t).0
unfolding Assoc.lookup
key-Tracked g k e m b t new r = record {
  met = elim (Bool-cases (leaves g b k || not (not b.has_oldest || ltb e.first_lsn b.oldest))) [
    | inl same ↦ old_met g k e m b t same r
    | inr lower ↦ inr (
      k,
      e,
      new,
      ground (arith, key_entries g k k e b t, stays_at g k e m b r),
      ground (arith, key_oldest g k e b t),
    )
  ];
  passed = λ j a. ground (
    arith,
    key_oldest g k e b t,
    key_entries g k j e b t,
    r.passed j,
    stays_at g k e m b r,
    λ (q : (k == j) ≡ true). ap (λ i. Assoc.lookup i b.entries) ((==_iff k j).0 q),
  );
  coming = λ j d a.
      ground
        (arith, key_entries g k j e b t, r.coming j d, (==_iff k j).0, ap (λ i. Assoc.lookup i m));
}

loop-Tracked :
    (g : Judged) (m : Assoc Entry) (b : Buffer) (t : Batch)
    → HasKeysOnce m
    → Tracked m b
    → Tracked [] (drain_loop g m b t).0
unfolding drain_loop
loop-Tracked g [] b t h r = r
loop-Tracked g ((k, e) ∷ m) b t h r =
    loop-Tracked g m (drain_key g k e b t).0 (drain_key g k e b t).1 h.1
      (key-Tracked g k e m b t h.0 r)

loop-Core :
    (g : Judged) (m : Assoc Entry) (b : Buffer) (t : Batch) → Core b → Core (drain_loop g m b t).0
unfolding drain_loop
loop-Core g [] b t c = c
loop-Core g ((k, e) ∷ m) b t c =
    loop-Core g m (drain_key g k e b t).0 (drain_key g k e b t).1 (key-Core g k e b t c)

joined : (b : Buffer) → Core b → Tracked [] b → Inv b
unfolding Assoc.lookup
joined b c r = record {
  once = c.once;
  own_key = c.own_key;
  indexed = c.indexed;
  pended = c.pended;
  oldest_below = λ k. r.passed k refl;
  oldest_met = elim r.met [
    | inl empty ↦ inl empty
    | inr (k, e, _, at, least) ↦ inr (k, e, at, least)
  ];
}

-- A drain keeps the buffer's invariant: the index of moved images stays exact, completions stay under
-- images, and the oldest pending position is again the least of the entries that stay.
pub drain-Inv : (pos : Position) (snap : Snapshot) (b : Buffer) → Inv b → Inv (drain pos snap b).0
unfolding drain
drain-Inv pos snap b v =
    let g = final pos snap b in
    joined (drain_loop g b.entries (fresh b) empty_batch).0
      (loop-Core g b.entries (fresh b) empty_batch
        (record { once = v.once; own_key = v.own_key; indexed = v.indexed; pended = v.pended }))
      (loop-Tracked g b.entries (fresh b) empty_batch v.once
        (record { met = inl refl; passed = λ k a. rw a refl; coming = λ k e a. a }))
