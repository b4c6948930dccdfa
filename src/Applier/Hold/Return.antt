-- ===== src/Applier/Hold/Return.antt =====
-- Entries that a flush gives back.
use pg_sprite.Applier.Drain.Safety.{
  drain_entries, drain_batch, judged_state, judged_invisible, final-Held,
}
use pg_sprite.Applier.Buffer.Preserve.{put-Inv}
use pg_sprite.Applier.Buffer.Effects.{put_entries}
use pg_sprite.Applier.Hold.Unique.{Unique, drain-Unique}
use pg_sprite.Prelude.Int64.{Int64}
use pg_sprite.Applier.Snapshot.{Snapshot}
use pg_sprite.Applier.Buffer.{Buffer, put, is_image}
use pg_sprite.Copier.Position.{Position, classify, uncut}
use pg_sprite.Applier.Drain.{Batch, drain}
use pg_sprite.Applier.Entry.{Entry}
use pg_sprite.Applier.Drain.Fate.{find_entry, leaves, flushes, or_else}
use pg_sprite.Applier.Hold.{
  first_taken, requeue, requeue_loop, Batch, Entry, Buffer, Int64, HoldError, HeldImage, hold,
  hold_image, hold_loop, entries_of, completion,
}
use pg_sprite.Prelude.{
  [], ◌∷◌, none, some, true, inl, inr, refl, List, Option, ◌≡◌, arith, ◌⊎◌, Option-cases, ◌≢◌,
  ==_iff, ◌==◌, ap, ◌∙◌,
}
use pg_sprite.Prelude.Assoc
use pg_sprite.Prelude.Assoc.{Assoc, HasKeysOnce, lookup-insert}
use pg_sprite.Applier.Buffer.Invariant.{Inv, is_some}

requeued_entries :
    (es : List Entry) (b : Buffer) (k : Int64)
    → Unique es
    → Assoc.lookup k (requeue_loop es b).entries
      ≡ or_else (find_entry k es) (Assoc.lookup k b.entries)
unfolding requeue_loop find_entry
requeued_entries [] b k u = refl
requeued_entries (e ∷ es) b k u = ground (
  arith,
  requeued_entries es (put e b) k u.1,
  put_entries e k b,
  u.0,
  λ (q : (e.key == k) ≡ true). ap (λ i. find_entry i es) ((==_iff e.key k).0 q),
)

-- No key of the entries is taken.
abbrev Free : List Entry → Buffer → Type 0
Free [] b = Unit {0}
Free (e ∷ es) b = (Assoc.lookup e.key b.entries ≡ none) × Free es b

Free-of : (es : List Entry) (b : Buffer) → first_taken es b ≡ none → Free es b
unfolding first_taken
Free-of [] b f = tt
Free-of (e ∷ es) b f = (ground arith, Free-of es b (ground arith))

taken_of :
    (es : List Entry) (b : Buffer)
    → ((k : Int64) → is_some (find_entry k es) ≡ true → Assoc.lookup k b.entries ≡ none)
    → first_taken es b ≡ none
unfolding first_taken find_entry
taken_of [] b f = refl
taken_of (e ∷ es) b f = ground (arith, f e.key, taken_of es b (λ k h. f k (ground arith)))

put-Free :
    (d : Entry) (es : List Entry) (b : Buffer)
    → find_entry d.key es ≡ none
    → Free es b
    → Free es (put d b)
unfolding find_entry
put-Free d [] b new f = tt
put-Free d (e ∷ es) b new f = (
  ground (arith, put_entries d e.key b, ==_iff d.key e.key, ==_iff e.key d.key),
  put-Free d es b (ground arith) f.1,
)

requeue_loop-Inv :
    (es : List Entry) (b : Buffer) → Unique es → Free es b → Inv b → Inv (requeue_loop es b)
unfolding requeue_loop
requeue_loop-Inv [] b u f v = v
requeue_loop-Inv (e ∷ es) b u f v =
    requeue_loop-Inv es (put e b) u.1 (put-Free e es b u.0 f.1) (put-Inv e b (rw f.0 refl) v)

-- Requeuing entries of different keys keeps the buffer's invariant; it succeeds, or leaves the buffer
-- as it was.
pub requeue-Inv :
    (t : Batch) (b : Buffer)
    → Unique t.entries
    → Inv b
    → Inv (requeue t b).0 × (((requeue t b).1 ≡ none) ⊎ ((requeue t b).0 ≡ b))
unfolding requeue
requeue-Inv t b u v = elim (Option-cases (first_taken t.entries b)) [
  | inl free ↦
      rw (free, requeue) (requeue_loop-Inv t.entries b u (Free-of t.entries b free) v, inl refl)
  | inr (e, is_taken) ↦ rw (is_taken, requeue) (v, inr refl)
]

requeue_free :
    (t : Batch) (b : Buffer)
    → first_taken t.entries b ≡ none
    → requeue t b ≡ (requeue_loop t.entries b, none)
unfolding requeue
requeue_free t b e = rw (e, requeue) refl

drained_free :
    (pos : Position) (snap : Snapshot) (b : Buffer) (k : Int64)
    → Inv b
    → is_some (find_entry k (drain pos snap b).1.entries) ≡ true
    → Assoc.lookup k (drain pos snap b).0.entries ≡ none
unfolding leaves flushes
drained_free pos snap b k v h =
    ground (arith, drain_entries pos snap b k, drain_batch pos snap b k v)

abbrev returned : Position → Snapshot → Buffer → Buffer × Option HoldError
returned pos snap b = requeue (drain pos snap b).1 (drain pos snap b).0

back :
    (pos : Position) (snap : Snapshot) (b : Buffer)
    → Inv b
    → returned pos snap b ≡ (requeue_loop (drain pos snap b).1.entries (drain pos snap b).0, none)
back pos snap b v = requeue_free (drain pos snap b).1 (drain pos snap b).0 (
    taken_of (drain pos snap b).1.entries (drain pos snap b).0
      (λ k h. drained_free pos snap b k v h))

whole :
    (pos : Position) (snap : Snapshot) (b : Buffer) (k : Int64) (d : Option Entry)
    → Inv b
    → Assoc.lookup k b.entries ≡ d
    → classify pos k ≢ uncut
    → or_else
        (find_entry k (drain pos snap b).1.entries)
        (Assoc.lookup k (drain pos snap b).0.entries)
      ≡ d
unfolding leaves flushes
whole pos snap b k none v at cut =
    ground (arith, drain_entries pos snap b k, drain_batch pos snap b k v)
whole pos snap b k (some e) v at cut = ground (
  arith,
  drain_entries pos snap b k,
  drain_batch pos snap b k v,
  judged_state pos snap b k e at,
  judged_invisible pos snap b k e at,
  final-Held pos snap b k,
)

-- Requeuing the batch that a drain of a buffer with its invariant handed out succeeds, and puts back
-- what the buffer held under every key but the uncut ones, so a deferred flush loses nothing.
pub requeue-drain :
    (pos : Position) (snap : Snapshot) (b : Buffer)
    → Inv b
    → ((requeue (drain pos snap b).1 (drain pos snap b).0).1 ≡ none)
      × ((k : Int64)
          → classify pos k ≢ uncut
          → Assoc.lookup k (requeue (drain pos snap b).1 (drain pos snap b).0).0.entries
            ≡ Assoc.lookup k b.entries)
requeue-drain pos snap b v = (
  ap (λ r. r.1) (back pos snap b v),
  λ k cut.
      ap (λ r. Assoc.lookup k r.0.entries) (back pos snap b v)
      ∙ requeued_entries (drain pos snap b).1.entries (drain pos snap b).0 k
          (drain-Unique pos snap b v)
      ∙ whole pos snap b k (Assoc.lookup k b.entries) v refl cut,
)

hold_image-Inv :
    (h : HeldImage) (b : Buffer)
    → is_image (some h.entry) ≡ true
    → Assoc.lookup h.entry.key b.entries ≡ none
    → Inv b
    → Inv (hold_image h b)
unfolding hold_image
hold_image-Inv h b i free v =
    let stored = put-Inv h.entry b (rw free refl) v in
    record {
      once = stored.once;
      own_key = stored.own_key;
      indexed = stored.indexed;
      pended = λ k. ground (
        arith,
        lookup-insert h.entry.key k (completion h) (put h.entry b).pending,
        put_entries h.entry k b,
        stored.pended k,
      );
      oldest_below = stored.oldest_below;
      oldest_met = stored.oldest_met;
    }

hold_image-Free :
    (h : HeldImage) (es : List Entry) (b : Buffer)
    → find_entry h.entry.key es ≡ none
    → Free es b
    → Free es (hold_image h b)
unfolding find_entry hold_image
hold_image-Free h [] b new f = tt
hold_image-Free h (e ∷ es) b new f = (
  ground (arith, put_entries h.entry e.key b, ==_iff h.entry.key e.key, ==_iff e.key h.entry.key),
  hold_image-Free h es b (ground arith) f.1,
)

abbrev pub AllImages : List HeldImage → Type 0
AllImages [] = Unit {0}
AllImages (h ∷ hs) = (is_image (some h.entry) ≡ true) × AllImages hs

hold_loop-Inv :
    (hs : List HeldImage) (b : Buffer)
    → AllImages hs
    → Unique (entries_of hs)
    → Free (entries_of hs) b
    → Inv b
    → Inv (hold_loop hs b)
unfolding hold_loop
hold_loop-Inv [] b i u f v = v
hold_loop-Inv (h ∷ hs) b i u f v =
    hold_loop-Inv hs (hold_image h b) i.1 u.1 (hold_image-Free h (entries_of hs) b u.0 f.1)
      (hold_image-Inv h b i.0 f.0 v)

-- Holding images of different keys keeps the buffer's invariant; it succeeds, or leaves the buffer as
-- it was.
pub hold-Inv :
    (hs : List HeldImage) (b : Buffer)
    → AllImages hs
    → Unique (entries_of hs)
    → Inv b
    → Inv (hold hs b).0 × (((hold hs b).1 ≡ none) ⊎ ((hold hs b).0 ≡ b))
unfolding hold
hold-Inv hs b i u v = elim (Option-cases (first_taken (entries_of hs) b)) [
  | inl free ↦ rw (free, hold) (hold_loop-Inv hs b i u (Free-of (entries_of hs) b free) v, inl refl)
  | inr (e, is_taken) ↦ rw (is_taken, hold) (v, inr refl)
]
