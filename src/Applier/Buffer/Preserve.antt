-- ===== src/Applier/Buffer/Preserve.antt =====
-- The two inner writes of the buffer, `put` and the marking of reused old keys, keep the invariant.
use pg_sprite.Prelude.Int64.{Int64}
use pg_sprite.Applier.Buffer.{
  mark_entry, mark_image, mark_images, mark_old_key_reused, put, Buffer, Int64, Option, unindex,
  index, drop_pending, is_image, track_oldest,
}
use pg_sprite.Prelude.{
  [], ◌∷◌, none, some, true, inl, inr, refl, Bool, List, Option, Bool-cases, arith, ℕ, ◌≡◌, ◌==◌,
  subst, if◌then◌else◌, not, ◌||◌, ltb, ap, ==_iff,
}
use pg_sprite.Prelude.Assoc
use pg_sprite.Prelude.Assoc.{HasKeysOnce, insert-HasKeysOnce}
use pg_sprite.Applier.Entry.{Entry}
use pg_sprite.Applier.Buffer.Effects.{
  is_from, remark, marks, lookup-mark_entry, mark_images_entries, mark_images_rest,
  mark_images_pending, put_entries, put_pending, put_oldest,
}
use pg_sprite.Applier.Buffer.Invariant.{Inv, put_pairs, stands_at, covers_lsn}

mark_entry-once : (k : Int64) (m : Assoc.Assoc Entry) → HasKeysOnce m → HasKeysOnce (mark_entry k m)
unfolding mark_entry
mark_entry-once k [] h = tt
mark_entry-once k ((j, e) ∷ m) h = ground (arith, lookup-mark_entry k j m, mark_entry-once k m h.1)

mark_image-once :
    (mover : Option Int64) (i : Int64) (b : Buffer)
    → HasKeysOnce b.entries
    → HasKeysOnce (mark_image mover i b).entries
unfolding mark_image
mark_image-once mover i b h = ground (arith, mark_entry-once i b.entries h)

mark_images-once :
    (ps : List (Int64 × Int64)) (k : Int64) (mover : Option Int64) (b : Buffer)
    → HasKeysOnce b.entries
    → HasKeysOnce (mark_images ps k mover b).entries
unfolding mark_images
mark_images-once [] k mover b h = h
mark_images-once ((o, i) ∷ ps) k mover b h = elim (Bool-cases (o == k)) [
  | inl hit ↦
      subst (λ c. HasKeysOnce (mark_images ps k mover c).entries) (ground arith)
        (mark_images-once ps k mover (mark_image mover i b) (mark_image-once mover i b h))
  | inr miss ↦
      subst (λ c. HasKeysOnce (mark_images ps k mover c).entries) (ground arith)
        (mark_images-once ps k mover b h)
]

-- A mark changes neither key, origin, kind nor position of an entry.
pub remark_keeps :
    (m : Bool) (e : Option Entry) (k o : Int64) (lsn : ℕ) (has : Bool)
    → (stands_at k (remark m e) ≡ stands_at k e)
      × (is_from (remark m e) o ≡ is_from e o)
      × (is_image (remark m e) ≡ is_image e)
      × (covers_lsn lsn has (remark m e) ≡ covers_lsn lsn has e)
remark_keeps m none k o lsn has = (refl, refl, refl, refl)
remark_keeps m (some e) k o lsn has = ground arith

pub mark-Inv :
    (k : Int64) (mover : Option Int64) (b : Buffer) → Inv b → Inv (mark_old_key_reused k mover b)
unfolding mark_old_key_reused
mark-Inv k mover b v =
    let rest = mark_images_rest b.moved_from k mover b in
    let keeps = λ (j o : Int64).
      remark_keeps (marks b.moved_from k mover j) (Assoc.lookup j b.entries) j o b.oldest
        b.has_oldest in
    record {
      once = mark_images-once b.moved_from k mover b v.once;
      own_key = λ j.
          ground (arith, mark_images_entries b.moved_from k j mover b, (keeps j j).0, v.own_key j);
      indexed = λ o j. ground (
        arith,
        mark_images_entries b.moved_from k j mover b,
        rest.0,
        (keeps j o).1,
        v.indexed o j,
      );
      pended = λ j. ground (
        arith,
        mark_images_entries b.moved_from k j mover b,
        mark_images_pending b.moved_from k j mover b,
        (keeps j j).2,
        v.pended j,
      );
      oldest_below = λ j. ground (
        arith,
        mark_images_entries b.moved_from k j mover b,
        rest.1,
        rest.2,
        (keeps j j).3,
        v.oldest_below j,
      );
      oldest_met = elim v.oldest_met [
        | inl no_entry ↦ inl (ground (arith, rest.2))
        | inr (j, e, at, least) ↦ inr (
          j,
          (if marks b.moved_from k mover j then record e { old_key_reused = true } else e),
          ground (arith, mark_images_entries b.moved_from k j mover b),
          ground (arith, rest.1),
        )
      ];
    }

put_entries_eq : (e : Entry) (b : Buffer) → (put e b).entries ≡ Assoc.insert e.key e b.entries
unfolding put unindex index drop_pending track_oldest
put_entries_eq e b = ground arith

-- Where the new least position is met.
put_met :
    (e : Entry) (b : Buffer)
    → covers_lsn e.first_lsn true (Assoc.lookup e.key b.entries) ≡ true
    → Inv b
    → (k : Int64) × (d : Entry) × (Assoc.lookup k (put e b).entries ≡ some d)
      × (d.first_lsn ≡ (put e b).oldest)
put_met e b early v = elim (Bool-cases (not b.has_oldest || ltb e.first_lsn b.oldest)) [
  | inl lower ↦
      (e.key, e, ground (arith, put_entries e e.key b), ground (arith, (put_oldest e b).1))
  | inr stays ↦ elim v.oldest_met [
    | inl no_entry ↦ absurd (ground arith)
    | inr (k, d, at, least) ↦ elim (Bool-cases (e.key == k)) [
      | inl same ↦ (
        e.key,
        e,
        ground (arith, put_entries e e.key b),
        ground (
          arith,
          (put_oldest e b).1,
          ap (λ j. Assoc.lookup j b.entries) ((==_iff e.key k).0 same),
        ),
      )
      | inr other ↦ (k, d, ground (arith, put_entries e k b), ground (arith, (put_oldest e b).1))
    ]
  ]
]

-- An entry whose position is no later than that of the one it replaces keeps the invariant.
pub put-Inv :
    (e : Entry) (b : Buffer)
    → covers_lsn e.first_lsn true (Assoc.lookup e.key b.entries) ≡ true
    → Inv b
    → Inv (put e b)
put-Inv e b early v = record {
  once = rw (put_entries_eq e b) (insert-HasKeysOnce e.key e b.entries v.once);
  own_key = λ k. ground (arith, put_entries e k b, v.own_key k);
  indexed = λ o k. ground (arith, put_entries e k b, put_pairs e o k b v, v.indexed o k);
  pended = λ k. ground (arith, put_entries e k b, put_pending e k b, v.pended k);
  oldest_below = λ k. ground (arith, put_entries e k b, put_oldest e b, v.oldest_below k);
  oldest_met = inr (put_met e b early v);
}
