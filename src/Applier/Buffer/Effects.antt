-- ===== src/Applier/Buffer/Effects.antt =====
-- What the buffer's inner operations do to each key, as equations.
use pg_sprite.Prelude.Int64.{Int64}
use pg_sprite.Applier.Buffer.{
  has_pair, mark_entry, mark_image, mark_images, Entry, Int64, drop_pair, is_key, Buffer, not, put,
  unindex, index, drop_pending, track_oldest,
}
use pg_sprite.Prelude.{
  [], ◌∷◌, none, some, true, false, refl, Bool, List, Option, ◌==◌, ◌≡◌, arith, if◌then◌else◌, ◌&&◌,
  not, ◌||◌, ltb,
}
use pg_sprite.Prelude.Assoc
use pg_sprite.Prelude.Assoc.{lookup-delete, lookup-insert, Assoc}
use pg_sprite.Applier.Entry.{Entry}

-- The entry is an image that moved from the key.
abbrev pub is_from : Option Entry → Int64 → Bool
is_from none o = false
is_from (some e) o = elim e.old_key [ none ↦ false | some old ↦ old == o ]

-- The entry with its old key marked as reused, if the test holds.
abbrev pub remark : Bool → Option Entry → Option Entry
remark b none = none
remark b (some e) = if b then some (record e { old_key_reused = true }) else some e

pub has_pair-drop :
    (old k o j : Int64) (ps : List (Int64 × Int64))
    → has_pair o j (drop_pair old k ps) ≡ (if old == o && k == j then false else has_pair o j ps)
unfolding has_pair drop_pair
has_pair-drop old k o j [] = ground arith
has_pair-drop old k o j ((p, i) ∷ ps) = ground (arith, has_pair-drop old k o j ps)

pub lookup-mark_entry :
    (k j : Int64) (m : Assoc Entry)
    → Assoc.lookup j (mark_entry k m) ≡ remark (k == j) (Assoc.lookup j m)
unfolding mark_entry Assoc.lookup
lookup-mark_entry k j [] = refl
lookup-mark_entry k j ((i, e) ∷ m) = ground (arith, lookup-mark_entry k j m)

-- Which keys the landing of a row on `k` marks: the images that left `k`, but for the mover.
abbrev pub marks : List (Int64 × Int64) → Int64 → Option Int64 → Int64 → Bool
marks ps k mover j = has_pair k j ps && not (is_key mover j)

mark_image_entries :
    (mover : Option Int64) (i j : Int64) (b : Buffer)
    → Assoc.lookup j (mark_image mover i b).entries
      ≡ remark (i == j && not (is_key mover j)) (Assoc.lookup j b.entries)
unfolding mark_image is_key
mark_image_entries mover i j b = ground (arith, lookup-mark_entry i j b.entries)

pub mark_images_entries :
    (ps : List (Int64 × Int64)) (k j : Int64) (mover : Option Int64) (b : Buffer)
    → Assoc.lookup j (mark_images ps k mover b).entries
      ≡ remark (marks ps k mover j) (Assoc.lookup j b.entries)
unfolding mark_images has_pair
mark_images_entries [] k j mover b = ground arith
mark_images_entries ((o, i) ∷ ps) k j mover b = ground (
  arith,
  mark_images_entries ps k j mover b,
  mark_images_entries ps k j mover (mark_image mover i b),
  mark_image_entries mover i j b,
)

-- Nothing but entries and pending completions is written.
mark_image_rest :
    (mover : Option Int64) (i : Int64) (b : Buffer)
    → ((mark_image mover i b).moved_from ≡ b.moved_from)
      × ((mark_image mover i b).oldest ≡ b.oldest)
      × ((mark_image mover i b).has_oldest ≡ b.has_oldest)
unfolding mark_image
mark_image_rest mover i b = ground arith

pub mark_images_rest :
    (ps : List (Int64 × Int64)) (k : Int64) (mover : Option Int64) (b : Buffer)
    → ((mark_images ps k mover b).moved_from ≡ b.moved_from)
      × ((mark_images ps k mover b).oldest ≡ b.oldest)
      × ((mark_images ps k mover b).has_oldest ≡ b.has_oldest)
unfolding mark_images
mark_images_rest [] k mover b = (refl, refl, refl)
mark_images_rest ((o, i) ∷ ps) k mover b = ground (
  arith,
  mark_images_rest ps k mover b,
  mark_images_rest ps k mover (mark_image mover i b),
  mark_image_rest mover i b,
)

mark_image_pending :
    (mover : Option Int64) (i j : Int64) (b : Buffer)
    → Assoc.lookup j (mark_image mover i b).pending
      ≡ (if i == j && not (is_key mover j) then none else Assoc.lookup j b.pending)
unfolding mark_image is_key
mark_image_pending mover i j b = ground (arith, lookup-delete i j b.pending)

-- A marked image loses its pending completion.
pub mark_images_pending :
    (ps : List (Int64 × Int64)) (k j : Int64) (mover : Option Int64) (b : Buffer)
    → Assoc.lookup j (mark_images ps k mover b).pending
      ≡ (if marks ps k mover j then none else Assoc.lookup j b.pending)
unfolding mark_images has_pair
mark_images_pending [] k j mover b = ground arith
mark_images_pending ((o, i) ∷ ps) k j mover b = ground (
  arith,
  mark_images_pending ps k j mover b,
  mark_images_pending ps k j mover (mark_image mover i b),
  mark_image_pending mover i j b,
)

-- What `put` leaves under each key.
pub put_entries :
    (e : Entry) (j : Int64) (b : Buffer)
    → Assoc.lookup j (put e b).entries ≡ (if e.key == j then some e else Assoc.lookup j b.entries)
unfolding put unindex index drop_pending track_oldest
put_entries e j b = ground (arith, lookup-insert e.key j e b.entries)

pub put_pending :
    (e : Entry) (j : Int64) (b : Buffer)
    → Assoc.lookup j (put e b).pending ≡ (if e.key == j then none else Assoc.lookup j b.pending)
unfolding put unindex index drop_pending track_oldest
put_pending e j b = ground (arith, lookup-delete e.key j b.pending)

pub put_oldest :
    (e : Entry) (b : Buffer)
    → ((put e b).has_oldest ≡ true)
      × ((put e b).oldest
          ≡ (if not b.has_oldest || ltb e.first_lsn b.oldest then e.first_lsn else b.oldest))
unfolding put unindex index drop_pending track_oldest
put_oldest e b = ground arith
