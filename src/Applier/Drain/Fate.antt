-- ===== src/Applier/Drain/Fate.antt =====
-- What a drain does with the entry under each key.
use pg_sprite.Applier.Buffer.Invariant.{is_some, stands_at}
use pg_sprite.Applier.Entry.{Entry}
use pg_sprite.Prelude.Int64.{Int64}
use pg_sprite.Applier.Drain.{
  Judged, drain_key, insert_by_key, sort_by_key, Entry, List, drain_state, Batch, is_in_flight,
  drain_loop,
}
use pg_sprite.Prelude.{
  [], ◌∷◌, none, some, true, false, inl, inr, refl, Bool, Option, ℕ, List, not, ◌≡◌, arith, ◌&&◌,
  if◌then◌else◌, ◌==◌, ◌++◌, ==_iff, Bool-cases, ap, ◌∙◌,
}
use pg_sprite.Prelude.Assoc
use pg_sprite.Prelude.Assoc.{Assoc, lookup-delete, HasKeysOnce}
use pg_sprite.Copier.Position.{KeyState, uncut, in_flight, landed}
use pg_sprite.Applier.Buffer.{Buffer, remove, track_oldest}

abbrev pub is_landed : KeyState → Bool
is_landed uncut = false
is_landed in_flight = false
is_landed landed = true

-- The entry under the key is judged by the key's state.
abbrev pub is_free : Judged → Buffer → Int64 → Bool
is_free g b k = not (is_some (Assoc.lookup k b.pending)) && not (g.invisible k)

unfoldable pub leaves : Judged → Buffer → Int64 → Bool
leaves g b k = is_free g b k && not (is_in_flight (g.state k))

unfoldable pub flushes : Judged → Buffer → Int64 → Bool
flushes g b k = is_free g b k && is_landed (g.state k)

abbrev pub or_else : Option Entry → Option Entry → Option Entry
or_else none d = d
or_else (some e) d = some e

-- The first entry of the batch for the key.
unfoldable pub find_entry : Int64 → List Entry → Option Entry
find_entry k [] = none
find_entry k (e ∷ es) = if e.key == k then some e else find_entry k es

pub find-append :
    (k : Int64) (xs ys : List Entry)
    → find_entry k (xs ++ ys) ≡ or_else (find_entry k xs) (find_entry k ys)
unfolding find_entry
find-append k [] ys = refl
find-append k (x ∷ xs) ys = ground (arith, find-append k xs ys)

pub find-insert :
    (k : Int64) (e : Entry) (es : List Entry)
    → find_entry k (insert_by_key e es) ≡ (if e.key == k then some e else find_entry k es)
unfolding find_entry insert_by_key
find-insert k e [] = refl
find-insert k e (d ∷ ds) = ground (arith, find-insert k e ds)

pub find-sort : (k : Int64) (es : List Entry) → find_entry k (sort_by_key es) ≡ find_entry k es
unfolding find_entry sort_by_key
find-sort k [] = refl
find-sort k (e ∷ es) = ground (arith, find-insert k e (sort_by_key es), find-sort k es)

pub remove_entries :
    (k j : Int64) (b : Buffer)
    → Assoc.lookup j (remove k b).entries ≡ (if k == j then none else Assoc.lookup j b.entries)
unfolding remove
remove_entries k j b = ground (arith, lookup-delete k j b.entries)

pub remove_pending :
    (k j : Int64) (b : Buffer)
    → Assoc.lookup j (remove k b).pending ≡ (if k == j then none else Assoc.lookup j b.pending)
unfolding remove
remove_pending k j b = ground (arith, lookup-delete k j b.pending)

pub track_rest :
    (lsn : ℕ) (b : Buffer)
    → ((track_oldest lsn b).entries ≡ b.entries)
      × ((track_oldest lsn b).pending ≡ b.pending)
      × ((track_oldest lsn b).moved_from ≡ b.moved_from)
unfolding track_oldest
track_rest lsn b = ground arith

-- The entries stand under their own keys.
abbrev pub Owned : Assoc Entry → Type 0
Owned [] = Unit {0}
Owned ((k, e) ∷ m) = ((e.key == k) ≡ true) × Owned m

pub stands-Owned :
    (m : Assoc Entry)
    → HasKeysOnce m
    → ((k : Int64) → stands_at k (Assoc.lookup k m) ≡ true)
    → Owned m
unfolding Assoc.lookup
stands-Owned [] h own = tt
stands-Owned ((k, e) ∷ m) h own = (
  ground (arith, own k),
  stands-Owned m h.1 (λ j.
      ground (
        arith,
        own j,
        h.0,
        λ (q : (k == j) ≡ true). ap (λ i. Assoc.lookup i m) ((==_iff k j).0 q),
      )),
)

at_key : (f : Int64 → Bool) (k j : Int64) → (k == j && f k) ≡ (k == j && f j)
at_key f k j = elim (Bool-cases (k == j)) [
  | inl same ↦ rw same (ap f ((==_iff k j).0 same))
  | inr apart ↦ rw apart refl
]

pub key_entries :
    (g : Judged) (k j : Int64) (e : Entry) (b : Buffer) (t : Batch)
    → Assoc.lookup j (drain_key g k e b t).0.entries
      ≡ (if k == j && leaves g b k then none else Assoc.lookup j b.entries)
unfolding drain_key drain_state leaves
key_entries g k j e b t = ground (arith, track_rest e.first_lsn b, remove_entries k j b)

key_pending :
    (g : Judged) (k j : Int64) (e : Entry) (b : Buffer) (t : Batch)
    → Assoc.lookup j (drain_key g k e b t).0.pending ≡ Assoc.lookup j b.pending
unfolding drain_key drain_state
key_pending g k j e b t = ground (arith, track_rest e.first_lsn b, remove_pending k j b)

pub key_batch :
    (g : Judged) (k j : Int64) (e : Entry) (b : Buffer) (t : Batch)
    → find_entry j (drain_key g k e b t).1.entries
      ≡ or_else (find_entry j t.entries) (if e.key == j && flushes g b k then some e else none)
unfolding drain_key drain_state find_entry flushes
key_batch g k j e b t = ground (arith, find-append j t.entries (e ∷ []))

same_judgement :
    (g : Judged) (k j : Int64) (e : Entry) (b : Buffer) (t : Batch)
    → (leaves g (drain_key g k e b t).0 j ≡ leaves g b j)
      × (flushes g (drain_key g k e b t).0 j ≡ flushes g b j)
unfolding leaves flushes
same_judgement g k j e b t = (rw (key_pending g k j e b t) refl, rw (key_pending g k j e b t) refl)

-- The loop treats each key as one round does, whatever came before.
pub loop_entries :
    (g : Judged) (m : Assoc Entry) (b : Buffer) (t : Batch) (j : Int64)
    → Assoc.lookup j (drain_loop g m b t).0.entries
      ≡ (if is_some (Assoc.lookup j m) && leaves g b j then none else Assoc.lookup j b.entries)
unfolding drain_loop Assoc.lookup
loop_entries g [] b t j = refl
loop_entries g ((k, e) ∷ m) b t j = ground (
  arith,
  loop_entries g m (drain_key g k e b t).0 (drain_key g k e b t).1 j,
  key_entries g k j e b t,
  same_judgement g k j e b t,
  at_key (leaves g b) k j,
)

pub loop_pending :
    (g : Judged) (m : Assoc Entry) (b : Buffer) (t : Batch) (j : Int64)
    → Assoc.lookup j (drain_loop g m b t).0.pending ≡ Assoc.lookup j b.pending
unfolding drain_loop
loop_pending g [] b t j = refl
loop_pending g ((k, e) ∷ m) b t j =
    loop_pending g m (drain_key g k e b t).0 (drain_key g k e b t).1 j ∙ key_pending g k j e b t

pub loop_batch :
    (g : Judged) (m : Assoc Entry) (b : Buffer) (t : Batch) (j : Int64)
    → Owned m
    → find_entry j (drain_loop g m b t).1.entries
      ≡ or_else (find_entry j t.entries) (if flushes g b j then Assoc.lookup j m else none)
unfolding drain_loop Assoc.lookup
loop_batch g [] b t j own = ground arith
loop_batch g ((k, e) ∷ m) b t j own = ground (
  arith,
  loop_batch g m (drain_key g k e b t).0 (drain_key g k e b t).1 j own.1,
  key_batch g k j e b t,
  same_judgement g k j e b t,
  at_key (flushes g b) k j,
  (==_iff e.key k).0 own.0,
)
