-- ===== src/Applier/Hold/Unique.antt =====
-- Entries of different keys, as a drain hands them out.
use pg_sprite.Applier.Drain.Safety.{final, fresh}
use pg_sprite.Applier.Buffer.Invariant.{is_some}
use pg_sprite.Applier.Buffer.Invariant.{Inv}
use pg_sprite.Applier.Snapshot.{Snapshot}
use pg_sprite.Applier.Buffer.{Buffer}
use pg_sprite.Prelude.Int64.{Int64}
use pg_sprite.Applier.Entry.{Entry}
use pg_sprite.Applier.Drain.{
  drain, drain_key, drain_loop, drain_state, insert_by_key, sort_by_key, Judged, empty_batch, Batch,
}
use pg_sprite.Applier.Drain.Fate.{
  find_entry, find-sort, Owned, find-append, find-insert, key_batch, stands-Owned,
}
use pg_sprite.Prelude.{
  [], ◌∷◌, none, true, inl, inr, refl, List, ◌≡◌, Bool-cases, ◌++◌, ◌∙◌, arith, leb, ◌==◌, ap,
  ==_iff,
}
use pg_sprite.Prelude.Assoc
use pg_sprite.Prelude.Assoc.{Assoc, HasKeysOnce}
use pg_sprite.Copier.Position.{KeyState, uncut, in_flight, landed, Position}

abbrev pub Unique : List Entry → Type 0
Unique [] = Unit {0}
Unique (e ∷ es) = (find_entry e.key es ≡ none) × Unique es

pub append-Unique :
    (es : List Entry) (e : Entry) → Unique es → find_entry e.key es ≡ none → Unique (es ++ e ∷ [])
unfolding find_entry
append-Unique [] e u f = (refl, tt)
append-Unique (d ∷ ds) e u f =
    (ground (arith, find-append d.key ds (e ∷ []), u.0), append-Unique ds e u.1 (ground arith))

insert-Unique :
    (e : Entry) (es : List Entry)
    → Unique es
    → find_entry e.key es ≡ none
    → Unique (insert_by_key e es)
unfolding insert_by_key find_entry
insert-Unique e [] u f = (refl, tt)
insert-Unique e (d ∷ ds) u f = elim (Bool-cases (leb e.key d.key)) [
  | inl before ↦ rw before (f, u)
  | inr later ↦
      rw later (ground (arith, find-insert d.key e ds), insert-Unique e ds u.1 (ground arith))
]

sort-Unique : (es : List Entry) → Unique es → Unique (sort_by_key es)
unfolding sort_by_key
sort-Unique [] u = tt
sort-Unique (e ∷ es) u =
    insert-Unique e (sort_by_key es) (sort-Unique es u.1) (find-sort e.key es ∙ u.0)

by_state :
    (s : KeyState) (k : Int64) (e : Entry) (b : Buffer) (t : Batch)
    → (e.key == k) ≡ true
    → find_entry k t.entries ≡ none
    → Unique t.entries
    → Unique (drain_state s k e b t).1.entries
unfolding drain_state
by_state uncut k e b t own new u = u
by_state in_flight k e b t own new u = u
by_state landed k e b t own new u =
    append-Unique t.entries e u (ap (λ j. find_entry j t.entries) ((==_iff e.key k).0 own) ∙ new)

key-Unique :
    (g : Judged) (k : Int64) (e : Entry) (b : Buffer) (t : Batch)
    → (e.key == k) ≡ true
    → find_entry k t.entries ≡ none
    → Unique t.entries
    → Unique (drain_key g k e b t).1.entries
unfolding drain_key
key-Unique g k e b t own new u = elim (Bool-cases (is_some (Assoc.lookup k b.pending))) [
  | inl held ↦ rw held u
  | inr free ↦ elim (Bool-cases (g.invisible k)) [
    | inl hidden ↦ rw (free, hidden) u
    | inr shown ↦ rw (free, shown) (by_state (g.state k) k e b t own new u)
  ]
]

loop-Unique :
    (g : Judged) (m : Assoc Entry) (b : Buffer) (t : Batch)
    → HasKeysOnce m
    → Owned m
    → ((j : Int64) → is_some (Assoc.lookup j m) ≡ true → find_entry j t.entries ≡ none)
    → Unique t.entries
    → Unique (drain_loop g m b t).1.entries
unfolding drain_loop Assoc.lookup
loop-Unique g [] b t h own new u = u
loop-Unique g ((k, e) ∷ m) b t h own new u =
    loop-Unique g m (drain_key g k e b t).0 (drain_key g k e b t).1 h.1 own.1
      (λ j there. ground (
        arith,
        new j,
        key_batch g k j e b t,
        (==_iff e.key k).0 own.0,
        λ (q : (k == j) ≡ true). ap (λ i. Assoc.lookup i m) ((==_iff k j).0 q),
        h.0,
      ))
      (key-Unique g k e b t own.0 (new k (ground arith)) u)

-- A drain never flushes two entries for one key.
pub drain-Unique :
    (pos : Position) (snap : Snapshot) (b : Buffer) → Inv b → Unique (drain pos snap b).1.entries
unfolding drain empty_batch find_entry
drain-Unique pos snap b v =
    let g = final pos snap b in
    sort-Unique (drain_loop g b.entries (fresh b) empty_batch).1.entries (
      loop-Unique g b.entries (fresh b) empty_batch v.once (stands-Owned b.entries v.once v.own_key)
        (λ j h. refl) tt)
