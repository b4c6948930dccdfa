-- ===== src/Applier/Drain/Progress.antt =====
-- A drain leaves no entry waiting without a reason, and counts each once.
use pg_sprite.Applier.Drain.Safety.{final, drain_entries, judged_state, judged_invisible, fresh}
use pg_sprite.Applier.Buffer.Effects.{is_from}
use pg_sprite.Applier.Snapshot.{Snapshot, visible}
use pg_sprite.Applier.Entry.{Entry}
use pg_sprite.Applier.Drain.Fate.{leaves}
use pg_sprite.Applier.Buffer.{is_key, Buffer, has_pair}
use pg_sprite.Applier.Drain.{
  Batch, defer_loop, defer_pairs, defer_pass, drain, drain_key, drain_loop, insert_by_key,
  move_pairs, sort_by_key, Entry, Judged, List, Position, drain_state, empty_batch, ℕ, MovePair,
  Snapshot, length, defer_pair, judge, pair_of,
}
use pg_sprite.Prelude.Int64.{Int64}
use pg_sprite.Prelude.{
  zero, suc, [], ◌∷◌, none, some, true, false, inl, inr, refl, Bool, List, ℕ, Option, length, ◌≡◌,
  arith, ◌==◌, length-append, ◌⊎◌, ◌≢◌, Bool-cases, ◌*◌, sym, ◌∙◌, ◌+◌, Option-cases, ap, ==_iff,
}
use pg_sprite.Prelude.Assoc
use pg_sprite.Prelude.Assoc.{Assoc, HasKeysOnce}
use pg_sprite.Copier.Position.{KeyState, in_flight, Position, classify}
use pg_sprite.Applier.Buffer.Invariant.{Inv, is_some}

-- The key is in neither half of any pair.
abbrev Apart : Int64 → List MovePair → Type 0
Apart k [] = Unit {0}
Apart k (p ∷ ps) = ((p.moved == k) ≡ false) × ((p.old == k) ≡ false) × Apart k ps

pass-Apart :
    (invisible : Int64 → Bool) (ps : List MovePair) (state : Int64 → KeyState) (k : Int64)
    → Apart k ps
    → (defer_pass invisible ps state).0 k ≡ state k
unfolding defer_pass
pass-Apart invisible [] state k a = refl
pass-Apart invisible (p ∷ ps) state k a =
    ground (
      arith,
      pass-Apart invisible ps state k a.2,
      pass-Apart invisible ps (defer_pair state p) k a.2,
    )

loop-Apart :
    (fuel : ℕ) (invisible : Int64 → Bool) (ps : List MovePair) (state : Int64 → KeyState)
    (k : Int64)
    → Apart k ps
    → defer_loop fuel invisible ps state k ≡ state k
unfolding defer_loop
loop-Apart zero invisible ps state k a = refl
loop-Apart (suc fuel) invisible ps state k a = ground (
  arith,
  pass-Apart invisible ps state k a,
  loop-Apart fuel invisible ps (defer_pass invisible ps state).0 k a,
)

pair_of-Apart :
    (all : Assoc Entry) (j k : Int64) (old : Option Int64) (rest : List MovePair)
    → ((j == k) ≡ false) ⊎ (old ≡ none)
    → is_key old k ≡ false
    → Apart k rest
    → Apart k (pair_of all j old rest)
unfolding is_key
pair_of-Apart all j k none rest apart other a = a
pair_of-Apart all j k (some old) rest apart other a =
    elim (Bool-cases (is_some (Assoc.lookup old all))) [
      | inl there ↦ rw there (ground arith, other, a)
      | inr gone ↦ rw gone a
    ]

apart_or_own :
    (b : Bool) (old : Option Int64) → (b ≡ true → old ≡ none) → (b ≡ false) ⊎ (old ≡ none)
apart_or_own true old h = inr (h refl)
apart_or_own false old h = inl refl

key_from : (k : Int64) (e : Entry) → is_from (some e) k ≡ false → is_key e.old_key k ≡ false
unfolding is_key
key_from k e h = elim (Option-cases e.old_key) [
  | inl q ↦ ground (arith, q)
  | inr (old, q) ↦ ground (arith, q)
]

pairs-Apart :
    (all m : Assoc Entry) (k : Int64)
    → HasKeysOnce m
    → ((e : Entry) → Assoc.lookup k m ≡ some e → e.old_key ≡ none)
    → ((j : Int64) → is_from (Assoc.lookup j m) k ≡ false)
    → Apart k (move_pairs all m)
unfolding move_pairs Assoc.lookup
pairs-Apart all [] k h own other = tt
pairs-Apart all ((j, e) ∷ m) k h own other =
    let same_key =
      λ (i : Int64) (q : (j == i) ≡ true). ap (λ x. Assoc.lookup x m) ((==_iff j i).0 q) in
    pair_of-Apart all j k e.old_key (move_pairs all m)
      (apart_or_own (j == k) e.old_key (λ q. own e (rw q refl)))
      (key_from k e (ground (arith, other j)))
      (pairs-Apart all m k h.1 (λ d a. own d (ground (arith, same_key k, h.0)))
        (λ i. ground (arith, other i, same_key i, h.0)))

stays :
    (pos : Position) (snap : Snapshot) (b : Buffer) (k : Int64) (e : Entry)
    → Inv b
    → Assoc.lookup k b.entries ≡ some e
    → e.old_key ≡ none
    → ((j : Int64) → has_pair k j b.moved_from ≡ false)
    → (final pos snap b).state k ≡ (judge pos snap b).state k
unfolding defer_pairs
stays pos snap b k e v at own other =
    let ps = move_pairs b.entries b.entries in
    let g = judge pos snap b in
    loop-Apart (suc (2 * length ps)) g.invisible ps g.state k (
      pairs-Apart b.entries b.entries k v.once (λ d a. ground (arith, a, at, own))
        (λ j. sym (v.indexed k j) ∙ other j))

-- In a buffer that satisfies its invariant, an entry whose transaction is visible, without a pending
-- completion, that neither moved nor has an image moved from its key, leaves the buffer unless its key
-- is in flight.
pub drain-frees :
    (pos : Position) (snap : Snapshot) (b : Buffer) (k : Int64) (e : Entry)
    → Inv b
    → Assoc.lookup k b.entries ≡ some e
    → Assoc.lookup k b.pending ≡ none
    → visible snap e.xid ≡ true
    → e.old_key ≡ none
    → ((j : Int64) → has_pair k j b.moved_from ≡ false)
    → classify pos k ≢ in_flight
    → Assoc.lookup k (drain pos snap b).0.entries ≡ none
unfolding leaves
drain-frees pos snap b k e v at free shown own other moved = ground (
  arith,
  drain_entries pos snap b k,
  judged_state pos snap b k e at,
  judged_invisible pos snap b k e at,
  stays pos snap b k e v at own other,
)

insert-length : (e : Entry) (es : List Entry) → length (insert_by_key e es) ≡ suc (length es)
unfolding insert_by_key
insert-length e [] = refl
insert-length e (d ∷ ds) = ground (arith, insert-length e ds)

sort-length : (es : List Entry) → length (sort_by_key es) ≡ length es
unfolding sort_by_key
sort-length [] = refl
sort-length (e ∷ es) = ground (arith, insert-length e (sort_by_key es), sort-length es)

abbrev counted : Batch → ℕ
counted t = length t.entries + t.discarded + t.deferred + t.held + t.invisible

key-counted :
    (g : Judged) (k : Int64) (e : Entry) (b : Buffer) (t : Batch)
    → counted (drain_key g k e b t).1 ≡ suc (counted t)
unfolding drain_key drain_state
key-counted g k e b t = ground (arith, length-append t.entries (e ∷ []))

loop-counted :
    (g : Judged) (m : Assoc Entry) (b : Buffer) (t : Batch)
    → counted (drain_loop g m b t).1 ≡ length m + counted t
unfolding drain_loop
loop-counted g [] b t = omega arith
loop-counted g ((k, e) ∷ m) b t =
    omega (
      arith,
      key-counted g k e b t,
      loop-counted g m (drain_key g k e b t).0 (drain_key g k e b t).1,
    )

-- Every buffered entry is counted once: flushed, discarded, deferred, held or invisible.
pub drain-counted :
    (pos : Position) (snap : Snapshot) (b : Buffer)
    → (let t = (drain pos snap b).1 in
        length t.entries + t.discarded + t.deferred + t.held + t.invisible)
      ≡ length b.entries
unfolding drain empty_batch
drain-counted pos snap b =
    let t = (drain_loop (final pos snap b) b.entries (fresh b) empty_batch).1 in
    omega (
      arith,
      sort-length t.entries,
      loop-counted (final pos snap b) b.entries (fresh b) empty_batch,
    )
