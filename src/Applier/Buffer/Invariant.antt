-- ===== src/Applier/Buffer/Invariant.antt =====
-- The buffer's invariant: one entry to a key, stored under its own key; the index of moved images is
-- exact; a completion waits only under an image; the oldest position is the least of the entries'.
use pg_sprite.Applier.Buffer.{
  Buffer, index, new_buffer, unindex, Bool, has_pair, put, is_image, drop_pending, track_oldest,
}
use pg_sprite.Prelude.Int64.{Int64}
use pg_sprite.Prelude.{
  none, some, true, false, inl, inr, refl, Option, ℕ, Bool, ◌≡◌, ◌==◌, ◌&&◌, leb, not, ◌⊎◌,
  if◌then◌else◌, Option-cases, arith,
}
use pg_sprite.Prelude.Assoc
use pg_sprite.Prelude.Assoc.{HasKeysOnce}
use pg_sprite.Applier.Entry.{Entry}
use pg_sprite.Applier.Buffer.Effects.{is_from, has_pair-drop}

-- The entry, if there is one, stands under its own key.
abbrev pub stands_at : Int64 → Option Entry → Bool
stands_at k none = true
stands_at k (some e) = e.key == k

abbrev pub is_some {ℓ} : {A : Type ℓ} → Option A → Bool
is_some none = false
is_some (some x) = true

-- The position lies at or below the entry's, if there is one.
abbrev pub covers_lsn : ℕ → Bool → Option Entry → Bool
covers_lsn oldest has none = true
covers_lsn oldest has (some e) = has && leb oldest e.first_lsn

pub record Inv (b : Buffer) : Type 0 where
  pub once : HasKeysOnce b.entries
  pub own_key : (k : Int64) → stands_at k (Assoc.lookup k b.entries) ≡ true
  pub indexed : (o k : Int64) → has_pair o k b.moved_from ≡ is_from (Assoc.lookup k b.entries) o
  pub pended :
      (k : Int64)
      → (is_some (Assoc.lookup k b.pending) && not (is_image (Assoc.lookup k b.entries))) ≡ false
  pub oldest_below :
      (k : Int64) → covers_lsn b.oldest b.has_oldest (Assoc.lookup k b.entries) ≡ true
  pub oldest_met :
      (b.has_oldest ≡ false)
      ⊎ ((k : Int64) × (e : Entry) × (Assoc.lookup k b.entries ≡ some e) × (e.first_lsn ≡ b.oldest))

pub new_buffer-Inv : Inv new_buffer
unfolding new_buffer has_pair Assoc.lookup
new_buffer-Inv = record {
  once = tt;
  own_key = λ k. refl;
  indexed = λ o k. refl;
  pended = λ k. refl;
  oldest_below = λ k. refl;
  oldest_met = inl refl;
}

pub unindex_pairs :
    (d : Option Entry) (k o j : Int64) (b : Buffer)
    → stands_at k d ≡ true
    → has_pair o k b.moved_from ≡ is_from d o
    → has_pair o j (unindex d b).moved_from ≡ (if k == j then false else has_pair o j b.moved_from)
unfolding unindex
unindex_pairs none k o j b s h = ground arith
unindex_pairs (some d) k o j b s h = elim (Option-cases d.old_key) [
  | inl e ↦ rw (e, unindex) (ground arith)
  | inr (old, e) ↦ rw (e, unindex) (ground (arith, has_pair-drop old d.key o j b.moved_from))
]

index_pairs :
    (e : Entry) (o j : Int64) (b : Buffer)
    → has_pair o e.key b.moved_from ≡ false
    → has_pair o j (index e b).moved_from
      ≡ (if e.key == j then is_from (some e) o else has_pair o j b.moved_from)
unfolding index has_pair
index_pairs e o j b h = elim (Option-cases e.old_key) [
  | inl q ↦ rw (q, index) (ground arith)
  | inr (old, q) ↦ rw (q, index) (ground (arith, has_pair-drop old e.key o j b.moved_from))
]

track_oldest_pairs : (lsn : ℕ) (b : Buffer) → (track_oldest lsn b).moved_from ≡ b.moved_from
unfolding track_oldest
track_oldest_pairs lsn b = ground arith

-- The buffer in the middle of `put`, with the entry written and not yet indexed.
abbrev written : Entry → Buffer → Buffer
unfolding drop_pending
written e b =
    let dropped = drop_pending e.key (unindex (Assoc.lookup e.key b.entries) b) in
    record dropped { entries = Assoc.insert e.key e dropped.entries }

-- `put` keeps the index exact.
pub put_pairs :
    (e : Entry) (o j : Int64) (b : Buffer)
    → Inv b
    → has_pair o j (put e b).moved_from
      ≡ (if e.key == j then is_from (some e) o else has_pair o j b.moved_from)
unfolding put drop_pending
put_pairs e o j b v =
    let d = Assoc.lookup e.key b.entries in
    let left = λ (i : Int64). unindex_pairs d e.key o i b (v.own_key e.key) (v.indexed o e.key) in
    ground (
      arith,
      track_oldest_pairs e.first_lsn (index e (written e b)),
      index_pairs e o j (written e b) (ground (arith, left e.key)),
      left j,
    )
