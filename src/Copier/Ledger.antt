-- ===== src/Copier/Ledger.antt =====
-- pkg/copier/ledger.go: the bookkeeping of claimed and landed chunks.
-- The map `partial` is an association list keyed by chunk; `slices.Delete` and `slices.Index` act on
-- the first match. The loop of `advance` runs on fuel.
pub mod Lookup
pub mod Invariant
pub mod Progress
use pg_sprite.Prelude.{
  ℕ, zero, suc, Bool, true, false, not, Option, none, some, List, [], ◌∷◌, ◌++◌, ◌==◌, length,
  if◌then◌else◌,
}
use pg_sprite.Prelude.Int64.{Int64, min_int64, zero64, max_int64, succ64, add64, sub64}
use pg_sprite.Copier.Types.{Chunk, chunk_eq, Watermark, new_watermark, is_complete}

-- pkg/copier/chunker.go: the lower bound that follows a watermark, and whether nothing is left.
unfoldable pub start_after : Watermark → Int64 × Bool
unfolding is_complete
start_after from =
    if not from.valid
    then (min_int64, false)
    else (if is_complete from then (zero64, true) else (succ64 from.value, false))

pub record PartialChunk : Type 0 where
  pub rows : Int64
  pub pending : List Int64

abbrev pub Partials : Type 0
Partials = List (Chunk × PartialChunk)

pub record Ledger : Type 0 where
  pub cut : Watermark
  pub watermark : Watermark
  pub next : Int64
  pub complete : Bool
  pub in_flight : List Chunk
  pub landed : List Chunk
  pub partials : Partials
  pub rows : Int64

-- partial[chunk], the comma-ok form.
unfoldable pub find_partial : Chunk → Partials → Option PartialChunk
find_partial c [] = none
find_partial c ((d, p) ∷ ps) = if chunk_eq d c then some p else find_partial c ps

-- partial[chunk].rows: a missing key reads as the zero value.
unfoldable pub partial_rows : Chunk → Partials → Int64
partial_rows c ps = elim (find_partial c ps) [ none ↦ zero64 | some p ↦ p.rows ]

-- delete(partial, chunk)
unfoldable pub drop_partial : Chunk → Partials → Partials
drop_partial c [] = []
drop_partial c ((d, p) ∷ ps) =
    let rest = drop_partial c ps in if chunk_eq d c then rest else (d, p) ∷ rest

-- partial[chunk] = p
unfoldable pub put_partial : Chunk → PartialChunk → Partials → Partials
put_partial c p ps = (c, p) ∷ drop_partial c ps

unfoldable pub contains : List Chunk → Chunk → Bool
contains [] c = false
contains (d ∷ ds) c = if chunk_eq d c then true else contains ds c

-- Remove the first occurrence.
unfoldable pub remove : Chunk → List Chunk → List Chunk
remove c [] = []
remove c (d ∷ ds) = if chunk_eq d c then ds else d ∷ remove c ds

unfoldable pub new_ledger : Watermark → Ledger
unfolding start_after
new_ledger from = record {
  cut = from;
  watermark = from;
  next = (start_after from).0;
  complete = (start_after from).1;
  in_flight = [];
  landed = [];
  partials = [];
  rows = zero64;
}

unfoldable pub starts_at_frontier : Ledger → Chunk → Bool
starts_at_frontier l chunk =
    if not l.cut.valid
    then chunk.lower == min_int64
    else (if l.cut.value == max_int64 then false else chunk.lower == succ64 l.cut.value)

unfoldable pub claim : Ledger → Chunk → Ledger × Bool
unfolding starts_at_frontier new_watermark
claim l chunk =
    if not (starts_at_frontier l chunk)
    then (l, false)
    else (record l { in_flight = l.in_flight ++ chunk ∷ []; cut = new_watermark chunk.upper }, true)

unfoldable pub is_nil {ℓ} : {A : Type ℓ} → List A → Bool
is_nil [] = true
is_nil (x ∷ xs) = false

unfoldable pub settle : Ledger → Chunk → Int64 → List Int64 → Ledger × Bool
settle l chunk rows pending =
    if not (contains l.in_flight chunk)
    then (l, false)
    else (if is_nil pending then (l, false) else (
      record l {
        rows = add64 l.rows (sub64 rows (partial_rows chunk l.partials));
        partials = put_partial chunk (record { rows = rows; pending = pending }) l.partials;
      },
      true,
    ))

-- The landed chunk that starts at the given key, and the others.
unfoldable pub take_at : Int64 → List Chunk → Option (Chunk × List Chunk)
take_at next [] = none
take_at next (c ∷ cs) =
    let rest = take_at next cs in
    if c.lower == next
    then some (c, cs)
    else elim rest [ none ↦ none | some (d, ds) ↦ some (d, c ∷ ds) ]

-- One round of the loop: the chunk found is taken out and the watermark moves over it.
unfoldable pub absorb : Ledger → Chunk → List Chunk → Ledger
unfolding new_watermark
absorb l chunk rest =
    if chunk.upper == max_int64
    then record l { landed = rest; watermark = new_watermark chunk.upper; complete = true }
    else record l {
      landed = rest;
      watermark = new_watermark chunk.upper;
      next = succ64 chunk.upper;
    }

unfoldable pub advance : ℕ → Ledger → Ledger
advance zero l = l
advance (suc fuel) l = elim l.complete [
  | true ↦ l
  | false ↦ elim (take_at l.next l.landed) [
    | none ↦ l
    | some (chunk, rest) ↦ advance fuel (absorb l chunk rest)
  ]
]

-- Before the loop: the chunk leaves the in-flight list and joins the landed ones.
unfoldable pub record_landed : Ledger → Chunk → Int64 → Ledger
record_landed l chunk rows = record l {
  in_flight = remove chunk l.in_flight;
  rows = add64 l.rows (sub64 rows (partial_rows chunk l.partials));
  partials = drop_partial chunk l.partials;
  landed = l.landed ++ chunk ∷ [];
}

-- One round for each landed chunk, and one to see that none is left.
unfoldable pub land : Ledger → Chunk → Int64 → Ledger × Bool
unfolding record_landed
land l chunk rows =
    if not (contains l.in_flight chunk)
    then (l, false)
    else let m = record_landed l chunk rows in (advance (suc (length m.landed)) m, true)
