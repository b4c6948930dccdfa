-- ===== src/Copier/Position.antt =====
-- pkg/copier/position.go and `ledger.position` of pkg/copier/ledger.go: a snapshot of the copy, and
-- where a key stands in it.
pub mod Search
pub mod Standing
use pg_sprite.Prelude.{
  ℕ, zero, suc, ◌+◌, ◌/◌, Bool, true, false, not, ◌&&◌, ◌||◌, Option, none, some, List, [], ◌∷◌,
  ltb, leb, ◌==◌, length, get_or, if◌then◌else◌,
}
use pg_sprite.Prelude.Int64.{Int64}
use pg_sprite.Copier.Types.{Chunk, chunk_eq, Watermark}
use pg_sprite.Copier.Ledger.{Ledger, Partials, find_partial}

pub data KeyState : Type 0 where
  uncut in_flight landed : KeyState

pub record PendingKeys : Type 0 where
  pub chunk : Chunk
  pub keys : List Int64

pub record Position : Type 0 where
  pub watermark : Watermark
  pub cut : Watermark
  pub in_flight_chunks : List Chunk
  pub pending : List PendingKeys
  pub rows_inserted : Int64

-- The partial chunks, in the order of the chunks in flight.
unfoldable pub pending_of : Partials → List Chunk → List PendingKeys
pending_of ps [] = []
pending_of ps (c ∷ cs) =
    let rest = pending_of ps cs in
    elim (find_partial c ps) [
      | none ↦ rest
      | some p ↦ record { chunk = c; keys = p.pending } ∷ rest
    ]

unfoldable pub position : Ledger → Position
position l = record {
  watermark = l.watermark;
  cut = l.cut;
  in_flight_chunks = l.in_flight;
  pending = pending_of l.partials l.in_flight;
  rows_inserted = l.rows;
}

-- The loop of Go's slices.BinarySearch over [i, j), on fuel: the least index whose element is not
-- below the target, in an ascending list.
unfoldable pub search_loop : ℕ → List Int64 → Int64 → ℕ → ℕ → ℕ
search_loop zero xs target i j = i
search_loop (suc fuel) xs target i j =
    let upper_half = search_loop fuel xs target ((i + j) / 2 + 1) j in
    let lower_half = search_loop fuel xs target i ((i + j) / 2) in
    if ltb i j
    then (if ltb (get_or xs ((i + j) / 2) 0) target then upper_half else lower_half)
    else i

-- The second result of slices.BinarySearch. The range shrinks in every round.
unfoldable pub binary_search : List Int64 → Int64 → Bool
unfolding search_loop
binary_search xs target =
    let i = search_loop (length xs) xs target 0 (length xs) in
    ltb i (length xs) && get_or xs i 0 == target

unfoldable pub classify_within : List PendingKeys → Chunk → Int64 → KeyState
classify_within [] chunk key = in_flight
classify_within (p ∷ ps) chunk key =
    if not (chunk_eq p.chunk chunk)
    then classify_within ps chunk key
    else (if binary_search p.keys key then in_flight else landed)

-- The loop over the chunks in flight.
unfoldable pub classify_in : List PendingKeys → List Chunk → Int64 → KeyState
unfolding classify_within
classify_in ps [] key = landed
classify_in ps (c ∷ cs) key =
    if leb c.lower key && leb key c.upper then classify_within ps c key else classify_in ps cs key

unfoldable pub classify : Position → Int64 → KeyState
unfolding classify_in
classify p key =
    if not p.cut.valid || ltb p.cut.value key
    then uncut
    else classify_in p.pending p.in_flight_chunks key
