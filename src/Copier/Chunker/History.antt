-- ===== src/Copier/Chunker/History.antt =====
-- A chunker over a history of calls: cuts, each with the answer of its query, and feedback between
-- them.
use pg_sprite.Copier.Options.{ChunkerOptions}
use pg_sprite.Prelude.Int64.{Int64}
use pg_sprite.Copier.Ledger.{start_after}
use pg_sprite.Copier.Cover.{cover, IsRange, cover-append, edge, edge_step, below, one_if}
use pg_sprite.Prelude.{
  none, some, List, All, Bool, Option, ◌∷◌, [], arith, ◌++◌, ◌≡◌, All-append, ℕ, ◌+◌, ap, ◌≤◌, ◌^◌,
  true, ◌<◌, leb,
}
use pg_sprite.Copier.Types.{Chunk, Watermark}
use pg_sprite.Copier.Sizing.{Float64}
use pg_sprite.Copier.Chunker.{
  Chunker, Query, cut, new_chunker, Result, feedback, Bool, Int64, Option, err, next_chunk,
  Watermark, ok, ChunkerOptions, some,
}
use pg_sprite.Copier.Chunker.Coverage.{SendsInt64, HasCursor, Outcome, next_chunk-Outcome}

pub data Call : Type 0 where
  nexts : Query → Call
  feeds : Chunk → Int64 → Call

-- The chunks of one call, and the chunker after it.
abbrev pub answer : Chunker → Result (Option Chunk × Chunker) → List Chunk × Chunker
answer c (err e) = ([], c)
answer c (ok (none, d)) = ([], d)
answer c (ok (some chunk, d)) = (chunk ∷ [], d)

abbrev pub fed : Chunker → Result Chunker → Chunker
fed c (err e) = c
fed c (ok d) = d

module _ (float : Float64) where
  -- A call that fails leaves the chunker as it was.
  unfoldable pub call : Call → Chunker → List Chunk × Chunker
  call (nexts query) c = answer c (next_chunk query c)
  call (feeds chunk elapsed) c = ([], fed c (feedback float chunk elapsed c))

  -- The chunks in the order in which they were cut.
  unfoldable pub run : List Call → Chunker → List Chunk × Chunker
  run [] c = ([], c)
  run (x ∷ xs) c = let (cs, d) = call x c in let (ds, e) = run xs d in (cs ++ ds, e)

  abbrev pub IsServed : Call → Type 0
  IsServed (nexts query) = SendsInt64 query
  IsServed (feeds chunk elapsed) = Unit {0}

  -- The chunks tile the keys between the frontiers, and are ranges of keys.
  pub record Tiles (c : Chunker) (cs : List Chunk) (d : Chunker) : Type 0 where
    pub cursor : HasCursor d
    pub ranges : All IsRange cs
    pub coverage : (k : ℕ) → cover k cs + below k (edge (cut c)) ≡ below k (edge (cut d))

  pub fed-cut :
      (c : Chunker) (chunk : Chunk) (t : Int64) → cut (fed c (feedback float chunk t c)) ≡ cut c
  unfolding feedback cut
  fed-cut c chunk t = ground arith

  pub fed-next :
      (c : Chunker) (chunk : Chunk) (t : Int64) → (fed c (feedback float chunk t c)).next ≡ c.next
  unfolding feedback
  fed-next c chunk t = ground arith

  answer-Tiles :
      (c : Chunker) (r : Result (Option Chunk × Chunker))
      → HasCursor c
      → Outcome c r
      → Tiles c (answer c r).0 (answer c r).1
  unfolding cover
  answer-Tiles c (err e) h o = record { cursor = h; ranges = tt; coverage = λ k. omega arith }
  answer-Tiles c (ok (none, d)) h (same, done) = record {
    cursor = rw same h;
    ranges = tt;
    coverage = λ k. rw same (omega arith);
  }
  answer-Tiles c (ok (some chunk, d)) h o = record {
    cursor = o.cursor;
    ranges = (o.range, tt);
    coverage = λ k. omega (
      arith,
      edge_step k chunk.lower chunk.upper o.range.0,
      ap (below k) o.at_edge,
      ap (below k) o.moved,
    );
  }

  call-Tiles :
      (x : Call) (c : Chunker) → IsServed x → HasCursor c → Tiles c (call x c).0 (call x c).1
  unfolding call cover
  call-Tiles (nexts query) c s h =
      answer-Tiles c (next_chunk query c) h (next_chunk-Outcome query c s h)
  call-Tiles (feeds chunk t) c s h = record {
    cursor = rw (fed-next c chunk t) h;
    ranges = tt;
    coverage = λ k. rw (fed-cut c chunk t) (omega arith);
  }

  -- Over any history of calls the chunks cut cover each key between the first and the last cut
  -- frontier exactly once, and no other key.
  pub run-Tiles :
      (xs : List Call) (c : Chunker)
      → All IsServed xs
      → HasCursor c
      → Tiles c (run xs c).0 (run xs c).1
  unfolding run cover
  run-Tiles [] c s h = record { cursor = h; ranges = tt; coverage = λ k. omega arith }
  run-Tiles (x ∷ xs) c s h =
      let first = call-Tiles x c s.0 h in
      let later = run-Tiles xs (call x c).1 s.1 first.cursor in
      record {
        cursor = later.cursor;
        ranges = All-append IsRange _ _ first.ranges later.ranges;
        coverage = λ k. omega (
          arith,
          cover-append k (call x c).0 (run xs (call x c).1).0,
          first.coverage k,
          later.coverage k,
        );
      }

pub new_chunker_start :
    (empty : Bool) (from : Watermark) (opts : ChunkerOptions) (c : Chunker)
    → edge from ≤ 2 ^ 64
    → new_chunker empty from opts ≡ ok c
    → (HasCursor c) × (edge (cut c) ≡ edge from)
unfolding new_chunker cut start_after
new_chunker_start empty from opts c h e = (ground arith, ground arith)

-- Once the chunker of a resumed copy is done, every key above the watermark it resumed from lies in
-- exactly one of the chunks it cut, and no key below lies in any, whatever the order of the calls and
-- of the feedback, with queries that answer an int64.
pub run-covers_once :
    (float : Float64) (xs : List Call) (empty : Bool) (from : Watermark) (opts : ChunkerOptions)
    (c : Chunker)
    → edge from ≤ 2 ^ 64
    → new_chunker empty from opts ≡ ok c
    → All (IsServed float) xs
    → (run float xs c).1.done ≡ true
    → (k : ℕ) → k < 2 ^ 64
    → cover k (run float xs c).0 ≡ one_if (leb (edge from) k)
unfolding cut
run-covers_once float xs empty from opts c h e s d k hk =
    let (cursor, start) = new_chunker_start empty from opts c h e in
    let tiles = run-Tiles float xs c s cursor in ground (arith, tiles.coverage k, start)
