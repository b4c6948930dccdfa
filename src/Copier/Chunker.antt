-- ===== src/Copier/Chunker.antt =====
-- pkg/copier/chunker.go: the chunker's cursor and the cutting of chunks. The two mutexes make each
-- method one step, so a method is a function of the state. The boundary query's answer is an
-- argument: the source table and the server are not modelled.
pub mod Coverage
pub mod History
use pg_sprite.Prelude.{Bool, true, false, Option, none, some, ◌==◌, leb, if◌then◌else◌}
use pg_sprite.Prelude.Int64.{Int64, zero64, min_int64, max_int64, succ64, pred64}
use pg_sprite.Copier.Types.{Chunk, new_chunk, Watermark, unreached, new_watermark}
use pg_sprite.Copier.Ledger.{start_after}
use pg_sprite.Copier.Options.{ChunkerOptions, OptionsError, with_defaults, validate}
use pg_sprite.Copier.Sizing.{Float64, next_rows}

-- The causes of pkg/copier/refusal.go that the chunker gives, and the errors that it passes on.
pub data ChunkerError : Type 0 where
  proof_empty frontier_broken relation_replaced chunk_unknown query_failed : ChunkerError
  invalid_options : OptionsError → ChunkerError

pub data Result {ℓ} (A : Type ℓ) : Type ℓ where
  ok : A → Result A
  err : ChunkerError → Result A

infixl 5 ◌>>=◌
abbrev pub ◌>>=◌ {ℓ κ} : {A : Type ℓ} {B : Type κ} → Result A → (A → Result B) → Result B
ok a >>= f = f a
err e >>= f = err e

pub record Chunker : Type 0 where
  pub opts : ChunkerOptions
  pub next : Int64
  pub rows : Int64
  pub done : Bool

-- The target is in the model only as the name of its table being empty or not.
unfoldable pub new_chunker : Bool → Watermark → ChunkerOptions → Result Chunker
new_chunker target_empty from opts =
    if target_empty then err proof_empty else elim (validate (with_defaults opts)) [
      | some e ↦ err (invalid_options e)
      | none ↦ ok (record {
        opts = with_defaults opts;
        next = (start_after from).0;
        rows = (with_defaults opts).initial_rows;
        done = (start_after from).1;
      })
    ]

-- The cut frontier.
unfoldable pub cut : Chunker → Watermark
unfolding new_watermark
cut c =
    if c.done
    then new_watermark max_int64
    else (if c.next == min_int64 then unreached else new_watermark (pred64 c.next))

-- What the boundary query gave: no row, an error, a NULL key, or the key of the last row.
pub data Boundary : Type 0 where
  no_rows failed null_key : Boundary
  key : Int64 → Boundary

-- `boundary`, given the query's answer.
unfoldable pub boundary : Boundary → Result Int64
boundary no_rows = ok max_int64
boundary failed = err query_failed
boundary null_key = err relation_replaced
boundary (key upper) = ok upper

unfoldable pub advance : Int64 → Chunker → Chunker
advance upper c =
    if upper == max_int64 then record c { done = true } else record c { next = succ64 upper }

abbrev pub or_broken : Option Chunk → Result Chunk
or_broken none = err frontier_broken
or_broken (some chunk) = ok chunk

-- The boundary query: from the lower bound and the number of rows to skip to its answer.
abbrev pub Query : Type 0
Query = Int64 → Int64 → Boundary

-- The chunk (none once the key space is covered) and the chunker after the call.
unfoldable pub next_chunk : Query → Chunker → Result (Option Chunk × Chunker)
unfolding boundary advance
next_chunk query c = if c.done then ok (none, c) else do
  upper ← boundary (query c.next (pred64 c.rows))
  chunk ← or_broken (new_chunk c.next upper)
  ok (some (record chunk { rows = c.rows }), advance upper c)

-- The size of the next chunk, from the time that a chunk took.
unfoldable pub feedback : Float64 → Chunk → Int64 → Chunker → Result Chunker
feedback float chunk elapsed c =
    if leb chunk.rows zero64
    then err chunk_unknown
    else ok (record c { rows = next_rows float chunk.rows elapsed c.opts })
