-- ===== src/Copier/Run.antt =====
-- pkg/copier/copier.go: the shared state of the copier's workers and the steps they take on it. Each
-- step holds the copier's locks, so any interleaving of the workers is a sequence of steps. What the
-- chunk transactions do in the database, and the database lock session, are not modelled: the rows
-- that a pass committed, the keys it held off, whether the transaction of a cut commits (cut.go) and the loss
-- of the lock are arguments.
pub mod Invariant
pub mod Complete
use pg_sprite.Copier.Chunker.History.{fed}
use pg_sprite.Prelude.Int64.{Int64, max_int64}
use pg_sprite.Copier.Sizing.{Float64}
use pg_sprite.Copier.Types.{Chunk, Watermark}
use pg_sprite.Prelude.{
  none, some, [], ◌∷◌, true, false, Bool, Option, List, if◌then◌else◌, not, ◌||◌, ◌==◌,
}
use pg_sprite.Copier.Chunker.{Result, ok, err, Chunker, ChunkerError, Query, next_chunk, feedback}
use pg_sprite.Copier.Ledger
use pg_sprite.Copier.Ledger.{Ledger, new_ledger, is_nil}

pub record Copier : Type 0 where
  pub chunker : Chunker
  pub ledger : Ledger

pub data CopyError : Type 0 where
  cutting : ChunkerError → CopyError
  claim_off_frontier cut_uncommitted chunks_in_flight not_covered lock_lost worker_failed
        cancelled :
      CopyError

pub data Reply {ℓ} (A : Type ℓ) : Type ℓ where
  done : A → Reply A
  failed : CopyError → Reply A

-- Registering the chunk that was cut.
unfoldable pub register : Chunk → Copier → Reply (Option Chunk) × Copier
register chunk c =
    let (l, accepted) = Ledger.claim c.ledger chunk in
    if not accepted
    then (failed claim_off_frontier, c)
    else (done (some chunk), record c { ledger = l })

-- `cut`: what Next gave is read in a transaction that may fail to commit, after the cursor moved.
unfoldable pub registered :
    Bool → Copier → Result (Option Chunk × Chunker) → Reply (Option Chunk) × Copier
unfolding register
registered committed c (err e) = (failed (cutting e), c)
registered committed c (ok (cut, d)) =
    let moved = record c { chunker = d } in
    if not committed
    then (failed cut_uncommitted, moved)
    else elim cut [ none ↦ (done none, moved) | some chunk ↦ register chunk moved ]

-- The reply holds no chunk once the key space is covered. Whether the transaction of the cut commits is
-- an argument.
unfoldable pub claim : Query → Bool → Copier → Reply (Option Chunk) × Copier
unfolding registered
claim query committed c = registered committed c (next_chunk query c.chunker)

unfoldable pub land : Chunk → Int64 → Copier → Reply (Unit {0}) × Copier
land chunk inserted c =
    let (l, held) = Ledger.land c.ledger chunk inserted in
    if not held then (failed chunks_in_flight, c) else (done tt, record c { ledger = l })

unfoldable pub settle : Chunk → Int64 → List Int64 → Copier → Reply (Unit {0}) × Copier
settle chunk inserted pending c =
    let (l, held) = Ledger.settle c.ledger chunk inserted pending in
    if not held then (failed chunks_in_flight, c) else (done tt, record c { ledger = l })

-- Run's result, from whether the table lock was lost and why the workers stopped.
unfoldable pub finish : Bool → Option CopyError → Copier → Option CopyError
finish lost cause c = if lost then some lock_lost else elim cause [
  | some e ↦ some e
  | none ↦
      if not (is_nil c.ledger.in_flight)
      then some chunks_in_flight
      else (if not c.ledger.watermark.valid || not (c.ledger.watermark.value == max_int64)
          then some not_covered
          else none)
]

-- The steps of the workers: claim a chunk (with whether its cut commits), settle one around held-off keys, land one, and report the
-- time that one took.
pub data Step : Type 0 where
  claims : Query → Bool → Step
  settles : Chunk → Int64 → List Int64 → Step
  lands : Chunk → Int64 → Step
  feeds : Chunk → Int64 → Step

unfoldable pub start : Chunker → Watermark → Copier
start chunker from = record { chunker = chunker; ledger = new_ledger from }

module _ (float : Float64) where
  unfoldable pub step : Step → Copier → Copier
  step (claims query committed) c = (claim query committed c).1
  step (settles chunk rows pending) c = (settle chunk rows pending c).1
  step (lands chunk rows) c = (land chunk rows c).1
  step (feeds chunk elapsed) c = record c {
    chunker = fed c.chunker (feedback float chunk elapsed c.chunker);
  }

  unfoldable pub run : List Step → Copier → Copier
  run [] c = c
  run (s ∷ ss) c = run ss (step s c)
