-- ===== src/Copier/Examples.antt =====
-- Runs of the copier at concrete inputs: a table whose first chunk ends at key 10, and whose last
-- chunk is open above.
use pg_sprite.Copier.RunOptions.{Options}
use pg_sprite.Copier.Ledger.Progress.{land-settle}
use pg_sprite.Copier.Run.Complete.{finish_clean, finish-landed}
use pg_sprite.Copier.Position.Standing.{Standing, HasAscendingKeys, classify-Standing}
use pg_sprite.Copier.Run.Invariant.{Agree, run-Agree, start-Agree, Claimed, claim-Claimed}
use pg_sprite.Copier.Chunker.History.{run-covers_once}
use pg_sprite.Copier.Position.Search.{IsAscending}
use pg_sprite.Copier.Cover.{cover, one_if, edge}
use pg_sprite.Copier.Chunker.Coverage.{Outcome, SendsInt64, next_chunk-Outcome}
use pg_sprite.Copier.Types.{Chunk, new_chunk, unreached}
use pg_sprite.Prelude.Int64.{int64, Int64, max_int64, zero64}
use pg_sprite.Copier.Options.{
  ChunkerOptions, validate, with_defaults, Kept, with_defaults-valid, min64, max64,
}
use pg_sprite.Copier.Sizing.{Float64, next_rows, next_rows_bounds, between_of_not_le}
use pg_sprite.Prelude.{
  zero, suc, [], ◌∷◌, none, true, false, refl, Option, List, arith, ℕ, ◌≡◌, ◌≤◌, ◌^◌, leb, ◌+◌, ◌-◌,
  ◌*◌, ◌/◌, ◌<◌, subst, some,
}
use pg_sprite.Copier.Ledger
use pg_sprite.Copier.Ledger.{Ledger, start_after, is_nil, partial_rows, find_partial, PartialChunk}
use pg_sprite.Copier.Chunker
use pg_sprite.Copier.Chunker.{Chunker, ok, err, key, no_rows, Query}
use pg_sprite.Copier.Run
use pg_sprite.Copier.Run.{
  Copier, Step, CopyError, claims, settles, lands, feeds, failed, claim_off_frontier,
}
use pg_sprite.Copier.Chunker.History
use pg_sprite.Copier.Position.{landed, classify, position}

-- Integers by their offset, ratios in halves.
abbrev halves : Float64
halves = record {
  F = ℕ;
  two = 4;
  half = 1;
  of_int = λ n. n;
  mul = λ n r. 2 ^ 63 + (n - 2 ^ 63) * r / 2;
  div = λ a b. (a - 2 ^ 63) * 2 / (b - 2 ^ 63);
  min_float = min64;
  max_float = max64;
  le = leb;
  round = λ x. x;
  round_between = between_of_not_le;
}

abbrev no_options : ChunkerOptions
no_options = record {
  target_chunk_time = zero64;
  initial_rows = zero64;
  min_rows = zero64;
  max_rows = zero64;
}

abbrev chunker : Chunker
chunker = record {
  opts = record {
    target_chunk_time = int64 500000000;
    initial_rows = int64 1000;
    min_rows = int64 100;
    max_rows = int64 100000;
  };
  next = 0;
  rows = int64 1000;
  done = false;
}

chunker_starts : Chunker.new_chunker false unreached no_options ≡ ok chunker
unfolding Chunker.new_chunker with_defaults validate start_after
chunker_starts = refl

abbrev first_query : Query
first_query lower skip = key (int64 10)

abbrev last_query : Query
last_query lower skip = no_rows

abbrev first_chunk : Chunk
first_chunk = record { lower = 0; upper = int64 10; rows = int64 1000 }

abbrev last_chunk : Chunk
last_chunk = record { lower = int64 11; upper = max_int64; rows = int64 1000 }

first_served : SendsInt64 first_query
first_served lower skip k e = ground arith

last_served : SendsInt64 last_query
last_served lower skip k e = ground arith

abbrev calls : List History.Call
calls =
    History.nexts first_query
    ∷ History.feeds first_chunk (int64 1000)
    ∷ History.nexts last_query
    ∷ []

calls_done : (History.run halves calls chunker).1.done ≡ true
unfolding History.run History.call Chunker.next_chunk Chunker.feedback new_chunk next_rows
calls_done = refl

run-covers_once_example :
    cover (int64 4) (History.run halves calls chunker).0 ≡ one_if (leb (edge unreached) (int64 4))
run-covers_once_example =
    run-covers_once halves calls false unreached no_options chunker (omega arith) chunker_starts
      (first_served, (tt, (last_served, tt))) calls_done (int64 4) (omega arith)

next_chunk-Outcome_example : Outcome chunker (Chunker.next_chunk first_query chunker)
next_chunk-Outcome_example = next_chunk-Outcome first_query chunker first_served (omega arith)

with_defaults-valid_example :
    (validate (with_defaults no_options) ≡ none) × Kept no_options (with_defaults no_options)
with_defaults-valid_example = with_defaults-valid no_options (omega arith)

next_rows_bounds_example :
    (int64 100 ≤ next_rows halves (int64 1000) (int64 1) chunker.opts)
    × (next_rows halves (int64 1000) (int64 1) chunker.opts ≤ int64 100000)
next_rows_bounds_example = next_rows_bounds halves (int64 1000) (int64 1) chunker.opts (omega arith)

abbrev copier : Copier
copier = Run.start chunker unreached

copier-Agree : Agree true copier
copier-Agree = start-Agree false unreached no_options chunker (omega arith) chunker_starts

-- The first chunk settles around a held-off key before the last is claimed.
abbrev steps : List Step
steps =
    claims first_query true
    ∷ settles first_chunk (int64 5) (int64 7 ∷ [])
    ∷ feeds first_chunk (int64 1000)
    ∷ claims last_query true
    ∷ []

abbrev both_lands : List Step
both_lands =
    claims first_query true
    ∷ claims last_query true
    ∷ lands last_chunk (int64 2)
    ∷ lands first_chunk (int64 6)
    ∷ []

run-Agree_example : Agree true (Run.run halves steps copier)
run-Agree_example =
    run-Agree halves steps true copier (first_served, (tt, (tt, (last_served, tt)))) copier-Agree

abbrev midway : Copier
midway = Run.run halves steps copier

abbrev landed_all : Copier
landed_all = Run.run halves both_lands copier

landed_all-Agree : Agree true landed_all
landed_all-Agree =
    run-Agree halves both_lands true copier (first_served, (last_served, (tt, (tt, tt))))
      copier-Agree

midway_partials :
    midway.ledger.partials ≡ (first_chunk, record { rows = int64 5; pending = int64 7 ∷ [] }) ∷ []
unfolding Run.run Ledger.find_partial Run.step Run.claim Chunker.next_chunk Chunker.feedback
    Run.settle Ledger.settle Ledger.contains Run.start new_chunk Ledger.claim Ledger.new_ledger
    pg_sprite.Copier.Types.chunk_eq is_nil Ledger.put_partial Ledger.drop_partial
midway_partials = refl

one_ascends : (x : Int64) → IsAscending (x ∷ [])
one_ascends x zero zero h l = omega arith
one_ascends x zero (suc j) h l = absurd (omega (arith, l))
one_ascends x (suc i) j h l = absurd (omega (arith, h, l))

only_ascends :
    (c d : Chunk) (p q : PartialChunk)
    → IsAscending q.pending
    → find_partial c ((d, q) ∷ []) ≡ some p
    → IsAscending p.pending
unfolding find_partial
only_ascends c d p q asc e =
    let same : q.pending ≡ p.pending = ground (arith, e) in subst IsAscending same asc

midway_ascends : HasAscendingKeys midway.ledger
midway_ascends c p e =
    only_ascends c first_chunk p (record { rows = int64 5; pending = int64 7 ∷ [] })
      (one_ascends (int64 7)) (subst (λ ps. find_partial c ps ≡ some p) midway_partials e)

classify-Standing_example :
    Standing midway.ledger (int64 7) (classify (position midway.ledger) (int64 7))
classify-Standing_example =
    classify-Standing midway.ledger (int64 7) run-Agree_example.ledger midway_ascends

claim-Claimed_example : Claimed true false (Run.claim first_query false copier)
claim-Claimed_example = claim-Claimed first_query true false copier first_served copier-Agree

landed_clean : Run.finish false none landed_all ≡ none
unfolding Run.finish is_nil Run.run Run.step Run.land Ledger.land Ledger.contains Run.claim
    Chunker.next_chunk Run.start new_chunk Ledger.claim Ledger.new_ledger
    pg_sprite.Copier.Types.chunk_eq Ledger.advance Ledger.take_at Ledger.remove Ledger.absorb
landed_clean = refl

finish-landed_example :
    (false ≡ false)
    × (◌≡◌ {A = Option CopyError} none none)
    × (classify (position landed_all.ledger) (int64 7) ≡ landed)
finish-landed_example =
    finish-landed false none true landed_all (int64 7) landed_all-Agree landed_clean (omega arith)

landed_done : landed_all.chunker.done ≡ true
unfolding Run.run Run.step Run.land Ledger.land Ledger.contains Run.claim Chunker.next_chunk
    Run.start new_chunk Ledger.claim Ledger.new_ledger pg_sprite.Copier.Types.chunk_eq
    Ledger.advance Ledger.take_at Ledger.remove
landed_done = refl

landed_empty : landed_all.ledger.in_flight ≡ []
unfolding Run.run Run.step Run.land Ledger.land Ledger.contains Run.claim Chunker.next_chunk
    Run.start new_chunk Ledger.claim Ledger.new_ledger pg_sprite.Copier.Types.chunk_eq
    Ledger.advance Ledger.take_at Ledger.remove Ledger.absorb
landed_empty = refl

finish_clean_example : Run.finish false none landed_all ≡ none
finish_clean_example = finish_clean landed_all landed_all-Agree landed_done landed_empty none

partial_known : partial_rows first_chunk midway.ledger.partials ≡ int64 5
unfolding Run.run partial_rows Ledger.find_partial Run.step Run.claim Chunker.next_chunk
    Chunker.feedback Run.settle Ledger.settle Ledger.contains Run.start new_chunk Ledger.claim
    Ledger.new_ledger pg_sprite.Copier.Types.chunk_eq is_nil Ledger.put_partial
partial_known = refl

partial_small : partial_rows first_chunk midway.ledger.partials < 2 ^ 64
partial_small = omega (arith, partial_known)

land-settle_example :
    Ledger.land
      (Ledger.settle midway.ledger first_chunk (int64 5) (int64 7 ∷ [])).0
      first_chunk
      (int64 6)
    ≡ Ledger.land midway.ledger first_chunk (int64 6)
land-settle_example =
    land-settle midway.ledger first_chunk (int64 5) (int64 6) (int64 7 ∷ []) partial_small
      (omega arith)

abbrev run_options : Options
run_options = record {
  workers = int64 8;
  lock_timeout = zero64;
  statement_timeout = int64 5000000;
  chunker = no_options;
  collision_attempts = zero64;
  collision_backoff = zero64;
}
