-- ===== src/Checksum/Repair/Settled.antt =====
-- What settling the recopied chunks ends with.
use mathlib.Core.List.{[]}
use mathlib.Core.Option.{none}
use pg_sprite.Checksum.Settle.{
  Turn, Observation, passed, Verdict, decided, lagging, diverged, cause_lagging, cause_hot,
}
use pg_sprite.Prelude.{ℕ, List, Option, suc, ◌∷◌, ◌≡◌, none, ◌⊎◌, Bool, length, ◌≤◌}
use pg_sprite.Checksum.Repair.{ℕ, Turn, List, Option, some, repair_verdict}
use pg_sprite.Checksum.Pass.{
  LiveOptions, Mismatch, polls, LiveError, attempts_of, failed, unresolved_chunk, still_diverged,
}
use pg_sprite.Checksum.Settle.Bounded.{Ends, IsPrior, Waits}

-- The chunk is whole again: the catch-up confirmed past the recopy, and the first reread found two equal sides,
-- or a later one settled clean.
abbrev Repaired : LiveOptions → (ℕ → Turn) → ℕ → Type 0
Repaired o turns lsn =
    Waits (turns 0) (polls o) 0 lsn passed
    × ((now : Observation) × ((turns 0).reread ≡ some now)
        × ((now.source ≡ now.shadow)
            ⊎ ((v : Verdict) × (last : Observation) × (repair_verdict v ≡ none)
                × Ends (attempts_of o) (polls o) turns (suc (suc (attempts_of o))) 1 now
                    (decided v last))))

-- How one chunk ends.
abbrev ChunkEnds : LiveOptions → (ℕ → Turn) → ℕ → Option LiveError → Type 0
ChunkEnds o turns lsn none = Repaired o turns lsn
ChunkEnds o turns lsn (some still_diverged) =
    (now : Observation) × ((turns 0).reread ≡ some now)
    × ((last : Observation) × Ends (attempts_of o) (polls o) turns (suc (suc (attempts_of o))) 1 now
          (decided diverged last))
ChunkEnds o turns lsn (some (unresolved_chunk cause_lagging n prior)) =
    Waits (turns n) (polls o) 0 prior.lsn lagging
    × (((n ≡ 0) × (prior.lsn ≡ lsn))
        ⊎ ((now : Observation) × ((turns 0).reread ≡ some now) × IsPrior turns now 1 n prior))
ChunkEnds o turns lsn (some (unresolved_chunk cause_hot n prior)) =
    (attempts_of o ≤ n)
    × ((now : Observation) × ((turns 0).reread ≡ some now) × IsPrior turns now 1 n prior)
ChunkEnds o turns lsn (some failed) = Unit {0}
ChunkEnds o turns lsn (some e) = ⊥

-- Every chunk is whole again, or those before one that ended with the error.
abbrev ChunksEnd :
    LiveOptions → (Mismatch → ℕ → Turn) → ℕ → List Mismatch → Option LiveError → Type 0
ChunksEnd o turns lsn [] e = e ≡ none
ChunksEnd o turns lsn (m ∷ ms) none = Repaired o (turns m) lsn × ChunksEnd o turns lsn ms none
ChunksEnd o turns lsn (m ∷ ms) (some e) =
    ChunkEnds o (turns m) lsn (some e)
    ⊎ (Repaired o (turns m) lsn × ChunksEnd o turns lsn ms (some e))

-- The number of repairs is all of them, once the recopy committed, and none with an error where it failed.
abbrev pub RepairsEnd :
    LiveOptions → (Mismatch → ℕ → Turn) → Option ℕ → List Mismatch → ℕ × Option LiveError → Type 0
RepairsEnd o turns none ms (n, e) = (n ≡ 0) × (e ≡ some failed)
RepairsEnd o turns (some lsn) ms (n, e) = (n ≡ length ms) × ChunksEnd o turns lsn ms e
