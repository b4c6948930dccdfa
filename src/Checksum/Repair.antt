-- ===== src/Checksum/Repair.antt =====
-- pkg/checksum/live_repair.go: settling the chunks that a live pass recopied. The recopy itself is an argument:
-- its position, or nothing where it failed.
pub mod Settled
use mathlib.Core.List.{[]}
use pg_sprite.Prelude.Int64.{zero64}
use pg_sprite.Prelude.{Option, ℕ, List, none, some, suc, ◌∷◌, if◌then◌else◌, length}
use pg_sprite.Checksum.Settle.{
  Settling, Verdict, Waited, Observation, Turn, await_confirmed, decided, unresolved, cause_lagging,
  broken, digest_eq, equal, passed, lagging, settle, settled, unfinished, hot, sleep_failed,
  diverged, out_of_fuel,
}
use pg_sprite.Checksum.Pass.{
  LiveOptions, Mismatch, LiveError, failed, unresolved_chunk, violation, out_of_turns, polls,
  still_diverged, attempts_of,
}

-- A read of the chunk that has no digests yet.
abbrev pub unread : Mismatch → ℕ → Observation
unread m lsn = record {
  chunk = m.chunk;
  source = record { rows = zero64; hash = "" };
  shadow = record { rows = zero64; hash = "" };
  lsn = lsn;
}

abbrev pub repair_verdict : Verdict → Option LiveError
repair_verdict equal = none
repair_verdict settled = none
repair_verdict hot = some violation
repair_verdict diverged = some still_diverged

abbrev pub repair_settling : Settling → Option LiveError
repair_settling (decided v last) = repair_verdict v
repair_settling (unresolved cause n prior) = some (unresolved_chunk cause n prior)
repair_settling broken = some failed
repair_settling unfinished = some out_of_turns

-- The first reread, with the settling that follows where its two sides differ.
unfoldable pub repair_reread : LiveOptions → (ℕ → Turn) → Option Observation → Option LiveError
repair_reread o turns none = some failed
repair_reread o turns (some now) =
    if digest_eq now.source now.shadow
    then none
    else repair_settling (settle (suc (attempts_of o)) (attempts_of o) (polls o) turns 1 now)

abbrev pub after_recopy : Waited → Mismatch → ℕ → Option LiveError → Option LiveError
after_recopy passed m lsn next = next
after_recopy lagging m lsn next = some (unresolved_chunk cause_lagging 0 (unread m lsn))
after_recopy sleep_failed m lsn next = some failed
after_recopy out_of_fuel m lsn next = some out_of_turns

unfoldable pub settle_repair : LiveOptions → (ℕ → Turn) → ℕ → Mismatch → Option LiveError
settle_repair o turns lsn m =
    after_recopy (await_confirmed (suc (polls o)) (turns 0) (polls o) 0 lsn) m lsn
      (repair_reread o turns (turns 0).reread)

unfoldable pub settle_repairs :
    LiveOptions → (Mismatch → ℕ → Turn) → ℕ → List Mismatch → Option LiveError
settle_repairs o turns lsn [] = none
settle_repairs o turns lsn (m ∷ ms) = elim (settle_repair o (turns m) lsn m) [
  | some e ↦ some e
  | none ↦ settle_repairs o turns lsn ms
]

-- repairLive: the number of chunks recopied, and the error that ended it
unfoldable pub repair_live :
    LiveOptions → (Mismatch → ℕ → Turn) → Option ℕ → List Mismatch → ℕ × Option LiveError
repair_live o turns none ms = (0, some failed)
repair_live o turns (some lsn) ms = (length ms, settle_repairs o turns lsn ms)
