-- ===== src/Checksum/Live.antt =====
-- pkg/checksum/live.go and `prove` of pkg/checksum/check.go: a live pass. The sweep, and what settling meets,
-- are arguments.
pub mod Proofs
use pg_sprite.Applier.Flusher.{is_empty}
use mathlib.Core.List.{[]}
use pg_sprite.Checksum.Repair.{repair_live}
use pg_sprite.Copier.Types.{Watermark, is_complete}
use pg_sprite.Checksum.Settle.{
  Settling, Verdict, Observation, decided, Turn, unresolved, settle, broken, equal, unfinished,
  settled, diverged, hot,
}
use pg_sprite.Prelude.{
  Bool, Option, none, List, some, ℕ, if◌then◌else◌, ◌+◌, ◌++◌, ◌∷◌, [], suc, ◌||◌, not,
}
use pg_sprite.Checksum.Pass.{
  DivergencePolicy, LiveOptions, Report, LiveError, divergence, failed, with_defaults, Mismatch,
  is_clean, policy_fails, unresolved_chunk, violation, abort, attempts_of, is_recopy, no_policy,
  polls, repair, recopy, unnamed, validate, invalid_options, other_policy, pass_running,
  nothing_landed,
}

-- One chunk settled, on as many turns as there are attempts.
unfoldable pub settle_chunk : LiveOptions → (Observation → ℕ → Turn) → Observation → Settling
settle_chunk o turns prior =
    settle (suc (attempts_of o)) (attempts_of o) (polls o) (turns prior) 0 prior

abbrev pub Swept : Type 0
Swept = Report × Option LiveError

abbrev pub or_first : Option LiveError → LiveError → Option LiveError
or_first none e = some e
or_first (some d) e = some d

abbrev pub count_verdict : Verdict → Observation → Swept → Option Swept
count_verdict equal now (r, first) = some (record r { settled = r.settled + 1 }, first)
count_verdict settled now (r, first) = some (record r { settled = r.settled + 1 }, first)
count_verdict diverged now (r, first) = some (
  record r {
    mismatches =
        r.mismatches ++ record { chunk = now.chunk; source = now.source; shadow = now.shadow } ∷ [];
  },
  first,
)
count_verdict hot now (r, first) = none

-- The report with one settled chunk counted, or nothing where settling failed.
abbrev pub count_chunk : Settling → Swept → Option Swept
count_chunk (decided v now) q = count_verdict v now q
count_chunk (unresolved cause n prior) (r, first) =
    some (record r { unsettled = r.unsettled + 1 }, or_first first (unresolved_chunk cause n prior))
count_chunk broken q = none
count_chunk unfinished q = none

unfoldable pub settle_all :
    LiveOptions → (Observation → ℕ → Turn) → List Observation → Swept → Option Swept
settle_all o turns [] q = some q
settle_all o turns (prior ∷ ps) q = elim (count_chunk (settle_chunk o turns prior) q) [
  | none ↦ none
  | some next ↦ settle_all o turns ps next
]

-- What a pass meets: whether another pass runs, the sweep, the chunks that differed in it, the turns of
-- settling, whether the lock was lost, the position of a recopy, nothing where it failed, and the turns of
-- settling what was recopied.
pub record Pass : Type 0 where
  pub running : Bool
  pub sweep : Option (Report × List Observation)
  pub turns : Observation → ℕ → Turn
  pub lost : Bool
  pub recopied : Option ℕ
  pub repair_turns : Mismatch → ℕ → Turn

unfoldable pub sweep_and_settle : LiveOptions → Pass → Option Swept
sweep_and_settle o p = elim p.sweep [
  | none ↦ none
  | some (report, differing) ↦ elim (settle_all o p.turns differing (report, none)) [
    | none ↦ none
    | some q ↦ if p.lost then none else some q
  ]
]

pub record Outcome : Type 0 where
  pub report : Option Report
  pub repairs : ℕ
  -- The proof that the chunks through a watermark are clean, and the proof of the whole shadow.
  pub clean : Option Watermark
  pub verified : Option Watermark

abbrev pub no_outcome : Outcome
no_outcome = record { report = none; repairs = 0; clean = none; verified = none }

abbrev pub unproved : Report → ℕ → Outcome
unproved r n = record { report = some r; repairs = n; clean = none; verified = none }

unfoldable pub prove : Report → Outcome
prove r = record {
  report = some r;
  repairs = 0;
  clean = some r.through;
  verified = if is_complete r.through then some r.through else none;
}

abbrev pub or_error : Option LiveError → Option LiveError → Option LiveError
or_error none e = e
or_error (some d) e = some d

unfoldable pub act : DivergencePolicy → LiveOptions → Pass → Swept → Outcome × Option LiveError
act abort o p (r, first) = (unproved r 0, some divergence)
act repair o p (r, first) =
    let (n, e) = repair_live o p.repair_turns p.recopied r.mismatches in
    (unproved r n, or_error e first)
act recopy o p (r, first) = (unproved r 0, some violation)
act unnamed o p (r, first) = (unproved r 0, some violation)
act other_policy o p (r, first) = (unproved r 0, some violation)

unfoldable pub conclude :
    DivergencePolicy → LiveOptions → Pass → Option Swept → Outcome × Option LiveError
conclude policy o p none = (no_outcome, some failed)
conclude policy o p (some (r, first)) =
    if is_clean r
    then (prove r, none)
    else (if is_empty r.mismatches then (unproved r 0, first) else act policy o p (r, first))

unfoldable pub check_live :
    DivergencePolicy → LiveOptions → Watermark → Pass → Outcome × Option LiveError
check_live policy opts through p =
    let o = with_defaults opts in
    if policy_fails policy || is_recopy policy
    then (no_outcome, some no_policy)
    else (if not (validate policy o)
        then (no_outcome, some invalid_options)
        else (if p.running
            then (no_outcome, some pass_running)
            else (if not through.valid
                then (no_outcome, some nothing_landed)
                else conclude policy o p (sweep_and_settle o p))))
