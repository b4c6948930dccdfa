-- ===== src/Copier/RunOptions.antt =====
-- pkg/copier/copier.go: the options of a run. Times are int64 nanoseconds. The clock and the tracker
-- are left out.
use pg_sprite.Copier.Options.{
  OptionsError, ChunkerOptions, validate, with_defaults, IsBounded, validate_iff,
}
use pg_sprite.Prelude.{none, some, Option, ◌≡◌, if◌then◌else◌, ◌↔◌, ltb, ◌==◌, ◌≤◌, ◌⊎◌, arith}
use pg_sprite.Prelude.Int64.{int64, Int64, zero64}

pub record Options : Type 0 where
  pub workers : Int64
  pub lock_timeout : Int64
  pub statement_timeout : Int64
  pub chunker : ChunkerOptions
  pub collision_attempts : Int64
  pub collision_backoff : Int64

pub data RunOptionsError : Type 0 where
  few_workers short_lock_timeout short_statement_timeout few_attempts negative_backoff :
      RunOptionsError
  chunker_options : OptionsError → RunOptionsError

abbrev pub or_default : Int64 → Int64 → Int64
or_default value fallback = if value == zero64 then fallback else value

unfoldable pub with_run_defaults : Options → Options
with_run_defaults o = record {
  workers = or_default o.workers (int64 4);
  lock_timeout = or_default o.lock_timeout (int64 3000000000);
  statement_timeout = or_default o.statement_timeout (int64 30000000000);
  chunker = o.chunker;
  collision_attempts = or_default o.collision_attempts (int64 10);
  collision_backoff = or_default o.collision_backoff (int64 250000000);
}

unfoldable pub validate_set : Options → Option RunOptionsError
validate_set o =
    if ltb o.workers (int64 1)
    then some few_workers
    else (if ltb o.lock_timeout (int64 1000000)
        then some short_lock_timeout
        else (if ltb o.statement_timeout (int64 1000000)
            then some short_statement_timeout
            else (if ltb o.collision_attempts (int64 1)
                then some few_attempts
                else (if ltb o.collision_backoff zero64 then some negative_backoff else none))))

abbrev pub or_chunker_error : Option RunOptionsError → Option OptionsError → Option RunOptionsError
or_chunker_error (some e) checked = some e
or_chunker_error none none = none
or_chunker_error none (some e) = some (chunker_options e)

-- Validate, with the defaults applied
unfoldable pub validate_run : Options → Option RunOptionsError
validate_run o =
    or_chunker_error (validate_set (with_run_defaults o)) (validate (with_defaults o.chunker))

-- The option was left zero or is at least the bound.
abbrev pub AtLeast : Int64 → Int64 → Type 0
AtLeast bound value = (value ≡ zero64) ⊎ (bound ≤ value)

-- The options of a run are accepted exactly when every one that was set lies above its bound, in
-- whatever combination, and the chunker's options with their defaults describe a bounded chunk.
pub validate_run_iff :
    (o : Options)
    → (validate_run o ≡ none) ↔ (
        AtLeast (int64 1) o.workers
        × AtLeast (int64 1000000) o.lock_timeout
        × AtLeast (int64 1000000) o.statement_timeout
        × AtLeast (int64 1) o.collision_attempts
        × (zero64 ≤ o.collision_backoff)
        × IsBounded (with_defaults o.chunker))
unfolding validate_run validate_set with_run_defaults
validate_run_iff o =
    let chunks = validate_iff (with_defaults o.chunker) in
    (λ h. ground (arith, chunks), λ h. ground (arith, chunks))
