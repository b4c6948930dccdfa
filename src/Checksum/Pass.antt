-- ===== src/Checksum/Pass.antt =====
-- pkg/checksum/policy.go, pkg/checksum/report.go and the options of pkg/checksum/live.go: what a live pass is
-- told, and what it reports. Whether the catch-up and its flush gate are given is a Boolean.
use pg_sprite.Applier.Flusher.{is_empty}
use pg_sprite.Checksum.Settle.{UnresolvedCause, Digest, Observation}
use pg_sprite.Copier.Types.{Chunk, Watermark}
use pg_sprite.Prelude.Int64.{Int64, int64, zero64}
use pg_sprite.Prelude.{
  Bool, String, ℕ, List, Option, false, if◌then◌else◌, true, ◌&&◌, ◌-◌, not, str_eq, ◌==◌, ltb,
  some, ◌/◌, none,
}

pub data DivergencePolicy : Type 0 where
  abort repair recopy unnamed other_policy : DivergencePolicy

-- From a setting.
unfoldable pub parse_divergence_policy : String → Option DivergencePolicy
parse_divergence_policy value =
    if str_eq value "abort"
    then some abort
    else (if str_eq value "repair" then some repair else none)

unfoldable pub policy_fails : DivergencePolicy → Bool
policy_fails abort = false
policy_fails repair = false
policy_fails recopy = false
policy_fails unnamed = true
policy_fails other_policy = true

pub record LiveOptions : Type 0 where
  pub has_confirmed : Bool
  pub has_flushes : Bool
  pub attempts : Int64
  -- In nanoseconds.
  pub settle_wait : Int64
  pub poll : Int64

abbrev or_default : Int64 → Int64 → Int64
or_default v d = if v == zero64 then d else v

unfoldable pub with_defaults : LiveOptions → LiveOptions
with_defaults o = record o {
  attempts = or_default o.attempts (int64 3);
  settle_wait = or_default o.settle_wait (int64 30000000000);
  poll = or_default o.poll (int64 100000000);
}

abbrev pub is_repair : DivergencePolicy → Bool
is_repair repair = true
is_repair abort = false
is_repair recopy = false
is_repair unnamed = false
is_repair other_policy = false

abbrev pub is_recopy : DivergencePolicy → Bool
is_recopy recopy = true
is_recopy abort = false
is_recopy repair = false
is_recopy unnamed = false
is_recopy other_policy = false

-- The options are usable.
unfoldable pub validate : DivergencePolicy → LiveOptions → Bool
validate policy o =
    o.has_confirmed
    && not (is_repair policy && not o.has_flushes)
    && not (ltb o.attempts (int64 1))
    && not (ltb o.settle_wait (int64 1000000))
    && not (ltb o.poll (int64 1000000))
    && not (ltb o.settle_wait o.poll)

-- Of a wait and an interval that are positive.
unfoldable pub polls : LiveOptions → ℕ
polls o = (o.settle_wait - zero64) / (o.poll - zero64)

abbrev pub attempts_of : LiveOptions → ℕ
attempts_of o = o.attempts - zero64

pub record Mismatch : Type 0 where
  pub chunk : Chunk
  pub source : Digest
  pub shadow : Digest

pub record Report : Type 0 where
  pub through : Watermark
  pub chunks : ℕ
  pub rows : Int64
  pub mismatches : List Mismatch
  pub settled : ℕ
  pub unsettled : ℕ

unfoldable pub is_clean : Report → Bool
is_clean r = is_empty r.mismatches && r.unsettled == 0

pub data LiveError : Type 0 where
  no_policy invalid_options pass_running nothing_landed lock_lost failed violation still_diverged
        out_of_turns :
      LiveError
  unresolved_chunk : UnresolvedCause → ℕ → Observation → LiveError
  divergence : LiveError
