-- ===== src/Copier/Options.antt =====
-- pkg/copier/chunker.go: the options that bound chunk sizing, their defaults and their validation.
-- Row counts and durations are int64 offsets, so a negative option is a value below `zero64`.
use pg_sprite.Prelude.{
  ◌≡◌, ◌≤◌, ◌<◌, ◌⊎◌, Bool, ◌||◌, Option, none, some, arith, ltb, leb, ◌==◌, if◌then◌else◌, ◌↔◌,
}
use pg_sprite.Prelude.Int64.{Int64, zero64, int64}

pub record ChunkerOptions : Type 0 where
  pub target_chunk_time : Int64
  pub initial_rows : Int64
  pub min_rows : Int64
  pub max_rows : Int64

-- 500 milliseconds, in the nanoseconds of a time.Duration.
abbrev pub default_target_chunk_time : Int64
default_target_chunk_time = int64 500000000

abbrev pub default_initial_chunk_rows : Int64
default_initial_chunk_rows = int64 1000

abbrev pub default_min_chunk_rows : Int64
default_min_chunk_rows = int64 100

abbrev pub default_max_chunk_rows : Int64
default_max_chunk_rows = int64 100000

abbrev pub min64 : Int64 → Int64 → Int64
min64 a b = if leb a b then a else b

abbrev pub max64 : Int64 → Int64 → Int64
max64 a b = if leb a b then b else a

abbrev pub positive : Int64 → Bool
positive = ltb zero64

-- The blocks of `withDefaults`, in order: each fills one option that the caller left zero.
default_time : ChunkerOptions → ChunkerOptions
default_time o =
    if o.target_chunk_time == zero64
    then record o { target_chunk_time = default_target_chunk_time }
    else o

default_min : ChunkerOptions → ChunkerOptions
default_min o =
    if o.min_rows == zero64
    then (let floor : Int64 =
          if positive o.max_rows
          then min64 default_min_chunk_rows o.max_rows
          else default_min_chunk_rows in
        record o {
          min_rows = if positive o.initial_rows then min64 floor o.initial_rows else floor;
        })
    else o

default_max : ChunkerOptions → ChunkerOptions
default_max o =
    if o.max_rows == zero64
    then (let ceiling : Int64 = max64 default_max_chunk_rows o.min_rows in
        record o {
          max_rows = if positive o.initial_rows then max64 ceiling o.initial_rows else ceiling;
        })
    else o

default_initial : ChunkerOptions → ChunkerOptions
default_initial o =
    if o.initial_rows == zero64
    then (let first : Int64 =
          if positive o.min_rows
          then max64 default_initial_chunk_rows o.min_rows
          else default_initial_chunk_rows in
        record o { initial_rows = if positive o.max_rows then min64 first o.max_rows else first })
    else o

unfoldable pub with_defaults : ChunkerOptions → ChunkerOptions
unfolding default_time default_min default_max default_initial
with_defaults o = default_initial (default_max (default_min (default_time o)))

pub data OptionsError : Type 0 where
  target_time_not_positive initial_not_positive min_not_positive max_not_positive : OptionsError
  min_exceeds_max initial_outside : OptionsError

-- `none` where the source returns nil.
unfoldable pub validate : ChunkerOptions → Option OptionsError
validate o =
    if leb o.target_chunk_time zero64
    then some target_time_not_positive
    else (if leb o.initial_rows zero64
        then some initial_not_positive
        else (if leb o.min_rows zero64
            then some min_not_positive
            else (if leb o.max_rows zero64
                then some max_not_positive
                else (if ltb o.max_rows o.min_rows
                    then some min_exceeds_max
                    else (if ltb o.initial_rows o.min_rows || ltb o.max_rows o.initial_rows
                        then some initial_outside
                        else none)))))

-- Options that pass describe a bounded chunk.
pub record IsBounded (o : ChunkerOptions) : Type 0 where
  pub timed : zero64 < o.target_chunk_time
  pub floor_positive : zero64 < o.min_rows
  pub floor_first : o.min_rows ≤ o.initial_rows
  pub first_ceiling : o.initial_rows ≤ o.max_rows

-- `validate` accepts exactly the options that describe a bounded chunk.
pub validate_iff : (o : ChunkerOptions) → (validate o ≡ none) ↔ IsBounded o
unfolding validate
validate_iff o = (λ h. ground arith, λ h. ground arith)

-- What a caller set is not negative, and no two of the row counts that it set contradict.
pub record IsConsistent (o : ChunkerOptions) : Type 0 where
  pub time : zero64 ≤ o.target_chunk_time
  pub initial : zero64 ≤ o.initial_rows
  pub floor : zero64 ≤ o.min_rows
  pub ceiling : zero64 ≤ o.max_rows
  pub floor_ceiling : zero64 < o.max_rows → o.min_rows ≤ o.max_rows
  pub floor_initial : zero64 < o.initial_rows → o.min_rows ≤ o.initial_rows
  pub initial_ceiling : zero64 < o.max_rows → o.initial_rows ≤ o.max_rows

-- Each option was left zero or is as the caller set it.
abbrev pub Kept : ChunkerOptions → ChunkerOptions → Type 0
Kept o p =
    ((o.target_chunk_time ≡ zero64) ⊎ (p.target_chunk_time ≡ o.target_chunk_time))
    × ((o.initial_rows ≡ zero64) ⊎ (p.initial_rows ≡ o.initial_rows))
    × ((o.min_rows ≡ zero64) ⊎ (p.min_rows ≡ o.min_rows))
    × ((o.max_rows ≡ zero64) ⊎ (p.max_rows ≡ o.max_rows))

defaults-Kept : (o : ChunkerOptions) → Kept o (with_defaults o)
unfolding with_defaults
defaults-Kept o = ground arith

defaults-IsBounded : (o : ChunkerOptions) → IsConsistent o → IsBounded (with_defaults o)
unfolding with_defaults
defaults-IsBounded o h = ground arith

-- Where what the caller set is not negative and no two of its row counts contradict, the filled-in
-- options pass validation, and every option that the caller set is as it was set.
pub with_defaults-valid :
    (o : ChunkerOptions)
    → IsConsistent o
    → (validate (with_defaults o) ≡ none) × Kept o (with_defaults o)
with_defaults-valid o h =
    ((validate_iff (with_defaults o)).1 (defaults-IsBounded o h), defaults-Kept o)
