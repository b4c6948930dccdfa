-- ===== src/Copier/Sizing.antt =====
-- pkg/copier/chunker.go: the arithmetic of the chunk-time feedback. Go's float64 is a parameter: its
-- values other than NaN, the operations that the source uses, and what IEEE 754 says of them.
use pg_sprite.Prelude.{◌≡◌, ◌≤◌, Bool, false, arith, ltb, leb, if◌then◌else◌}
use pg_sprite.Prelude.Int64.{Int64, zero64}
use pg_sprite.Copier.Options.{ChunkerOptions}

pub record Float64 : Type 1 where
  pub F : Type 0
  -- The constants 2.0 and 0.5.
  pub two : F
  pub half : F
  pub of_int : Int64 → F
  pub mul : F → F → F
  pub div : F → F → F
  pub min_float : F → F → F
  pub max_float : F → F → F
  pub le : F → F → Bool
  -- int64(math.Round(x))
  pub round : F → Int64
  -- The conversion of an integer is the float nearest to it, so a float strictly between the conversions of two
  -- integers rounds to one of them or to an integer between them, which int64 holds. Nothing is said of any
  -- other float, whose conversion Go leaves open.
  pub round_between :
      (n m : Int64) (x : F)
      → le x (of_int n) ≡ false
      → le (of_int m) x ≡ false
      → (n ≤ round x) × (round x ≤ m)

-- The law of rounding, where floats are the offsets themselves.
pub between_of_not_le : (n m x : Int64) → leb x n ≡ false → leb m x ≡ false → (n ≤ x) × (x ≤ m)
between_of_not_le n m x h g = (ground arith, ground arith)

module _ (float : Float64) where
  open float use {F, two, half, of_int, mul, div, min_float, max_float, le, round, round_between}

  -- The ratio of the target to the time taken, at most 2 and at least 1/2.
  unfoldable pub step_ratio : Int64 → Int64 → F
  step_ratio target elapsed =
      min_float two
        (max_float half (if ltb zero64 elapsed then div (of_int target) (of_int elapsed) else two))

  unfoldable pub next_rows : Int64 → Int64 → ChunkerOptions → Int64
  unfolding step_ratio
  next_rows rows elapsed opts =
      let scaled = mul (of_int rows) (step_ratio opts.target_chunk_time elapsed) in
      if le (of_int opts.max_rows) scaled
      then opts.max_rows
      else (if le scaled (of_int opts.min_rows) then opts.min_rows else round scaled)

  -- Whatever a chunk took, under options whose floor is not above the ceiling, the next size lies within the
  -- two.
  pub next_rows_bounds :
      (rows elapsed : Int64) (opts : ChunkerOptions)
      → opts.min_rows ≤ opts.max_rows
      → (opts.min_rows ≤ next_rows rows elapsed opts)
        × (next_rows rows elapsed opts ≤ opts.max_rows)
  unfolding next_rows
  next_rows_bounds rows elapsed opts h =
      let scaled = mul (of_int rows) (step_ratio opts.target_chunk_time elapsed) in
      ground (arith, h, round_between opts.min_rows opts.max_rows scaled)
