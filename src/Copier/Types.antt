-- ===== src/Copier/Types.antt =====
-- pkg/copier/types.go: chunks and watermarks. Keys and row counts are int64 offsets.
use pg_sprite.Prelude.{
  ◌≡◌, Bool, true, false, ◌&&◌, Option, none, some, arith, ltb, ◌==◌, if◌then◌else◌,
}
use pg_sprite.Prelude.Int64.{Int64, zero64, max_int64}

pub record Chunk : Type 0 where
  pub lower : Int64
  pub upper : Int64
  pub rows : Int64

-- `none` is the error for a lower bound above the upper one.
unfoldable pub new_chunk : Int64 → Int64 → Option Chunk
new_chunk lower upper =
    if ltb upper lower then none else some (record { lower = lower; upper = upper; rows = zero64 })

-- Go compares structs field by field.
unfoldable pub chunk_eq : Chunk → Chunk → Bool
chunk_eq a b = a.lower == b.lower && a.upper == b.upper && a.rows == b.rows

pub record Watermark : Type 0 where
  pub value : Int64
  pub valid : Bool

-- The zero Watermark.
abbrev pub unreached : Watermark
unreached = record { value = zero64; valid = false }

unfoldable pub new_watermark : Int64 → Watermark
new_watermark value = record { value = value; valid = true }

unfoldable pub is_complete : Watermark → Bool
is_complete w = w.valid && w.value == max_int64

pub chunk_eq_refl : (a : Chunk) → chunk_eq a a ≡ true
unfolding chunk_eq
chunk_eq_refl a = ground arith

pub eq_of_chunk_eq : (a b : Chunk) → chunk_eq a b ≡ true → a ≡ b
unfolding chunk_eq
eq_of_chunk_eq a b h = ground arith
