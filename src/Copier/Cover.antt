-- ===== src/Copier/Cover.antt =====
-- Which keys a list of chunks covers, counted with multiplicity, and the keys below a frontier.
-- These are the words in which the copier's coverage theorems are stated.
use pg_sprite.Prelude.{
  ℕ, ◌+◌, ◌≡◌, ◌≤◌, ◌<◌, ◌^◌, Bool, true, false, ◌&&◌, List, [], ◌∷◌, ◌++◌, arith, ltb, leb,
  if◌then◌else◌,
}
use pg_sprite.Copier.Types.{Chunk, Watermark}

abbrev pub covers : Chunk → ℕ → Bool
covers c k = leb c.lower k && leb k c.upper

abbrev pub one_if : Bool → ℕ
one_if true = 1
one_if false = 0

-- In how many chunks of the list the key lies.
unfoldable pub cover : ℕ → List Chunk → ℕ
cover k [] = 0
cover k (c ∷ cs) = one_if (covers c k) + cover k cs

-- The first key above a frontier: 0 while the frontier has not been reached.
abbrev pub edge : Watermark → ℕ
edge w = if w.valid then w.value + 1 else 0

-- 1 if the key lies below the bound.
abbrev pub below : ℕ → ℕ → ℕ
below k b = one_if (ltb k b)

-- A chunk as a chunker cuts it: a range of int64 keys that is not empty.
abbrev pub IsRange : Chunk → Type 0
IsRange c = (c.lower ≤ c.upper) × (c.upper < 2 ^ 64)

pub cover-append : (k : ℕ) (cs ds : List Chunk) → cover k (cs ++ ds) ≡ cover k cs + cover k ds
unfolding cover
cover-append k [] ds = omega arith
cover-append k (c ∷ cs) ds = omega (arith, cover-append k cs ds)

-- A frontier that moves over a chunk takes in the keys of the chunk.
pub edge_step :
    (k lower upper : ℕ)
    → lower ≤ upper
    → below k (upper + 1) ≡ one_if (leb lower k && leb k upper) + below k lower
edge_step k lower upper h = ground arith
