-- ===== src/Copier/Ledger/Lookup.antt =====
-- What the ledger's searches find: chunks taken out of a list, and the partial chunks by key.
use pg_sprite.Prelude.{
  ℕ, suc, ◌+◌, ◌≡◌, refl, ap, true, ◌⊎◌, inl, inr, none, some, List, [], ◌∷◌, All, arith, length,
  ◌==◌, Bool-cases, ==_iff,
}
use pg_sprite.Prelude.Int64.{Int64}
use pg_sprite.Copier.Types.{Chunk, eq_of_chunk_eq}
use pg_sprite.Copier.Cover.{covers, one_if, cover, IsRange}
use pg_sprite.Copier.Ledger.{contains, remove, take_at}

-- What `take_at` found: a chunk at the key, the rest without it.
pub record Taken (next : Int64) (cs : List Chunk) (c : Chunk) (rest : List Chunk) : Type 0 where
  pub at : c.lower ≡ next
  pub fewer : length cs ≡ suc (length rest)
  pub covered : (k : ℕ) → cover k cs ≡ one_if (covers c k) + cover k rest
  pub ranges : All IsRange cs → IsRange c × All IsRange rest

take_at_step :
    (next : Int64) (c d : Chunk) (cs ds : List Chunk)
    → Taken next cs d ds
    → Taken next (c ∷ cs) d (c ∷ ds)
unfolding cover
take_at_step next c d cs ds t = record {
  at = t.at;
  fewer = ap suc t.fewer;
  covered = λ k. omega (arith, t.covered k);
  ranges = λ h. ((t.ranges h.1).0, (h.0, (t.ranges h.1).1));
}

-- `take_at` finds nothing, or it takes out one chunk at the key.
abbrev pub Found : Int64 → List Chunk → Type 0
Found next cs =
    (take_at next cs ≡ none)
    ⊎ ((c : Chunk) × (rest : List Chunk) × (take_at next cs ≡ some (c, rest))
        × Taken next cs c rest)

pub take_at-Found : (next : Int64) (cs : List Chunk) → Found next cs
unfolding take_at cover
take_at-Found next [] = inl refl
take_at-Found next (x ∷ cs) = elim (Bool-cases (x.lower == next)) [
  | inl here ↦ inr (
    x,
    cs,
    rw here,
    record {
      at = (==_iff x.lower next).0 here;
      fewer = refl;
      covered = λ k. refl;
      ranges = λ h. h;
    },
  )
  | inr later ↦ elim (take_at-Found next cs) [
    | inl missing ↦ inl (rw (later, missing))
    | inr (c, rest, e, t) ↦ inr (c, x ∷ rest, rw (later, e), take_at_step next x c cs rest t)
  ]
]

-- Taking a chunk out of the list and back.
pub cover-remove :
    (k : ℕ) (c : Chunk) (cs : List Chunk)
    → contains cs c ≡ true
    → cover k cs ≡ one_if (covers c k) + cover k (remove c cs)
unfolding contains remove cover
cover-remove k c [] h = cc
cover-remove k c (d ∷ cs) h = ground (arith, eq_of_chunk_eq d c, cover-remove k c cs)

pub remove-ranges : (c : Chunk) (cs : List Chunk) → All IsRange cs → All IsRange (remove c cs)
unfolding remove
remove-ranges c [] h = tt
remove-ranges c (d ∷ cs) h = ground (arith, remove-ranges c cs)

pub contains-IsRange :
    (c : Chunk) (cs : List Chunk) → contains cs c ≡ true → All IsRange cs → IsRange c
unfolding contains
contains-IsRange c [] e h = cc
contains-IsRange c (d ∷ cs) e h = ground (arith, eq_of_chunk_eq d c, contains-IsRange c cs)
