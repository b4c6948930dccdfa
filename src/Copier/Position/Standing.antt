-- ===== src/Copier/Position/Standing.antt =====
-- Where `classify` says a key stands, against the ledger that the position was taken from.
use pg_sprite.Prelude.{
  ◌≤◌, ◌<◌, ◌≡◌, refl, ◌⊎◌, inl, inr, Bool, true, false, none, some, List, [], ◌∷◌, arith,
  Bool-cases, Option-cases, if◌then◌else◌, not, ◌||◌, ltb,
}
use pg_sprite.Prelude.Int64.{Int64}
use pg_sprite.Copier.Types.{Chunk, chunk_eq_refl, eq_of_chunk_eq}
use pg_sprite.Copier.Cover.{covers, cover, edge}
use pg_sprite.Copier.Ledger.{Ledger, Partials, PartialChunk, find_partial, contains}
use pg_sprite.Copier.Ledger.Invariant.{Inv}
use pg_sprite.Copier.Position.Search.{IsAscending, Holds, binary_search_iff}
use pg_sprite.Copier.Position.{
  KeyState, uncut, in_flight, landed, pending_of, position, binary_search, classify_within,
  classify_in, classify,
}

-- The chunk has committed everything but the keys that the search finds.
abbrev Searched : Ledger → Chunk → Bool → Int64 → Type 0
Searched l c owed k =
    (p : PartialChunk) × (find_partial c l.partials ≡ some p) × (binary_search p.pending k ≡ owed)

-- A claimed, unlanded chunk that holds the key.
abbrev InChunk : Ledger → Chunk → Int64 → Type 0
InChunk l c k = (contains l.in_flight c ≡ true) × (covers c k ≡ true)

-- What each state says of a key, by what the search finds: above the cut frontier; in a chunk in flight that still owes it; or
-- copied, below the watermark, in a landed chunk, or in a chunk in flight that owes other keys.
abbrev pub Placed : Ledger → Int64 → KeyState → Type 0
Placed l k uncut = edge l.cut ≤ k
Placed l k in_flight =
    (k < edge l.cut)
    × ((c : Chunk) × InChunk l c k × ((find_partial c l.partials ≡ none) ⊎ Searched l c true k))
Placed l k landed =
    (k < edge l.cut)
    × ((k < edge l.watermark)
        ⊎ (0 < cover k l.landed)
        ⊎ ((c : Chunk) × InChunk l c k × Searched l c false k))

within_none :
    (ps : Partials) (cs : List Chunk) (c : Chunk) (k : Int64)
    → find_partial c ps ≡ none
    → classify_within (pending_of ps cs) c k ≡ in_flight
unfolding classify_within pending_of
within_none ps [] c k e = refl
within_none ps (d ∷ cs) c k e = ground (arith, eq_of_chunk_eq d c, within_none ps cs c k e)

within_some :
    (ps : Partials) (cs : List Chunk) (c : Chunk) (p : PartialChunk) (k : Int64)
    → find_partial c ps ≡ some p
    → contains cs c ≡ true
    → classify_within (pending_of ps cs) c k
      ≡ (if binary_search p.pending k then in_flight else landed)
unfolding classify_within pending_of contains
within_some ps [] c p k e h = cc
within_some ps (d ∷ cs) c p k e h =
    ground (arith, eq_of_chunk_eq d c, chunk_eq_refl c, within_some ps cs c p k e)

-- What the loop over the chunks in flight answers.
abbrev InLoop : Ledger → List Chunk → Int64 → KeyState → Type 0
InLoop l cs k uncut = ⊥
InLoop l cs k in_flight =
    (c : Chunk) × (contains cs c ≡ true)
    × (covers c k ≡ true)
    × ((find_partial c l.partials ≡ none) ⊎ Searched l c true k)
InLoop l cs k landed =
    (cover k cs ≡ 0)
    ⊎ ((c : Chunk) × (contains cs c ≡ true) × (covers c k ≡ true) × Searched l c false k)

contains_cons : (c d : Chunk) (cs : List Chunk) → contains cs c ≡ true → contains (d ∷ cs) c ≡ true
unfolding contains
contains_cons c d cs h = ground arith

contains_self : (c : Chunk) (cs : List Chunk) → contains (c ∷ cs) c ≡ true
unfolding contains
contains_self c cs = rw (chunk_eq_refl c)

InLoop-cons :
    (l : Ledger) (c : Chunk) (cs : List Chunk) (k : Int64) (s : KeyState)
    → covers c k ≡ false
    → InLoop l cs k s
    → InLoop l (c ∷ cs) k s
unfolding cover
InLoop-cons l c cs k uncut out h = h
InLoop-cons l c cs k in_flight out (d, h, i, j) = (d, contains_cons d c cs h, i, j)
InLoop-cons l c cs k landed out (inl h) = inl (rw out (omega (arith, h)))
InLoop-cons l c cs k landed out (inr (d, h, i, j)) = inr (d, contains_cons d c cs h, i, j)

-- A chunk that covers the key decides its state.
decided :
    (l : Ledger) (c : Chunk) (cs : List Chunk) (k : Int64)
    → contains l.in_flight c ≡ true
    → covers c k ≡ true
    → InLoop l (c ∷ cs) k (classify_within (pending_of l.partials l.in_flight) c k)
decided l c cs k held cov = elim (Option-cases (find_partial c l.partials)) [
  | inl e ↦ rw (within_none l.partials l.in_flight c k e) (c, contains_self c cs, cov, inl e)
  | inr (p, e) ↦ elim (Bool-cases (binary_search p.pending k)) [
    | inl owes ↦
        rw (within_some l.partials l.in_flight c p k e held, owes)
          (c, contains_self c cs, cov, inr (p, e, owes))
    | inr done ↦
        rw (within_some l.partials l.in_flight c p k e held, done)
          (inr (c, contains_self c cs, cov, (p, e, done)))
  ]
]

classify_in-InLoop :
    (l : Ledger) (cs : List Chunk) (k : Int64)
    → ((c : Chunk) → contains cs c ≡ true → contains l.in_flight c ≡ true)
    → InLoop l cs k (classify_in (pending_of l.partials l.in_flight) cs k)
unfolding classify_in cover
classify_in-InLoop l [] k sub = inl refl
classify_in-InLoop l (c ∷ cs) k sub = elim (Bool-cases (covers c k)) [
  | inl hit ↦ rw hit (decided l c cs k (sub c (contains_self c cs)) hit)
  | inr miss ↦ rw miss (
      InLoop-cons l c cs k _ miss
        (classify_in-InLoop l cs k (λ d h. sub d (contains_cons d c cs h))))
]

from_loop :
    (l : Ledger) (k : Int64) (s : KeyState)
    → Inv l
    → k < edge l.cut
    → InLoop l l.in_flight k s
    → Placed l k s
from_loop l k uncut v h s = absurd s
from_loop l k in_flight v h (c, i, j, o) = (h, (c, (i, j), o))
from_loop l k landed v h (inl out) = (h, ground (arith, v.tiled.coverage k))
from_loop l k landed v h (inr (c, i, j, o)) = (h, inr (inr (c, (i, j), o)))

pub classify-Placed : (l : Ledger) (k : Int64) → Inv l → Placed l k (classify (position l) k)
unfolding classify position
classify-Placed l k v = elim (Bool-cases (not l.cut.valid || ltb l.cut.value k)) [
  | inl above ↦ rw above (ground arith)
  | inr under ↦
      rw under (from_loop l k _ v (ground arith) (classify_in-InLoop l l.in_flight k (λ c h. h)))
]

-- Every settled chunk's keys are in ascending order.
abbrev pub HasAscendingKeys : Ledger → Type 0
HasAscendingKeys l =
    (c : Chunk) (p : PartialChunk) → find_partial c l.partials ≡ some p → IsAscending p.pending

-- The chunk is settled, and the key is among those that it owes, or it is not.
abbrev pub Owes : Ledger → Chunk → Int64 → Type 0
Owes l c k = (p : PartialChunk) × (find_partial c l.partials ≡ some p) × Holds p.pending k

abbrev pub OwesOthers : Ledger → Chunk → Int64 → Type 0
OwesOthers l c k =
    (p : PartialChunk) × (find_partial c l.partials ≡ some p) × (Holds p.pending k → ⊥)

-- What each state says of a key: above the cut frontier; in a chunk in flight of which nothing is settled,
-- or which owes it; or copied, below the watermark, in a landed chunk, or in a chunk in flight that is
-- settled and does not owe it.
abbrev pub Standing : Ledger → Int64 → KeyState → Type 0
Standing l k uncut = edge l.cut ≤ k
Standing l k in_flight =
    (k < edge l.cut)
    × ((c : Chunk) × InChunk l c k × ((find_partial c l.partials ≡ none) ⊎ Owes l c k))
Standing l k landed =
    (k < edge l.cut)
    × ((k < edge l.watermark)
        ⊎ ((0 < cover k l.landed) ⊎ ((c : Chunk) × InChunk l c k × OwesOthers l c k)))

Standing-Placed :
    (l : Ledger) (k : Int64) (s : KeyState) → HasAscendingKeys l → Placed l k s → Standing l k s
Standing-Placed l k uncut asc h = h
Standing-Placed l k in_flight asc (h, (c, i, inl e)) = (h, (c, i, inl e))
Standing-Placed l k in_flight asc (h, (c, i, inr (p, e, f))) =
    (h, (c, i, inr (p, e, (binary_search_iff p.pending k (asc c p e)).0 f)))
Standing-Placed l k landed asc (h, inl w) = (h, inl w)
Standing-Placed l k landed asc (h, inr (inl w)) = (h, inr (inl w))
Standing-Placed l k landed asc (h, inr (inr (c, i, (p, e, f)))) = (
  h,
  inr (
      inr (
        c,
        i,
        (p, e, λ q. absurd (ground (arith, f, (binary_search_iff p.pending k (asc c p e)).1 q))),
      )),
)

-- On a ledger that satisfies the invariant and whose settled chunks list the keys they owe in ascending order, the
-- state that `classify` gives a key is where the key stands: uncut above the cut frontier; in flight where a
-- claimed, unlanded chunk holds it of which nothing is settled, or which lists it among the keys it owes; landed
-- where it is below the watermark, in a landed chunk, or in a settled chunk that does not list it.
pub classify-Standing :
    (l : Ledger) (k : Int64) → Inv l → HasAscendingKeys l → Standing l k (classify (position l) k)
classify-Standing l k v asc = Standing-Placed l k _ asc (classify-Placed l k v)
