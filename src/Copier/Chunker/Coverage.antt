-- ===== src/Copier/Chunker/Coverage.antt =====
-- The chunks that a chunker cuts, call after call, against the keys they cover.
use pg_sprite.Prelude.{
  ◌+◌, ◌^◌, ◌<◌, ◌≡◌, refl, true, false, Option, none, some, arith, ltb, Bool-cases, inl, inr, sym,
  subst,
}
use pg_sprite.Prelude.Int64.{Int64, pred64}
use pg_sprite.Copier.Types.{Chunk, new_chunk}
use pg_sprite.Copier.Cover.{edge, IsRange}
use pg_sprite.Copier.Chunker.{
  Chunker, Result, ok, err, ◌>>=◌, cut, Query, Boundary, key, no_rows, failed, null_key, boundary,
  next_chunk, or_broken, advance,
}

-- The server sends keys of type bigint.
abbrev pub SendsInt64 : Query → Type 0
SendsInt64 query = (lower skip k : Int64) → query lower skip ≡ key k → k < 2 ^ 64

-- The cursor is an int64.
abbrev pub HasCursor : Chunker → Type 0
HasCursor c = c.next < 2 ^ 64

-- What a call that gives a chunk does: the chunk starts at the first key that was not cut, and the
-- frontier moves to the key after it.
pub record Cuts (c : Chunker) (chunk : Chunk) (d : Chunker) : Type 0 where
  pub at_edge : chunk.lower ≡ edge (cut c)
  pub range : IsRange chunk
  pub moved : edge (cut d) ≡ chunk.upper + 1
  pub sized : chunk.rows ≡ c.rows
  pub cursor : HasCursor d

pub boundary_in_range :
    (b : Boundary) {upper : Int64}
    → ((k : Int64) → b ≡ key k → k < 2 ^ 64)
    → boundary b ≡ ok upper
    → upper < 2 ^ 64
unfolding boundary
boundary_in_range no_rows h e = ground arith
boundary_in_range failed h e = cc
boundary_in_range null_key h e = cc
boundary_in_range (key k) h e = ground (arith, h k refl)

cut_edge : (c : Chunker) → HasCursor c → c.done ≡ false → edge (cut c) ≡ c.next
unfolding cut
cut_edge c h o = ground arith

edge-advance :
    (c : Chunker) (upper : Int64)
    → c.done ≡ false
    → upper < 2 ^ 64
    → edge (cut (advance upper c)) ≡ upper + 1
unfolding cut advance
edge-advance c upper o h = ground arith

-- What a call of Next can come to, short of an error.
abbrev pub Outcome : Chunker → Result (Option Chunk × Chunker) → Type 0
Outcome c (err e) = Unit {0}
Outcome c (ok (none, d)) = (d ≡ c) × (edge (cut c) ≡ 2 ^ 64)
Outcome c (ok (some chunk, d)) = Cuts c chunk d

advance_cursor : (c : Chunker) (upper : Int64) → HasCursor c → HasCursor (advance upper c)
unfolding advance
advance_cursor c upper h = ground arith

cut_at :
    (c : Chunker) (upper : Int64)
    → HasCursor c
    → c.done ≡ false
    → upper < 2 ^ 64
    → Outcome c (
        or_broken (new_chunk c.next upper) >>= λ chunk.
        ok (some (record chunk { rows = c.rows }), advance upper c))
unfolding new_chunk
cut_at c upper h o u = elim (Bool-cases (ltb upper c.next)) [
  | inl crossed ↦ rw crossed tt
  | inr fine ↦ rw fine (record {
    at_edge = sym (cut_edge c h o);
    range = (ground arith, u);
    moved = edge-advance c upper o u;
    sized = refl;
    cursor = advance_cursor c upper h;
  })
]

cut_from :
    (c : Chunker) (b : Result Int64)
    → HasCursor c
    → c.done ≡ false
    → ((upper : Int64) → b ≡ ok upper → upper < 2 ^ 64)
    → Outcome c (
        b >>= λ upper. or_broken (new_chunk c.next upper) >>= λ chunk.
        ok (some (record chunk { rows = c.rows }), advance upper c))
cut_from c (err e) h o u = tt
cut_from c (ok upper) h o u = cut_at c upper h o (u upper refl)

pub done_edge : (c : Chunker) → c.done ≡ true → edge (cut c) ≡ 2 ^ 64
unfolding cut
done_edge c o = ground arith

-- On a chunker with its cursor in range, with a query that answers an int64: a call of Next gives no
-- chunk only when every int64 key has been cut; a chunk that it gives is a range of keys that starts
-- at the first key not yet cut, and the cut frontier moves to its end.
pub next_chunk-Outcome :
    (query : Query) (c : Chunker) → SendsInt64 query → HasCursor c → Outcome c (next_chunk query c)
unfolding next_chunk
next_chunk-Outcome query c s h = elim (Bool-cases c.done) [
  | inl done ↦ subst (Outcome c) (sym (next_done query c done)) (refl, done_edge c done)
  | inr more ↦ subst (Outcome c) (sym (next_more query c more)) (
      cut_from c (boundary (query c.next (pred64 c.rows))) h more
        (λ upper e. boundary_in_range _ (s c.next (pred64 c.rows)) e))
]
  where
    next_done : (query : Query) (c : Chunker) → c.done ≡ true → next_chunk query c ≡ ok (none, c)
    next_done query c e = rw (e, next_chunk)

    next_more :
        (query : Query) (c : Chunker)
        → c.done ≡ false
        → next_chunk query c ≡ (
            boundary (query c.next (pred64 c.rows)) >>= λ upper.
            or_broken (new_chunk c.next upper) >>= λ chunk.
            ok (some (record chunk { rows = c.rows }), advance upper c))
    next_more query c e = rw (e, next_chunk)
