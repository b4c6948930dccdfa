-- ===== src/Copier/Ledger/Progress.antt =====
-- How the ledger's frontiers and its row count move.
use pg_sprite.Prelude.{
  ℕ, zero, suc, ◌-◌, ◌^◌, ◌≤◌, ◌<◌, ◌≡◌, refl, ◌↔◌, inl, inr, true, false, none, List, [], ◌∷◌,
  ◌++◌, arith, length, ◌==◌, Bool-cases, ap, ◌∙◌, ltb, sym, ◌⊎◌,
}
use pg_sprite.Prelude.Int64.{Int64, add64, sub64}
use pg_sprite.Copier.Types.{Chunk, chunk_eq_refl}
use pg_sprite.Copier.Cover.{covers, cover, edge}
use pg_sprite.Copier.Ledger.{
  Ledger, Partials, PartialChunk, starts_at_frontier, claim, settle, contains, take_at, absorb,
  advance, record_landed, land, find_partial, partial_rows, drop_partial, put_partial, is_nil,
}
use pg_sprite.Copier.Ledger.Lookup.{take_at-Found}
use pg_sprite.Copier.Ledger.Invariant.{
  Inv, Tiled, advance_done, advance_stuck, advance_step, absorb-Tiled, record_landed-Tiled,
}

-- On a ledger that satisfies the invariant a chunk is accepted exactly when it starts at the first
-- key above the cut frontier and some key is left there.
pub claim-accepted_iff :
    (l : Ledger) (c : Chunk)
    → Inv l
    → ((claim l c).1 ≡ true) ↔ ((c.lower ≡ edge l.cut) × (edge l.cut < 2 ^ 64))
unfolding claim starts_at_frontier
claim-accepted_iff l c v = (λ e. ground (arith, v.tiled.cut_in_range), λ e. ground arith)

none_at :
    (next : Int64) (c : Chunk) (cs : List Chunk)
    → take_at next (c ∷ cs) ≡ none
    → ((c.lower == next) ≡ false) × (take_at next cs ≡ none)
unfolding take_at
none_at next c cs e = ground arith

-- Where no chunk starts at a key that some chunk covers, a chunk covers the key below it too.
covered_below :
    (b : ℕ) (cs : List Chunk)
    → take_at b cs ≡ none
    → 0 < cover b cs
    → (k : ℕ) × (suc k ≡ b) × (0 < cover k cs)
unfolding cover
covered_below b [] e h = absurd (omega arith)
covered_below b (c ∷ cs) e h = elim (Bool-cases (covers c b)) [
  | inl hit ↦ (b - 1, ground (arith, none_at b c cs e), ground (arith, none_at b c cs e))
  | inr miss ↦
      let inner : 0 < cover b cs = ground arith in
      let (k, s, p) = covered_below b cs (none_at b c cs e).1 inner in (k, s, omega (arith, p))
]

edge_ordered : (l : Ledger) → Tiled l → edge l.watermark ≤ edge l.cut
edge_ordered l v = ground (arith, v.coverage (edge l.cut))

-- On a ledger that satisfies the invariant, with no chunk in flight, the watermark has reached the
-- cut frontier.
pub watermark-reaches_cut : (l : Ledger) → Inv l → l.in_flight ≡ [] → edge l.watermark ≡ edge l.cut
unfolding cover
watermark-reaches_cut l v empty = elim (Bool-cases l.complete) [
  | inl done ↦
      omega (arith, v.tiled.complete_edge done, edge_ordered l v.tiled, v.tiled.cut_in_range)
  | inr more ↦ elim (Bool-cases (ltb (edge l.watermark) (edge l.cut))) [
    | inl gap ↦ absurd (
        let at : l.next ≡ edge l.watermark = v.tiled.next_edge more in
        let flying : (k : ℕ) → cover k l.in_flight ≡ 0 = λ k. rw empty in
        let here : 0 < cover l.next l.landed =
          ground (arith, v.tiled.coverage l.next, flying l.next) in
        let (k, s, p) = covered_below l.next l.landed (v.caught_up more) here in
        ground (arith, v.tiled.coverage k, flying k))
    | inr level ↦ ground (arith, edge_ordered l v.tiled)
  ]
]

edge-absorb :
    (l : Ledger) (c : Chunk) (rest : List Chunk)
    → c.lower ≤ c.upper
    → c.lower ≡ edge l.watermark
    → edge l.watermark ≤ edge (absorb l c rest).watermark
unfolding absorb
edge-absorb l c rest r at = ground arith

edge-advance :
    (fuel : ℕ) (l : Ledger) → Tiled l → edge l.watermark ≤ edge (advance fuel l).watermark
unfolding advance
edge-advance zero l v = omega arith
edge-advance (suc fuel) l v = elim (Bool-cases l.complete) [
  | inl done ↦ rw (advance_done fuel l done) (omega arith)
  | inr more ↦ elim (take_at-Found l.next l.landed) [
    | inl missing ↦ rw (advance_stuck fuel l more missing) (omega arith)
    | inr (c, rest, e, t) ↦ rw (advance_step fuel l c rest more e) (
        omega (
          arith,
          edge-advance fuel (absorb l c rest) (absorb-Tiled l c rest more t v),
          edge-absorb l c rest (t.ranges v.waiting).0.0 (t.at ∙ v.next_edge more),
        ))
  ]
]

-- On a ledger that satisfies the invariant the watermark never falls when a chunk lands.
pub land-watermark_mono :
    (l : Ledger) (c : Chunk) (rows : Int64)
    → Inv l
    → edge l.watermark ≤ edge (land l c rows).0.watermark
unfolding land record_landed
land-watermark_mono l c rows v = elim (Bool-cases (contains l.in_flight c)) [
  | inl found ↦
      rw (found, land)
        (edge-advance _ (record_landed l c rows) (record_landed-Tiled l c rows found v.tiled))
  | inr missing ↦ rw (missing, land) (omega arith)
]

drop_twice : (c : Chunk) (ps : Partials) → drop_partial c (drop_partial c ps) ≡ drop_partial c ps
unfolding drop_partial
drop_twice c [] = refl
drop_twice c ((d, p) ∷ ps) = ground (arith, drop_twice c ps)

drop-put :
    (c : Chunk) (p : PartialChunk) (ps : Partials)
    → drop_partial c (put_partial c p ps) ≡ drop_partial c ps
unfolding drop_partial put_partial
drop-put c p ps = rw (chunk_eq_refl c) (drop_twice c ps)

partial_rows-put :
    (c : Chunk) (p : PartialChunk) (ps : Partials) → partial_rows c (put_partial c p ps) ≡ p.rows
unfolding partial_rows put_partial find_partial
partial_rows-put c p ps = rw (chunk_eq_refl c, find_partial, partial_rows)

-- A settled ledger, with the counts that `settle` wrote.
abbrev with_partial : Ledger → Chunk → PartialChunk → Ledger
with_partial l c p = record l {
  rows = add64 l.rows (sub64 p.rows (partial_rows c l.partials));
  partials = put_partial c p l.partials;
}

-- The differences of the passes add up to the last count.
count_telescopes :
    (total before so_far rows : ℕ)
    → before < 2 ^ 64
    → so_far < 2 ^ 64
    → add64 (add64 total (sub64 so_far before)) (sub64 rows so_far)
      ≡ add64 total (sub64 rows before)
count_telescopes total before so_far rows hb hs = omega arith

record_landed-partial :
    (l : Ledger) (c : Chunk) (p : PartialChunk) (rows : Int64)
    → partial_rows c l.partials < 2 ^ 64
    → p.rows < 2 ^ 64
    → record_landed (with_partial l c p) c rows ≡ record_landed l c rows
unfolding record_landed
record_landed-partial l c p rows hb hs = ground (
  arith,
  drop-put c p l.partials,
  partial_rows-put c p l.partials,
  count_telescopes l.rows (partial_rows c l.partials) p.rows rows hb hs,
)

land_found :
    (l : Ledger) (c : Chunk) (rows : Int64)
    → contains l.in_flight c ≡ true
    → land l c rows ≡ (advance (suc (length (l.landed ++ c ∷ []))) (record_landed l c rows), true)
unfolding land
land_found l c rows e = rw (e, land)

settle_refused :
    (l : Ledger) (c : Chunk) (rows : Int64) (pending : List Int64)
    → (contains l.in_flight c ≡ false) ⊎ (is_nil pending ≡ true)
    → (settle l c rows pending).0 ≡ l
unfolding settle
settle_refused l c rows pending h = ground arith

settle_found :
    (l : Ledger) (c : Chunk) (rows : Int64) (pending : List Int64)
    → contains l.in_flight c ≡ true
    → is_nil pending ≡ false
    → (settle l c rows pending).0 ≡ with_partial l c (record { rows = rows; pending = pending })
unfolding settle
settle_found l c rows pending e o = rw (e, o, settle)

-- Settling a chunk and then landing it leaves the ledger as landing it at once does, where the
-- settled row counts are 64-bit: its rows count once, and no partial entry is left.
pub land-settle :
    (l : Ledger) (c : Chunk) (so_far rows : Int64) (pending : List Int64)
    → partial_rows c l.partials < 2 ^ 64
    → so_far < 2 ^ 64
    → land (settle l c so_far pending).0 c rows ≡ land l c rows
land-settle l c so_far rows pending hp hs = elim (Bool-cases (contains l.in_flight c)) [
  | inl found ↦ elim (Bool-cases (is_nil pending)) [
    | inl empty ↦ rw (settle_refused l c so_far pending (inr empty))
    | inr owing ↦
        let p : PartialChunk = record { rows = so_far; pending = pending } in
        rw (settle_found l c so_far pending found owing) (
          land_found (with_partial l c p) c rows found
          ∙ ap (λ m. (advance (suc (length (l.landed ++ c ∷ []))) m, true))
              (record_landed-partial l c p rows hp hs)
          ∙ sym (land_found l c rows found))
  ]
  | inr missing ↦ rw (settle_refused l c so_far pending (inl missing))
]
