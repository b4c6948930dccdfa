-- ===== src/Copier/Ledger/Invariant.antt =====
-- The ledger's invariant, and that every operation keeps it.
use pg_sprite.Prelude.{
  ℕ, zero, suc, ◌+◌, ◌^◌, ◌≤◌, ◌<◌, ◌≡◌, refl, true, false, inl, inr, none, some, List, [], ◌∷◌,
  ◌++◌, All, All-append, arith, length, ◌==◌, Bool-cases, ◌∙◌, ap,
}
use pg_sprite.Prelude.Int64.{Int64, max_int64}
use pg_sprite.Copier.Types.{Chunk, Watermark, new_watermark}
use pg_sprite.Copier.Cover.{cover, cover-append, edge, below, edge_step, IsRange}
use pg_sprite.Copier.Ledger.{
  Ledger, new_ledger, starts_at_frontier, claim, settle, is_nil, contains, take_at, absorb, advance,
  record_landed, land,
}
use pg_sprite.Copier.Ledger.Lookup.{
  take_at-Found, Taken, cover-remove, remove-ranges, contains-IsRange,
}

-- The claimed chunks, landed or not, lie between the watermark and the cut frontier and cover each
-- key there once.
pub record Tiled (l : Ledger) : Type 0 where
  pub cut_in_range : edge l.cut ≤ 2 ^ 64
  pub flying : All IsRange l.in_flight
  pub waiting : All IsRange l.landed
  pub coverage :
      (k : ℕ)
      → cover k l.in_flight + cover k l.landed + below k (edge l.watermark) ≡ below k (edge l.cut)
  pub complete_edge : l.complete ≡ true → edge l.watermark ≡ 2 ^ 64
  pub open_edge : l.complete ≡ false → edge l.watermark < 2 ^ 64
  pub next_edge : l.complete ≡ false → l.next ≡ edge l.watermark

-- Between two operations no landed chunk waits at the watermark.
pub record Inv (l : Ledger) : Type 0 where
  pub tiled : Tiled l
  pub caught_up : l.complete ≡ false → take_at l.next l.landed ≡ none

pub new_ledger-Inv : (from : Watermark) → edge from ≤ 2 ^ 64 → Inv (new_ledger from)
unfolding new_ledger cover take_at
new_ledger-Inv from h = record {
  tiled = record {
    cut_in_range = h;
    flying = tt;
    waiting = tt;
    coverage = λ k. omega arith;
    complete_edge = ground arith;
    open_edge = ground arith;
    next_edge = ground arith;
  };
  caught_up = λ _. refl;
}

pub absorb-Tiled :
    (l : Ledger) (c : Chunk) (rest : List Chunk)
    → l.complete ≡ false
    → Taken l.next l.landed c rest
    → Tiled l
    → Tiled (absorb l c rest)
unfolding absorb
absorb-Tiled l c rest o t v =
    let (range, others) = t.ranges v.waiting in
    let at_edge : c.lower ≡ edge l.watermark = t.at ∙ v.next_edge o in
    let joined : (k : ℕ)
        → cover k l.in_flight + cover k rest + below k (c.upper + 1) ≡ below k (edge l.cut) =
      λ k. omega (
        arith,
        t.covered k,
        v.coverage k,
        edge_step k c.lower c.upper range.0,
        ap (below k) at_edge,
      ) in
    elim (Bool-cases (c.upper == max_int64)) [
      | inl last ↦ rw last (record {
        cut_in_range = v.cut_in_range;
        flying = v.flying;
        waiting = others;
        coverage = joined;
        complete_edge = ground arith;
        open_edge = ground arith;
        next_edge = ground arith;
      })
      | inr more ↦ rw more (record {
        cut_in_range = v.cut_in_range;
        flying = v.flying;
        waiting = others;
        coverage = joined;
        complete_edge = ground arith;
        open_edge = ground (arith, range.1);
        next_edge = ground (arith, range.1);
      })
    ]

absorb_landed : (l : Ledger) (c : Chunk) (rest : List Chunk) → (absorb l c rest).landed ≡ rest
unfolding absorb
absorb_landed l c rest = ground arith

-- The three ways a round of the loop goes.
pub advance_done : (fuel : ℕ) (l : Ledger) → l.complete ≡ true → advance (suc fuel) l ≡ l
unfolding advance
advance_done fuel l e = ground arith

pub advance_stuck :
    (fuel : ℕ) (l : Ledger)
    → l.complete ≡ false
    → take_at l.next l.landed ≡ none
    → advance (suc fuel) l ≡ l
unfolding advance
advance_stuck fuel l o e = ground arith

pub advance_step :
    (fuel : ℕ) (l : Ledger) (c : Chunk) (rest : List Chunk)
    → l.complete ≡ false
    → take_at l.next l.landed ≡ some (c, rest)
    → advance (suc fuel) l ≡ advance fuel (absorb l c rest)
unfolding advance
advance_step fuel l c rest o e = ground arith

-- Enough fuel: the loop ends with no landed chunk at the watermark.
advance-Inv : (fuel : ℕ) (l : Ledger) → length l.landed < fuel → Tiled l → Inv (advance fuel l)
advance-Inv zero l h v = absurd (omega arith)
advance-Inv (suc fuel) l h v = elim (Bool-cases l.complete) [
  | inl done ↦ rw (advance_done fuel l done) (record { tiled = v; caught_up = λ o. cc })
  | inr more ↦ elim (take_at-Found l.next l.landed) [
    | inl missing ↦
        rw (advance_stuck fuel l more missing) (record { tiled = v; caught_up = λ _. missing })
    | inr (c, rest, e, t) ↦ rw (advance_step fuel l c rest more e) (
        advance-Inv fuel (absorb l c rest)
          (omega (arith, t.fewer, ap length (absorb_landed l c rest)))
          (absorb-Tiled l c rest more t v))
  ]
]

-- A chunk that starts at the frontier starts at its edge, which is an int64 key.
pub starts_at_edge :
    (l : Ledger) (c : Chunk)
    → edge l.cut ≤ 2 ^ 64
    → starts_at_frontier l c ≡ true
    → (c.lower ≡ edge l.cut) × (edge l.cut < 2 ^ 64)
unfolding starts_at_frontier
starts_at_edge l c r h = ground arith

claimed-Tiled :
    (l : Ledger) (c : Chunk)
    → c.lower ≡ edge l.cut
    → IsRange c
    → Tiled l
    → Tiled (record l { in_flight = l.in_flight ++ c ∷ []; cut = new_watermark c.upper })
unfolding new_watermark cover
claimed-Tiled l c at r v = record {
  cut_in_range = omega (arith, r.1);
  flying = All-append IsRange l.in_flight (c ∷ []) v.flying (r, tt);
  waiting = v.waiting;
  coverage = λ k. omega (
    arith,
    cover-append k l.in_flight (c ∷ []),
    v.coverage k,
    edge_step k c.lower c.upper r.0,
    ap (below k) at,
  );
  complete_edge = v.complete_edge;
  open_edge = v.open_edge;
  next_edge = v.next_edge;
}

-- Claiming keeps the invariant, whether the claim is accepted or not.
pub claim-Inv : (l : Ledger) (c : Chunk) → IsRange c → Inv l → Inv (claim l c).0
unfolding claim
claim-Inv l c r v = elim (Bool-cases (starts_at_frontier l c)) [
  | inl yes' ↦
      rw (yes', claim)
        (record {
          tiled = claimed-Tiled l c (starts_at_edge l c v.tiled.cut_in_range yes').0 r v.tiled;
          caught_up = v.caught_up;
        })
  | inr no' ↦ rw (no', claim) v
]

pub settle-Inv :
    (l : Ledger) (c : Chunk) (rows : Int64) (pending : List Int64)
    → Inv l
    → Inv (settle l c rows pending).0
unfolding settle
settle-Inv l c rows pending v = elim (Bool-cases (contains l.in_flight c)) [
  | inl found ↦ elim (Bool-cases (is_nil pending)) [
    | inl empty ↦ rw (found, empty, settle) v
    | inr owing ↦
        rw (found, owing, settle)
          (record {
            tiled = record {
              cut_in_range = v.tiled.cut_in_range;
              flying = v.tiled.flying;
              waiting = v.tiled.waiting;
              coverage = v.tiled.coverage;
              complete_edge = v.tiled.complete_edge;
              open_edge = v.tiled.open_edge;
              next_edge = v.tiled.next_edge;
            };
            caught_up = v.caught_up;
          })
  ]
  | inr missing ↦ rw (missing, settle) v
]

pub record_landed-Tiled :
    (l : Ledger) (c : Chunk) (rows : Int64)
    → contains l.in_flight c ≡ true
    → Tiled l
    → Tiled (record_landed l c rows)
unfolding record_landed cover
record_landed-Tiled l c rows e v = record {
  cut_in_range = v.cut_in_range;
  flying = remove-ranges c l.in_flight v.flying;
  waiting =
      All-append IsRange l.landed (c ∷ []) v.waiting
        (contains-IsRange c l.in_flight e v.flying, tt);
  coverage = λ k.
      omega (arith, cover-append k l.landed (c ∷ []), cover-remove k c l.in_flight e, v.coverage k);
  complete_edge = v.complete_edge;
  open_edge = v.open_edge;
  next_edge = v.next_edge;
}

-- Landing keeps the invariant, and its loop has fuel enough.
pub land-Inv : (l : Ledger) (c : Chunk) (rows : Int64) → Inv l → Inv (land l c rows).0
unfolding land
land-Inv l c rows v = elim (Bool-cases (contains l.in_flight c)) [
  | inl found ↦
      rw (found, land)
        (advance-Inv _ (record_landed l c rows) (omega arith)
          (record_landed-Tiled l c rows found v.tiled))
  | inr missing ↦ rw (missing, land) v
]

absorb_cut : (l : Ledger) (c : Chunk) (rest : List Chunk) → (absorb l c rest).cut ≡ l.cut
unfolding absorb
absorb_cut l c rest = ground arith

pub advance_cut : (fuel : ℕ) (l : Ledger) → (advance fuel l).cut ≡ l.cut
advance_cut zero l = unfold advance in refl
advance_cut (suc fuel) l = elim (Bool-cases l.complete) [
  | inl done ↦ rw (advance_done fuel l done)
  | inr more ↦ elim (take_at-Found l.next l.landed) [
    | inl missing ↦ rw (advance_stuck fuel l more missing)
    | inr (c, rest, e, t) ↦
        rw (advance_step fuel l c rest more e)
          (advance_cut fuel (absorb l c rest) ∙ absorb_cut l c rest)
  ]
]
