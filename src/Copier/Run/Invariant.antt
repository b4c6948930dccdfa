-- ===== src/Copier/Run/Invariant.antt =====
-- How far the chunker's cut frontier may be from the ledger's, whatever the workers do.
use pg_sprite.Copier.Sizing.{Float64}
use pg_sprite.Copier.Chunker.History.{new_chunker_start, fed-next, fed-cut}
use pg_sprite.Copier.Ledger.Progress.{claim-accepted_iff}
use pg_sprite.Copier.Options.{ChunkerOptions}
use pg_sprite.Copier.Cover.{edge}
use pg_sprite.Prelude.Int64.{Int64}
use pg_sprite.Copier.Types.{Chunk, Watermark}
use pg_sprite.Copier.Ledger.Invariant.{
  Inv, claim-Inv, new_ledger-Inv, advance_cut, land-Inv, settle-Inv,
}
use pg_sprite.Copier.Chunker.Coverage.{SendsInt64, HasCursor, Cuts, Outcome, next_chunk-Outcome}
use pg_sprite.Prelude.{
  none, some, [], ◌∷◌, true, inl, inr, Bool, Option, ◌≡◌, ◌≢◌, arith, ◌+◌, ◌≤◌, ◌^◌, ◌∙◌, sym,
  Bool-cases, List, All, ap, false, subst, ◌&&◌,
}
use pg_sprite.Copier.Chunker.{Result, ok, err, Query, Chunker, next_chunk, cut, new_chunker}
use pg_sprite.Copier.Ledger
use pg_sprite.Copier.Ledger.{Ledger, new_ledger, contains, record_landed}
use pg_sprite.Copier.Run.{
  Copier, failed, claim_off_frontier, claim, land, settle, Step, claims, settles, lands, feeds,
  step, run, start, registered, Reply, register,
}

abbrev pub StepServed : Step → Type 0
StepServed (claims query committed) = SendsInt64 query
StepServed (settles chunk rows pending) = Unit {0}
StepServed (lands chunk rows) = Unit {0}
StepServed (feeds chunk elapsed) = Unit {0}

-- The chunker is never behind the ledger, and level with it where every cut so far has committed.
pub record Agree (kept : Bool) (c : Copier) : Type 0 where
  pub ledger : Inv c.ledger
  pub cursor : HasCursor c.chunker
  pub ahead : edge c.ledger.cut ≤ edge (cut c.chunker)
  pub level : kept ≡ true → edge (cut c.chunker) ≡ edge c.ledger.cut

pub start-Agree :
    (empty : Bool) (from : Watermark) (opts : ChunkerOptions) (c : Chunker)
    → edge from ≤ 2 ^ 64
    → new_chunker empty from opts ≡ ok c
    → Agree true (start c from)
unfolding start new_ledger
start-Agree empty from opts c h e =
    let (cursor, level) = new_chunker_start empty from opts c h e in
    record {
      ledger = new_ledger-Inv from h;
      cursor = cursor;
      ahead = omega (arith, level);
      level = λ q. level;
    }

edge-claim :
    (l : Ledger) (c : Chunk)
    → (Ledger.claim l c).1 ≡ true
    → edge (Ledger.claim l c).0.cut ≡ c.upper + 1
unfolding Ledger.claim
edge-claim l c e = ground arith

-- What registering a chunk that the chunker has cut comes to: it is accepted where the two are level, and else
-- refused, with the chunker ahead.
register-Agree :
    (kept : Bool) (c : Copier) (chunk : Chunk) (d : Chunker)
    → Agree kept c
    → Cuts c.chunker chunk d
    → Agree kept (register chunk (record c { chunker = d })).1
      × (kept ≡ true → (register chunk (record c { chunker = d })).0 ≢ failed claim_off_frontier)
unfolding register
register-Agree kept c chunk d a t = elim (Bool-cases (Ledger.claim c.ledger chunk).1) [
  | inl accepted ↦ rw accepted (
    record {
      ledger = claim-Inv c.ledger chunk t.range a.ledger;
      cursor = t.cursor;
      ahead = omega (arith, t.moved, edge-claim c.ledger chunk accepted);
      level = λ q. t.moved ∙ sym (edge-claim c.ledger chunk accepted);
    },
    λ q r. ground arith,
  )
  | inr refused ↦
      let off : kept ≢ true = λ q. absurd (
        ground (
          arith,
          refused,
          (claim-accepted_iff c.ledger chunk a.ledger).1
              (t.at_edge ∙ a.level q, omega (arith, t.at_edge, a.level q, t.range.0, t.range.1)),
        )) in
      rw refused (
        record {
          ledger = a.ledger;
          cursor = t.cursor;
          ahead = omega (arith, t.moved, t.at_edge, a.ahead, t.range.0);
          level = λ q. absurd (off q);
        },
        λ q. absurd (off q),
      )
]

-- Where the transaction of a cut fails to commit, the chunker is ahead of the ledger by the cut.
uncommitted-Agree :
    (kept : Bool) (c : Copier) (chunk : Chunk) (d : Chunker)
    → Agree kept c
    → Cuts c.chunker chunk d
    → Agree (kept && false) (record c { chunker = d })
uncommitted-Agree kept c chunk d a t = record {
  ledger = a.ledger;
  cursor = t.cursor;
  ahead = omega (arith, t.moved, t.at_edge, a.ahead, t.range.0);
  level = λ q. absurd (ground (arith, q));
}

unmoved-Agree :
    (kept : Bool) (c : Copier) (committed : Bool) → Agree kept c → Agree (kept && committed) c
unmoved-Agree kept c committed a = record {
  ledger = a.ledger;
  cursor = a.cursor;
  ahead = a.ahead;
  level = λ q. a.level (ground (arith, q));
}

with_chunker :
    (kept : Bool) (c : Copier) (d : Chunker)
    → d ≡ c.chunker
    → Agree kept c
    → Agree kept (record c { chunker = d })
with_chunker kept c d e a = subst (λ x. Agree kept (record c { chunker = x })) (sym e) a

-- What a claim comes to, by the outcome of the cut.
abbrev pub Claimed : Bool → Bool → Reply (Option Chunk) × Copier → Type 0
Claimed kept committed r =
    Agree (kept && committed) r.1 × (kept ≡ true → r.0 ≢ failed claim_off_frontier)

registered-Claimed :
    (kept committed : Bool) (c : Copier) (r : Result (Option Chunk × Chunker))
    → Agree kept c
    → Outcome c.chunker r
    → Claimed kept committed (registered committed c r)
unfolding registered
registered-Claimed kept committed c (err e) a o =
    (unmoved-Agree kept c committed a, λ q r. ground arith)
registered-Claimed kept true c (ok (none, d)) a o =
    (unmoved-Agree kept _ true (with_chunker kept c d o.0 a), λ q r. ground arith)
registered-Claimed kept false c (ok (none, d)) a o =
    (unmoved-Agree kept _ false (with_chunker kept c d o.0 a), λ q r. ground arith)
registered-Claimed kept true c (ok (some chunk, d)) a o =
    let (held, accepted) = register-Agree kept c chunk d a o in
    (unmoved-Agree kept _ true held, accepted)
registered-Claimed kept false c (ok (some chunk, d)) a o =
    (uncommitted-Agree kept c chunk d a o, λ q r. ground arith)

-- Where the chunker is not behind the ledger and the query answers an int64, a claim keeps it so, and keeps them
-- level where they were and the cut's transaction commits; and a claim is refused for a chunk off the frontier
-- only where the two were not level.
pub claim-Claimed :
    (query : Query) (kept committed : Bool) (c : Copier)
    → SendsInt64 query
    → Agree kept c
    → Claimed kept committed (claim query committed c)
unfolding claim
claim-Claimed query kept committed c s a =
    registered-Claimed kept committed c (next_chunk query c.chunker) a
      (next_chunk-Outcome query c.chunker s a.cursor)

land_cut : (l : Ledger) (c : Chunk) (rows : Int64) → (Ledger.land l c rows).0.cut ≡ l.cut
unfolding Ledger.land
land_cut l c rows = elim (Bool-cases (contains l.in_flight c)) [
  | inl found ↦ rw (found, Ledger.land) (advance_cut _ (record_landed l c rows))
  | inr missing ↦ rw (missing, Ledger.land)
]

settle_cut :
    (l : Ledger) (c : Chunk) (rows : Int64) (pending : List Int64)
    → (Ledger.settle l c rows pending).0.cut ≡ l.cut
unfolding Ledger.settle
settle_cut l c rows pending = ground arith

with_ledger :
    (kept : Bool) (c : Copier) (l : Ledger)
    → Inv l
    → l.cut ≡ c.ledger.cut
    → Agree kept c
    → Agree kept (record c { ledger = l })
with_ledger kept c l v e a = record {
  ledger = v;
  cursor = a.cursor;
  ahead = subst (λ w. edge w ≤ edge (cut c.chunker)) (sym e) a.ahead;
  level = λ q. a.level q ∙ ap edge (sym e);
}

settle-Agree :
    (kept : Bool) (chunk : Chunk) (rows : Int64) (pending : List Int64) (c : Copier)
    → Agree kept c
    → Agree kept (settle chunk rows pending c).1
unfolding settle
settle-Agree kept chunk rows pending c a =
    elim (Bool-cases (Ledger.settle c.ledger chunk rows pending).1) [
      | inl held ↦
          rw (held, settle)
            (with_ledger kept c _ (settle-Inv c.ledger chunk rows pending a.ledger)
              (settle_cut c.ledger chunk rows pending) a)
      | inr refused ↦ rw (refused, settle) a
    ]

land-Agree :
    (kept : Bool) (chunk : Chunk) (rows : Int64) (c : Copier)
    → Agree kept c
    → Agree kept (land chunk rows c).1
unfolding land
land-Agree kept chunk rows c a = elim (Bool-cases (Ledger.land c.ledger chunk rows).1) [
  | inl held ↦
      rw (held, land)
        (with_ledger kept c _ (land-Inv c.ledger chunk rows a.ledger) (land_cut c.ledger chunk rows)
          a)
  | inr refused ↦ rw (refused, land) a
]

-- Whether the step leaves no cut uncommitted.
abbrev pub commits : Step → Bool
commits (claims query committed) = committed
commits (settles chunk rows pending) = true
commits (lands chunk rows) = true
commits (feeds chunk elapsed) = true

abbrev pub kept_by : Bool → List Step → Bool
kept_by kept [] = kept
kept_by kept (s ∷ ss) = kept_by (kept && commits s) ss

step-Agree :
    (float : Float64) (s : Step) (kept : Bool) (c : Copier)
    → StepServed s
    → Agree kept c
    → Agree (kept && commits s) (step float s c)
unfolding step
step-Agree float (claims query committed) kept c v a = (claim-Claimed query kept committed c v a).0
step-Agree float (settles chunk rows pending) kept c v a =
    unmoved-Agree kept (settle chunk rows pending c).1 true
      (settle-Agree kept chunk rows pending c a)
step-Agree float (lands chunk rows) kept c v a =
    unmoved-Agree kept (land chunk rows c).1 true (land-Agree kept chunk rows c a)
step-Agree float (feeds chunk elapsed) kept c v a = record {
  ledger = a.ledger;
  cursor = rw (fed-next float c.chunker chunk elapsed) a.cursor;
  ahead = rw (fed-cut float c.chunker chunk elapsed) a.ahead;
  level = λ q. rw (fed-cut float c.chunker chunk elapsed) (a.level (ground (arith, q)));
}

-- Whatever steps the workers take, in whatever order, with queries that answer an int64 and with cuts that commit
-- or fail to: the ledger's invariant holds, the chunker's cut frontier is never behind the ledger's, and the two
-- are equal where every cut committed and they were equal at the start.
pub run-Agree :
    (float : Float64) (ss : List Step) (kept : Bool) (c : Copier)
    → All StepServed ss
    → Agree kept c
    → Agree (kept_by kept ss) (run float ss c)
unfolding run
run-Agree float [] kept c v a = a
run-Agree float (s ∷ ss) kept c v a =
    run-Agree float ss (kept && commits s) (step float s c) v.1 (step-Agree float s kept c v.0 a)
