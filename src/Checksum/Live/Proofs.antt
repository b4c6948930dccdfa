-- ===== src/Checksum/Live/Proofs.antt =====
-- When a live pass vouches for the shadow.
use pg_sprite.Checksum.Live.{
  Outcome, Swept, act, check_live, conclude, settle_all, sweep_and_settle, Pass, count_chunk, prove,
  settle_chunk, unresolved, Report, unproved, with_defaults, no_outcome,
}
use pg_sprite.Checksum.Pass.{
  DivergencePolicy, LiveOptions, is_clean, LiveError, Report, abort, with_defaults, repair,
  no_policy, recopy, invalid_options, unnamed, other_policy, pass_running, nothing_landed,
  policy_fails, is_recopy, validate,
}
use pg_sprite.Applier.Buffer.Invariant.{is_some}
use pg_sprite.Copier.Types.{Watermark}
use mathlib.Core.Option.{none}
use pg_sprite.Applier.Flusher.{is_empty}
use mathlib.Core.List.{[]}
use pg_sprite.Prelude.{
  ℕ, ◌≡◌, List, some, true, arith, ◌∷◌, Option, false, none, Bool, ◌++◌, refl, if◌then◌else◌, ◌||◌,
  not,
}
use pg_sprite.Checksum.Settle.{
  Settling, Observation, Turn, broken, equal, settled, hot, diverged, unfinished, decided,
}

-- The chunk was found clean.
abbrev pub IsSettled : Settling → Type 0
IsSettled (decided equal now) = Unit {0}
IsSettled (decided settled now) = Unit {0}
IsSettled (decided hot now) = ⊥
IsSettled (decided diverged now) = ⊥
IsSettled (unresolved cause n prior) = ⊥
IsSettled broken = ⊥
IsSettled unfinished = ⊥

abbrev pub AllSettled : LiveOptions → (Observation → ℕ → Turn) → List Observation → Type 0
AllSettled o turns [] = Unit {0}
AllSettled o turns (p ∷ ps) = IsSettled (settle_chunk o turns p) × AllSettled o turns ps

-- A clean report was clean before the chunk, and the chunk settled.
abbrev CleanFrom : Swept → Settling → Option Swept → Type 0
CleanFrom q s none = Unit {0}
CleanFrom q s (some t) = is_clean t.0 ≡ true → (is_clean q.0 ≡ true) × IsSettled s

never_empty {ℓ} : {A : Type ℓ} (xs : List A) (x : A) → is_empty (xs ++ x ∷ []) ≡ false
never_empty [] x = refl
never_empty (y ∷ ys) x = refl

count-CleanFrom : (s : Settling) (q : Swept) → CleanFrom q s (count_chunk s q)
unfolding is_clean
count-CleanFrom (decided equal now) q = λ c. (c, tt)
count-CleanFrom (decided settled now) q = λ c. (c, tt)
count-CleanFrom (decided hot now) q = tt
count-CleanFrom (decided diverged now) (r, first) = λ c. absurd (
    ground (
      arith,
      c,
      never_empty r.mismatches
          (record { chunk = now.chunk; source = now.source; shadow = now.shadow }),
    ))
count-CleanFrom (unresolved cause n prior) (r, first) = λ c. absurd (ground (arith, c))
count-CleanFrom broken q = tt
count-CleanFrom unfinished q = tt

-- A clean report at the end was clean at the start, and every chunk settled.
abbrev AllCleanFrom :
    LiveOptions → (Observation → ℕ → Turn) → List Observation → Swept → Option Swept → Type 0
AllCleanFrom o turns ps q none = Unit {0}
AllCleanFrom o turns ps q (some t) =
    is_clean t.0 ≡ true → (is_clean q.0 ≡ true) × AllSettled o turns ps

after-AllCleanFrom :
    (o : LiveOptions) (turns : Observation → ℕ → Turn) (prior : Observation) (ps : List Observation)
    (q next : Swept) (t : Option Swept)
    → (is_clean next.0 ≡ true → (is_clean q.0 ≡ true) × IsSettled (settle_chunk o turns prior))
    → AllCleanFrom o turns ps next t
    → AllCleanFrom o turns (prior ∷ ps) q t
after-AllCleanFrom o turns prior ps q next none h g = tt
after-AllCleanFrom o turns prior ps q next (some t) h g =
    λ c. let (clean, rest) = g c in let (before, this) = h clean in (before, (this, rest))

all-AllCleanFrom :
    (o : LiveOptions) (turns : Observation → ℕ → Turn) (ps : List Observation) (q : Swept)
    → AllCleanFrom o turns ps q (settle_all o turns ps q)
unfolding settle_all
all-AllCleanFrom o turns [] q = λ c. (c, tt)
all-AllCleanFrom o turns (prior ∷ ps) q =
    go (count_chunk (settle_chunk o turns prior) q) (count-CleanFrom (settle_chunk o turns prior) q)
      (λ next. all-AllCleanFrom o turns ps next)
  where
    go :
        (x : Option Swept)
        → CleanFrom q (settle_chunk o turns prior) x
        → ((next : Swept) → AllCleanFrom o turns ps next (settle_all o turns ps next))
        → AllCleanFrom o turns
            (prior ∷ ps)
            q
            (elim x [ none ↦ none | some next ↦ settle_all o turns ps next ])
    go none h rest = tt
    go (some next) h rest =
        after-AllCleanFrom o turns prior ps q next (settle_all o turns ps next) h (rest next)

-- What a sweep found, and that all of it settled.
abbrev pub SweepSettled : LiveOptions → Pass → Type 0
SweepSettled o p =
    (r : Report) × (differing : List Observation) × (p.sweep ≡ some (r, differing))
    × (is_clean r ≡ true)
    × (p.lost ≡ false)
    × AllSettled o p.turns differing

abbrev CleanSweep : LiveOptions → Pass → Option Swept → Type 0
CleanSweep o p none = Unit {0}
CleanSweep o p (some t) = is_clean t.0 ≡ true → SweepSettled o p

sweep-CleanSweep : (o : LiveOptions) (p : Pass) → CleanSweep o p (sweep_and_settle o p)
unfolding sweep_and_settle
sweep-CleanSweep o p = swept p.sweep refl
  where
    kept :
        (r : Report) (ds : List Observation)
        → p.sweep ≡ some (r, ds)
        → (x : Option Swept) → AllCleanFrom o p.turns ds (r, none) x
        → (l : Bool) → p.lost ≡ l
        → CleanSweep o p (elim x [ none ↦ none | some q ↦ if l then none else some q ])
    kept r ds at none h l e = tt
    kept r ds at (some q) h true e = tt
    kept r ds at (some q) h false e = λ c. let (before, all) = h c in (r, ds, at, before, e, all)

    swept :
        (x : Option (Report × List Observation))
        → p.sweep ≡ x
        → CleanSweep o p (elim x [
          | none ↦ none
          | some (report, differing) ↦ elim (settle_all o p.turns differing (report, none)) [
            | none ↦ none
            | some q ↦ if p.lost then none else some q
          ]
        ])
    swept none at = tt
    swept (some (r, ds)) at =
        kept r ds at (settle_all o p.turns ds (r, none)) (all-AllCleanFrom o p.turns ds (r, none))
          p.lost refl

-- The outcome carries a proof.
abbrev pub carries_proof : Outcome × Option LiveError → Bool
carries_proof (out, e) = is_some out.clean || is_some out.verified

-- The outcome is that of a pass that repaired nothing and met no error, and its proof goes through the
-- watermark of a clean report; the sweep was clean but for chunks that settled.
abbrev pub Vouched : LiveOptions → Pass → Outcome × Option LiveError → Type 0
Vouched o p (out, e) =
    (out.repairs ≡ 0)
    × (e ≡ none)
    × ((r : Report) × (out.report ≡ some r) × (out.clean ≡ some r.through) × (is_clean r ≡ true))
    × SweepSettled o p

abbrev Proves : LiveOptions → Pass → Outcome × Option LiveError → Type 0
Proves o p q = carries_proof q ≡ true → Vouched o p q

act-Proves :
    (o : LiveOptions) (policy : DivergencePolicy) (p : Pass) (q : Swept)
    → Proves o p (act policy o p q)
unfolding act
act-Proves o abort p q = λ h. absurd (ground (arith, h))
act-Proves o repair p q = λ h. absurd (ground (arith, h))
act-Proves o recopy p q = λ h. absurd (ground (arith, h))
act-Proves o unnamed p q = λ h. absurd (ground (arith, h))
act-Proves o other_policy p q = λ h. absurd (ground (arith, h))

conclude-Proves :
    (o : LiveOptions) (policy : DivergencePolicy) (p : Pass) (q : Option Swept)
    → CleanSweep o p q
    → Proves o p (conclude policy o p q)
unfolding conclude prove
conclude-Proves o policy p none s = λ h. absurd (ground (arith, h))
conclude-Proves o policy p (some (r, first)) s = go (is_clean r) refl (is_empty r.mismatches)
  where
    go :
        (b : Bool)
        → is_clean r ≡ b
        → (m : Bool)
        → Proves o p (
            if b
            then (prove r, none)
            else (if m then (unproved r 0, first) else act policy o p (r, first)))
    go true c m = λ h. (refl, refl, (r, refl, refl, c), s c)
    go false c true = λ h. absurd (ground (arith, h))
    go false c false = act-Proves o policy p (r, first)

check_live-Proves :
    (policy : DivergencePolicy) (opts : LiveOptions) (through : Watermark) (p : Pass)
    → Proves (with_defaults opts) p (check_live policy opts through p)
unfolding check_live
check_live-Proves policy opts through p =
    go (policy_fails policy || is_recopy policy) (not (validate policy (with_defaults opts)))
      p.running (not through.valid)
  where
    o : LiveOptions
    o = with_defaults opts

    go :
        (a b c d : Bool)
        → Proves o p (
            if a
            then (no_outcome, some no_policy)
            else (if b
                then (no_outcome, some invalid_options)
                else (if c
                    then (no_outcome, some pass_running)
                    else (if d
                        then (no_outcome, some nothing_landed)
                        else conclude policy o p (sweep_and_settle o p)))))
    go true b c d = λ h. absurd (ground (arith, h))
    go false true c d = λ h. absurd (ground (arith, h))
    go false false true d = λ h. absurd (ground (arith, h))
    go false false false true = λ h. absurd (ground (arith, h))
    go false false false false =
        conclude-Proves o policy p (sweep_and_settle o p) (sweep-CleanSweep o p)

-- A live pass vouches for the shadow only where it repaired nothing, met no error and kept its lock, its sweep
-- was clean, and every chunk that differed in the sweep settled: never where one diverged, was left unsettled,
-- or could not be read.
pub check_live-Vouched :
    (policy : DivergencePolicy) (opts : LiveOptions) (through : Watermark) (p : Pass)
    → carries_proof (check_live policy opts through p) ≡ true
    → Vouched (with_defaults opts) p (check_live policy opts through p)
check_live-Vouched policy opts through p h = check_live-Proves policy opts through p h
