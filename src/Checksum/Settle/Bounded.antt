-- ===== src/Checksum/Settle/Bounded.antt =====
-- Settling a chunk ends within its bounds, and what it ends with.
use mathlib.Core.Bool.{true}
use Prim.Native.Nat.{zero}
use pg_sprite.Checksum.Settle.Judged.{Means, judge-Means}
use pg_sprite.Prelude.{
  ℕ, ◌≤◌, ◌+◌, ◌<◌, arith, suc, ◌≡◌, Bool, Bool-cases, Option, false, some, leb, none, ◌==◌, inl,
  subst, ==_iff, inr, if◌then◌else◌, not, refl, ◌∙◌, ◌⊎◌, ap, sym,
}
use pg_sprite.Checksum.Settle.{
  Turn, after_wait, await_confirmed, settle, Observation, Settling, Waited, decided, is_hot, passed,
  lagging, sleep_failed, broken, out_of_fuel, unresolved, cause_lagging, cause_hot, unfinished, not,
  judge,
}

-- How a wait ended, with the polls from one on.
abbrev pub Waits : Turn → ℕ → ℕ → ℕ → Waited → Type 0
Waits t limit polled lsn passed = (i : ℕ) × (i ≤ limit) × (lsn ≤ t.confirmed i)
Waits t limit polled lsn lagging = (i : ℕ) → polled ≤ i → i ≤ limit → t.confirmed i < lsn
Waits t limit polled lsn sleep_failed = Unit {0}
Waits t limit polled lsn out_of_fuel = ⊥

-- One poll more.
earlier-Waits :
    (t : Turn) (limit polled lsn : ℕ) (r : Waited)
    → t.confirmed polled < lsn
    → Waits t limit (suc polled) lsn r
    → Waits t limit polled lsn r
earlier-Waits t limit polled lsn passed low h = h
earlier-Waits t limit polled lsn lagging low h = λ i from to. elim (Bool-cases (polled == i)) [
  | inl here ↦ subst (λ j. t.confirmed j < lsn) ((==_iff polled i).0 here) low
  | inr later ↦ h i (ground (arith, from, later)) to
]
earlier-Waits t limit polled lsn sleep_failed low h = h
earlier-Waits t limit polled lsn out_of_fuel low h = h

pub await-Waits :
    (fuel : ℕ) (t : Turn) (limit polled lsn : ℕ)
    → polled ≤ limit
    → limit < polled + fuel
    → Waits t limit polled lsn (await_confirmed fuel t limit polled lsn)
unfolding await_confirmed
await-Waits zero t limit polled lsn p h = absurd (omega (arith, p, h))
await-Waits (suc fuel) t limit polled lsn p h =
    poll (leb lsn (t.confirmed polled)) refl (leb limit polled) refl (t.sleep_fails polled)
      (λ more. await-Waits fuel t limit (suc polled) lsn more (omega (arith, h)))
  where
    poll :
        (b : Bool)
        → leb lsn (t.confirmed polled) ≡ b
        → (c : Bool) → leb limit polled ≡ c
        → (d : Bool)
        → (suc polled ≤ limit
            → Waits t limit (suc polled) lsn (await_confirmed fuel t limit (suc polled) lsn))
        → Waits t limit polled lsn (
            if b
            then passed
            else (if c
                then lagging
                else (if d then sleep_failed else await_confirmed fuel t limit (suc polled) lsn)))
    poll true e c f d rest = (polled, p, ground (arith, e))
    poll false e true f d rest = λ i from to.
        let same : polled ≡ i = ground (arith, f, p, from, to) in
        let low : t.confirmed polled < lsn = ground (arith, e) in
        subst (λ j. t.confirmed j < lsn) same low
    poll false e false f true rest = tt
    poll false e false f false rest =
        earlier-Waits t limit polled lsn (await_confirmed fuel t limit (suc polled) lsn)
          (ground (arith, e)) (rest (ground (arith, f)))

-- The read that a reread is judged against: the first one, or the reread of the turn before.
abbrev pub IsPrior : (ℕ → Turn) → Observation → ℕ → ℕ → Observation → Type 0
IsPrior turns first start n prior =
    ((n ≡ start) × (prior ≡ first))
    ⊎ ((m : ℕ) × (n ≡ suc m) × (start ≤ m) × ((turns m).reread ≡ some prior))

-- What settling ends with, from a first read and a number of rereads on, after at most so many rereads.
abbrev pub Ends : ℕ → ℕ → (ℕ → Turn) → ℕ → ℕ → Observation → Settling → Type 0
Ends attempts polls turns most start first (decided v now) =
    (is_hot v ≡ false)
    × ((prior : Observation) × (n : ℕ) × (n < most)
        × IsPrior turns first start n prior
        × ((turns n).reread ≡ some now)
        × Means v prior now
        × Waits (turns n) polls 0 prior.lsn passed)
Ends attempts polls turns most start first (unresolved cause_lagging n prior) =
    (n ≤ most) × IsPrior turns first start n prior × Waits (turns n) polls 0 prior.lsn lagging
Ends attempts polls turns most start first (unresolved cause_hot n now) =
    (attempts ≤ n) × (n ≤ most) × IsPrior turns first start n now
Ends attempts polls turns most start first broken = Unit {0}
Ends attempts polls turns most start first unfinished = ⊥

-- One reread more.
earlier-IsPrior :
    (turns : ℕ → Turn) (first now : Observation) (start n : ℕ) (prior : Observation)
    → (turns start).reread ≡ some now
    → IsPrior turns now (suc start) n prior
    → IsPrior turns first start n prior
earlier-IsPrior turns first now start n prior at (inl (e, f)) =
    inr (start, e, omega arith, at ∙ ap some (sym f))
earlier-IsPrior turns first now start n prior at (inr (m, e, from, g)) =
    inr (m, e, omega (arith, from), g)

earlier-Ends :
    (attempts polls : ℕ) (turns : ℕ → Turn) (most start : ℕ) (first now : Observation)
    (s : Settling)
    → (turns start).reread ≡ some now
    → Ends attempts polls turns most (suc start) now s
    → Ends attempts polls turns most start first s
earlier-Ends attempts polls turns most start first now (decided v last) at (c, rest) =
    let (prior, n, m, q, at_n, means, waited) = rest in
    (c, (prior, n, m, earlier-IsPrior turns first now start n prior at q, at_n, means, waited))
earlier-Ends attempts polls turns most start first now (unresolved cause_lagging n prior) at
      (m, q, w) =
    (m, earlier-IsPrior turns first now start n prior at q, w)
earlier-Ends attempts polls turns most start first now (unresolved cause_hot n prior) at (a, m, q) =
    (a, m, earlier-IsPrior turns first now start n prior at q)
earlier-Ends attempts polls turns most start first now broken at h = tt
earlier-Ends attempts polls turns most start first now unfinished at h = h

waited-Ends :
    (attempts polls : ℕ) (turns : ℕ → Turn) (most rereads : ℕ) (prior : Observation) (w : Waited)
    (next : Settling)
    → rereads < most
    → Waits (turns rereads) polls 0 prior.lsn w
    → (Waits (turns rereads) polls 0 prior.lsn passed
        → Ends attempts polls turns most rereads prior next)
    → Ends attempts polls turns most rereads prior (after_wait w rereads prior next)
unfolding after_wait
waited-Ends attempts polls turns most rereads prior passed next m h g = g h
waited-Ends attempts polls turns most rereads prior lagging next m h g =
    (omega (arith, m), inl (refl, refl), h)
waited-Ends attempts polls turns most rereads prior sleep_failed next m h g = tt
waited-Ends attempts polls turns most rereads prior out_of_fuel next m h g = h

judged-Ends :
    (attempts polls : ℕ) (turns : ℕ → Turn) (most rereads : ℕ) (prior now : Observation)
    (again : Settling)
    → rereads < most
    → (turns rereads).reread ≡ some now
    → Waits (turns rereads) polls 0 prior.lsn passed
    → (suc rereads < attempts → Ends attempts polls turns most (suc rereads) now again)
    → Ends attempts polls turns most rereads prior (
        if not (is_hot (judge prior now))
        then decided (judge prior now) now
        else (if leb attempts (suc rereads) then unresolved cause_hot (suc rereads) now else again))
judged-Ends attempts polls turns most rereads prior now again m at w more =
    go (is_hot (judge prior now)) refl (leb attempts (suc rereads)) refl
  where
    go :
        (b : Bool)
        → is_hot (judge prior now) ≡ b
        → (c : Bool) → leb attempts (suc rereads) ≡ c
        → Ends attempts polls turns most rereads prior (
            if not b
            then decided (judge prior now) now
            else (if c then unresolved cause_hot (suc rereads) now else again))
    go false e c f = (e, (prior, rereads, m, inl (refl, refl), at, judge-Means prior now, w))
    go true e true f = (ground (arith, f), omega (arith, m), inr (rereads, refl, omega arith, at))
    go true e false f =
        earlier-Ends attempts polls turns most rereads prior now again at (more (ground (arith, f)))

-- Settling a chunk on enough fuel, at least one turn and as many as there are attempts left, always comes to
-- an end. A verdict compares the last reread with the read right before it, which is the first one or the
-- reread of the turn before, and the catch-up confirmed past that earlier read in between: a clean chunk has
-- two equal sides, or a shadow that reached the source's earlier state; a divergence held still on both sides.
-- A chunk given up as lagging was below its last read's position at every poll, and one given up as hot had all
-- its attempts; and no more rereads are counted than any bound that the attempts do not pass and the rereads so
-- far lie below.
pub settle-Ends :
    (fuel attempts polls : ℕ) (turns : ℕ → Turn) (most rereads : ℕ) (prior : Observation)
    → 1 ≤ fuel
    → attempts ≤ rereads + fuel
    → attempts ≤ most
    → rereads < most
    → Ends attempts polls turns most rereads prior (settle fuel attempts polls turns rereads prior)
unfolding settle
settle-Ends zero attempts polls turns most rereads prior one enough top m =
    absurd (omega (arith, one))
settle-Ends (suc fuel) attempts polls turns most rereads prior one enough top m =
    waited-Ends attempts polls turns most rereads prior
      (await_confirmed (suc polls) (turns rereads) polls 0 prior.lsn)
      (reread_or (turns rereads).reread) m
      (await-Waits (suc polls) (turns rereads) polls 0 prior.lsn (omega arith) (omega arith))
      (λ w. read (turns rereads).reread refl w (λ now left.
        settle-Ends fuel attempts polls turns most (suc rereads) now (omega (arith, enough, left))
          (omega (arith, enough)) top (omega (arith, top, left))))
  where
    reread_or : Option Observation → Settling
    reread_or o = elim o [
      | none ↦ broken
      | some now ↦
          let again = settle fuel attempts polls turns (suc rereads) now in
          if not (is_hot (judge prior now))
          then decided (judge prior now) now
          else (if leb attempts (suc rereads)
              then unresolved cause_hot (suc rereads) now
              else again)
    ]

    read :
        (o : Option Observation)
        → (turns rereads).reread ≡ o
        → Waits (turns rereads) polls 0 prior.lsn passed
        → ((now : Observation)
            → suc rereads < attempts
            → Ends attempts polls turns most
                (suc rereads)
                now
                (settle fuel attempts polls turns (suc rereads) now))
        → Ends attempts polls turns most rereads prior (reread_or o)
    read none at w again = tt
    read (some now) at w again =
        judged-Ends attempts polls turns most rereads prior now
          (settle fuel attempts polls turns (suc rereads) now) m at w (λ left. again now left)
