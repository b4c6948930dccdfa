-- ===== src/Applier/Drain/Deferral.antt =====
-- The passes over the travelling pairs: they end with no pair left to defer, and they only hold back
-- landed keys.
use pg_sprite.Prelude.Int64.{Int64}
use pg_sprite.Prelude.{
  zero, suc, [], ◌∷◌, true, false, inl, inr, refl, ℕ, Bool, List, ◌+◌, ◌<◌, ◌≡◌, ◌≤◌, arith,
  Bool-cases, ◌*◌, length, not, ◌⊎◌, ◌||◌, sym, ap, ◌∙◌, ◌==◌, subst, ==_iff, ◌≢◌,
}
use pg_sprite.Copier.Position.{KeyState, uncut, in_flight, landed}
use pg_sprite.Applier.Drain.{
  MovePair, waits_together, Int64, defer_loop, defer_pass, Bool, List, defer_pair, defers,
  is_in_flight,
}

-- One for each half of a pair that is not in flight yet.
abbrev pub idle : KeyState → ℕ
idle uncut = 1
idle in_flight = 0
idle landed = 1

unfoldable pub slack : (Int64 → KeyState) → List MovePair → ℕ
slack state [] = 0
slack state (p ∷ ps) = idle (state p.moved) + idle (state p.old) + slack state ps

-- No pair waits to be deferred.
abbrev pub Settled : (Int64 → Bool) → (Int64 → KeyState) → List MovePair → Type 0
Settled invisible state [] = Unit {0}
Settled invisible state (p ∷ ps) = (defers state invisible p ≡ false) × Settled invisible state ps

idle_deferred :
    (state : Int64 → KeyState) (p : MovePair) (k : Int64)
    → idle (defer_pair state p k) ≤ idle (state k)
idle_deferred state p k = ground arith

slack_deferred :
    (state : Int64 → KeyState) (p : MovePair) (ps : List MovePair)
    → slack (defer_pair state p) ps ≤ slack state ps
unfolding slack
slack_deferred state p [] = omega arith
slack_deferred state p (q ∷ qs) =
    omega
      (arith, idle_deferred state p q.moved, idle_deferred state p q.old, slack_deferred state p qs)

slack-pass :
    (invisible : Int64 → Bool) (ps : List MovePair) (state : Int64 → KeyState) (qs : List MovePair)
    → slack (defer_pass invisible ps state).0 qs ≤ slack state qs
unfolding defer_pass
slack-pass invisible [] state qs = omega arith
slack-pass invisible (p ∷ ps) state qs = ground (
  arith,
  slack-pass invisible ps state qs,
  slack-pass invisible ps (defer_pair state p) qs,
  slack_deferred state p qs,
)

idle-pass :
    (invisible : Int64 → Bool) (ps : List MovePair) (state : Int64 → KeyState) (k : Int64)
    → idle ((defer_pass invisible ps state).0 k) ≤ idle (state k)
unfolding defer_pass
idle-pass invisible [] state k = omega arith
idle-pass invisible (p ∷ ps) state k = ground (
  arith,
  idle-pass invisible ps state k,
  idle-pass invisible ps (defer_pair state p) k,
  idle_deferred state p k,
)

idle_sum :
    (moved old : KeyState)
    → (not (is_in_flight moved) || not (is_in_flight old)) ≡ true
    → 0 < idle moved + idle old
idle_sum moved old e = ground arith

defers-idle :
    (state : Int64 → KeyState) (invisible : Int64 → Bool) (p : MovePair)
    → defers state invisible p ≡ true
    → 0 < idle (state p.moved) + idle (state p.old)
defers-idle state invisible p e = idle_sum (state p.moved) (state p.old) (ground arith)

idle_pair :
    (state : Int64 → KeyState) (p : MovePair)
    → (idle (defer_pair state p p.moved) ≡ 0) × (idle (defer_pair state p p.old) ≡ 0)
idle_pair state p = (ground arith, ground arith)

pass_now :
    (invisible : Int64 → Bool) (p : MovePair) (ps : List MovePair) (state : Int64 → KeyState)
    → defers state invisible p ≡ true
    → defer_pass invisible (p ∷ ps) state ≡ ((defer_pass invisible ps (defer_pair state p)).0, true)
unfolding defer_pass
pass_now invisible p ps state e = rw e refl

pass_later :
    (invisible : Int64 → Bool) (p : MovePair) (ps : List MovePair) (state : Int64 → KeyState)
    → defers state invisible p ≡ false
    → defer_pass invisible (p ∷ ps) state ≡ defer_pass invisible ps state
unfolding defer_pass
pass_later invisible p ps state e = rw e refl

pass_empty :
    (invisible : Int64 → Bool) (state : Int64 → KeyState) → (defer_pass invisible [] state).1 ≢ true
unfolding defer_pass
pass_empty invisible state e = ground arith

slack_cons :
    (state : Int64 → KeyState) (p : MovePair) (ps : List MovePair)
    → slack state (p ∷ ps) ≡ idle (state p.moved) + idle (state p.old) + slack state ps
unfolding slack
slack_cons state p ps = refl

slack-pass_changed :
    (invisible : Int64 → Bool) (ps : List MovePair) (state : Int64 → KeyState)
    → (defer_pass invisible ps state).1 ≡ true
    → slack (defer_pass invisible ps state).0 ps < slack state ps
slack-pass_changed invisible [] state e = absurd (pass_empty invisible state e)
slack-pass_changed invisible (p ∷ ps) state e = elim (Bool-cases (defers state invisible p)) [
  | inl now ↦
      subst (λ r. slack r.0 (p ∷ ps) < slack state (p ∷ ps))
        (sym (pass_now invisible p ps state now))
        (omega (
          arith,
          idle-pass invisible ps (defer_pair state p) p.moved,
          idle-pass invisible ps (defer_pair state p) p.old,
          slack-pass invisible ps (defer_pair state p) ps,
          slack_deferred state p ps,
          idle_pair state p,
          slack_cons state p ps,
          slack_cons (defer_pass invisible ps (defer_pair state p)).0 p ps,
          defers-idle state invisible p now,
        ))
  | inr later ↦
      subst (λ r. slack r.0 (p ∷ ps) < slack state (p ∷ ps))
        (sym (pass_later invisible p ps state later))
        (omega (
          arith,
          slack_cons state p ps,
          slack_cons (defer_pass invisible ps state).0 p ps,
          idle-pass invisible ps state p.moved,
          idle-pass invisible ps state p.old,
          slack-pass_changed invisible ps state
              (sym (ap (λ r. r.1) (pass_later invisible p ps state later)) ∙ e),
        ))
]

pass_unchanged :
    (invisible : Int64 → Bool) (ps : List MovePair) (state : Int64 → KeyState)
    → (defer_pass invisible ps state).1 ≡ false
    → ((defer_pass invisible ps state).0 ≡ state) × Settled invisible state ps
unfolding defer_pass
pass_unchanged invisible [] state e = (refl, tt)
pass_unchanged invisible (p ∷ ps) state e = ground (arith, pass_unchanged invisible ps state)

pub slack_bound : (state : Int64 → KeyState) (ps : List MovePair) → slack state ps ≤ 2 * length ps
unfolding slack
slack_bound state [] = omega arith
slack_bound state (p ∷ ps) = ground (arith, slack_bound state ps)

pub loop-Settled :
    (fuel : ℕ) (invisible : Int64 → Bool) (ps : List MovePair) (state : Int64 → KeyState)
    → slack state ps < fuel
    → Settled invisible (defer_loop fuel invisible ps state) ps
unfolding defer_loop
loop-Settled zero invisible ps state h = absurd (omega arith)
loop-Settled (suc fuel) invisible ps state h = elim (Bool-cases (defer_pass invisible ps state).1) [
  | inl changed ↦ rw changed (
      loop-Settled fuel invisible ps (defer_pass invisible ps state).0
        (omega (arith, slack-pass_changed invisible ps state changed)))
  | inr still ↦
      let (same, settled) = pass_unchanged invisible ps state still in rw (still, same) settled
]

-- Only a landed key is deferred.
abbrev pub Held : KeyState → KeyState → Type 0
Held before after = (after ≡ before) ⊎ ((before ≡ landed) × (after ≡ in_flight))

Held-both :
    (moved old : KeyState) (invisible : Bool)
    → waits_together moved old invisible ≡ true
    → Held moved in_flight × Held old in_flight
unfolding waits_together
Held-both uncut old invisible e = absurd (ground arith)
Held-both in_flight uncut invisible e = absurd (ground arith)
Held-both in_flight in_flight invisible e = (inl refl, inl refl)
Held-both in_flight landed invisible e = (inl refl, inr (refl, refl))
Held-both landed uncut invisible e = absurd (ground arith)
Held-both landed in_flight invisible e = (inr (refl, refl), inl refl)
Held-both landed landed invisible e = (inr (refl, refl), inr (refl, refl))

Held-once :
    (state : Int64 → KeyState) (invisible : Int64 → Bool) (p : MovePair) (k : Int64)
    → defers state invisible p ≡ true
    → Held (state k) (defer_pair state p k)
Held-once state invisible p k e =
    let both = Held-both (state p.moved) (state p.old) (invisible p.moved) (ground arith) in
    elim (Bool-cases (p.moved == k)) [
      | inl same ↦
          rw same (subst (λ j. Held (state j) in_flight) ((==_iff p.moved k).0 same) both.0)
      | inr apart ↦ elim (Bool-cases (p.old == k)) [
        | inl same ↦
            rw (apart, same)
              (subst (λ j. Held (state j) in_flight) ((==_iff p.old k).0 same) both.1)
        | inr neither ↦ rw (apart, neither) (inl refl)
      ]
    ]

Held-trans : (a b c : KeyState) → Held a b → Held b c → Held a c
Held-trans a b c h g = ground arith

pass-Held :
    (invisible : Int64 → Bool) (ps : List MovePair) (state : Int64 → KeyState) (k : Int64)
    → Held (state k) ((defer_pass invisible ps state).0 k)
unfolding defer_pass
pass-Held invisible [] state k = inl refl
pass-Held invisible (p ∷ ps) state k = elim (Bool-cases (defers state invisible p)) [
  | inl now ↦ rw now (
      Held-trans _ _ _ (Held-once state invisible p k now)
        (pass-Held invisible ps (defer_pair state p) k))
  | inr later ↦ rw later (pass-Held invisible ps state k)
]

pub loop-Held :
    (fuel : ℕ) (invisible : Int64 → Bool) (ps : List MovePair) (state : Int64 → KeyState)
    (k : Int64)
    → Held (state k) (defer_loop fuel invisible ps state k)
unfolding defer_loop
loop-Held zero invisible ps state k = inl refl
loop-Held (suc fuel) invisible ps state k = elim (Bool-cases (defer_pass invisible ps state).1) [
  | inl changed ↦ rw changed (
      Held-trans _ _ _ (pass-Held invisible ps state k)
        (loop-Held fuel invisible ps (defer_pass invisible ps state).0 k))
  | inr still ↦ rw still (pass-Held invisible ps state k)
]
