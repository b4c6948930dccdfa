-- ===== src/Planner/Classify/Worst.antt =====
-- A statement's decisions are those of its operations, and its route the heaviest of theirs.
use pg_sprite.Prelude.{
  List, Bool, ◌≡◌, All, String, true, ◌⊎◌, arith, false, map, sym, Any, [], ◌∷◌, inl, ◌++◌,
  All-append, refl, ◌∙◌, All-map, inr, subst, Any-append,
}
use pg_sprite.Planner.Types.{Route, Decision, Facts, Op, Plan, route_native}
use pg_sprite.Planner.Types.{
  Route, Op, Decision, Facts, Plan, route_native, route_copy_and_swap, route_refuse,
}
use mathlib.Core.List.{append_assoc, append-nil}
use pg_sprite.Planner.Classify.{
  classify_loop, classify_op, classify_statement, worse, stamp, is_single, Route, Sequences, Bool,
  Decision, Op, true, route_native,
}

-- The order of the routes: native, then copy and swap, then refuse.
abbrev pub no_heavier : Route → Route → Bool
no_heavier route_native q = true
no_heavier route_copy_and_swap route_native = false
no_heavier route_copy_and_swap route_copy_and_swap = true
no_heavier route_copy_and_swap route_refuse = true
no_heavier route_refuse route_native = false
no_heavier route_refuse route_copy_and_swap = false
no_heavier route_refuse route_refuse = true

-- The decisions of a list of operations, in order.
abbrev pub decisions_of : Sequences → Bool → Facts → List Op → List Decision
decisions_of sequences single facts ops =
    map (λ op. stamp (classify_op sequences single facts op)) ops

-- No decision's route is heavier than this one, which is native or some decision's.
abbrev pub IsHeaviest : Route → List Decision → Type 0
IsHeaviest r ds =
    All (λ d. no_heavier d.route r ≡ true) ds × ((r ≡ route_native) ⊎ Any (λ d. d.route ≡ r) ds)

worse-left : (a b : Route) → no_heavier a (worse a b) ≡ true
unfolding worse
worse-left a b = ground arith

worse-right : (a b : Route) → no_heavier b (worse a b) ≡ true
unfolding worse
worse-right a b = ground arith

worse-one : (a b : Route) → (worse a b ≡ a) ⊎ (worse a b ≡ b)
unfolding worse
worse-one a b = ground arith

no_heavier_trans :
    (a b c : Route) → no_heavier a b ≡ true → no_heavier b c ≡ true → no_heavier a c ≡ true
no_heavier_trans a b c h g = ground (arith, h, g)

step-IsHeaviest :
    (r : Route) (ds : List Decision) (d : Decision)
    → IsHeaviest r ds
    → IsHeaviest (worse r d.route) (ds ++ d ∷ [])
step-IsHeaviest r ds d (above, some_one) = (
  All-append (λ e. no_heavier e.route (worse r d.route) ≡ true) ds (d ∷ [])
      (All-map _ _ (λ e h. no_heavier_trans e.route r (worse r d.route) h (worse-left r d.route)) ds
        above)
      (worse-right r d.route, tt),
  elim (worse-one r d.route) [
    | inl left ↦ elim some_one [
      | inl native ↦ inl (left ∙ native)
      | inr one ↦ inr (
          subst (λ q. Any (λ e. e.route ≡ q) (ds ++ d ∷ [])) (sym left)
            (Any-append (λ e. e.route ≡ r) ds (d ∷ []) (inl one)))
    ]
    | inr right ↦
        inr (Any-append (λ e. e.route ≡ worse r d.route) ds (d ∷ []) (inr (inl (sym right))))
  ],
)

-- What the loop adds to a plan.
abbrev Extends : List Decision → List Decision → Plan → Type 0
Extends ds es p = (p.decisions ≡ ds ++ es) × IsHeaviest p.route p.decisions

loop-Extends :
    (sequences : Sequences) (single : Bool) (facts : Facts) (ops : List Op) (plan : Plan)
    → IsHeaviest plan.route plan.decisions
    → Extends plan.decisions
        (decisions_of sequences single facts ops)
        (classify_loop sequences single facts ops plan)
unfolding classify_loop
loop-Extends sequences single facts [] plan h = (sym (append-nil plan.decisions), h)
loop-Extends sequences single facts (op ∷ ops) plan h =
    let d = stamp (classify_op sequences single facts op) in
    let (e, g) =
      loop-Extends sequences single facts ops
        (record plan { route = worse plan.route d.route; decisions = plan.decisions ++ d ∷ [] })
        (step-IsHeaviest plan.route plan.decisions d h) in
    (e ∙ append_assoc plan.decisions (d ∷ []) (decisions_of sequences single facts ops), g)

-- A statement is decided operation by operation, in order, and its route is the heaviest of theirs: no operation's
-- route is heavier, and a route but native is some operation's. Native is lighter than copy and swap, and that
-- than refuse, so a statement runs natively only if every operation does, and is refused as soon as one is.
pub classify_statement-IsHeaviest :
    (sequences : Sequences) (facts : Facts) (sql : String) (ops : List Op)
    → ((classify_statement sequences facts sql ops).decisions
        ≡ decisions_of sequences (is_single ops) facts ops)
      × IsHeaviest
          (classify_statement sequences facts sql ops).route
          (classify_statement sequences facts sql ops).decisions
unfolding classify_statement
classify_statement-IsHeaviest sequences facts sql ops =
    loop-Extends sequences (is_single ops) facts ops
      (record { statement = sql; route = route_native; decisions = [] }) (tt, inl refl)
