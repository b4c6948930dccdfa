-- ===== src/Router/Cleared.antt =====
-- The planner and the router together.
use mathlib.Core.List.{[]}
use pg_sprite.Prelude.{
  Bool, String, List, ◌≡◌, ◌≢◌, All, true, arith, inl, ◌∷◌, All-map, ◌∙◌, inr, sym, subst,
}
use pg_sprite.Router.Laws.{IsCarried, route_statement-Runs}
use pg_sprite.Planner.Classify.Worst.{no_heavier, decisions_of, classify_statement-IsHeaviest}
use pg_sprite.Planner.Classify.Kinds.{decided-kind, decided-route}
use pg_sprite.Planner.Classify.{Sequences, classify_op, classify_statement, is_single}
use pg_sprite.Planner.Types.{
  route_native, route_copy_and_swap, route_refuse, alter_column_type, type_rewrite, Decision, Facts,
  Op, Route,
}
use pg_sprite.Router.{execute, route_statement, Bool}

-- The operation is not refused, and if it needs a copy it retypes a column in a way that rewrites.
abbrev pub IsCleared : Sequences → Bool → Facts → Op → Type 0
IsCleared sequences single facts op =
    ((classify_op sequences single facts op).route ≢ route_refuse)
    × ((classify_op sequences single facts op).route ≡ route_copy_and_swap
        → (op.kind ≡ alter_column_type)
          × ((classify_op sequences single facts op).reason ≡ type_rewrite))

-- The same of a decision.
abbrev Clears : Decision → Type 0
Clears d = (d.route ≢ route_refuse) × IsCarried d

light-Clears :
    (r : Route) → r ≡ route_native → (d : Decision) → no_heavier d.route r ≡ true → Clears d
light-Clears r e d h = (λ q. ground (arith, e, h, q), λ q. absurd (ground (arith, e, h, q)))

carried-Clears :
    (r : Route)
    → r ≡ route_copy_and_swap
    → (ds : List Decision) → All (λ d. no_heavier d.route r ≡ true) ds
    → All IsCarried ds
    → All Clears ds
carried-Clears r e [] h c = tt
carried-Clears r e (d ∷ ds) (h, hs) (c, cs) =
    (((λ q. ground (arith, e, h, q)), c), carried-Clears r e ds hs cs)

op-IsCleared :
    (sequences : Sequences) (single : Bool) (facts : Facts) (ops : List Op)
    → All Clears (decisions_of sequences single facts ops)
    → All (IsCleared sequences single facts) ops
op-IsCleared sequences single facts [] h = tt
op-IsCleared sequences single facts (op ∷ ops) (h, hs) =
    let (same_route, same_reason) = decided-route sequences single facts op in
    let same_kind = decided-kind sequences single facts op in
    (
      (
        λ q. h.0 (same_route ∙ q),
        λ q. let (k, r) = h.1 (same_route ∙ q) in (sym same_kind ∙ k, sym same_reason ∙ r),
      ),
      op-IsCleared sequences single facts ops hs,
    )

-- When the router would execute a statement that the planner classified, none of its operations is refused, and
-- every operation that needs a copy retypes a column in a way that rewrites the table.
pub execute-IsCleared :
    (sequences : Sequences) (facts : Facts) (sql : String) (ops : List Op)
    → (route_statement (classify_statement sequences facts sql ops)).disposition ≡ execute
    → All (IsCleared sequences (is_single ops) facts) ops
execute-IsCleared sequences facts sql ops h =
    let p = classify_statement sequences facts sql ops in
    let (same, (light, one)) = classify_statement-IsHeaviest sequences facts sql ops in
    let cleared : All Clears p.decisions = elim (route_statement-Runs p h) [
      | inl natively ↦ All-map _ _ (light-Clears p.route natively.0) p.decisions light
      | inr copied ↦ carried-Clears p.route copied.0 p.decisions light copied.3
    ] in
    op-IsCleared sequences (is_single ops) facts ops (subst (All Clears) same cleared)
