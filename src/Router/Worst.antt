-- ===== src/Router/Worst.antt =====
-- What a routed plan comes to.
use pg_sprite.Prelude.{
  Bool, List, All, true, ◌≡◌, arith, false, map, ◌⊎◌, Any, [], inl, ◌++◌, refl, sym, ◌∷◌,
  All-append, ◌∙◌, All-map, inr, subst, Any-append,
}
use mathlib.Core.List.{append_assoc, append-nil, List}
use pg_sprite.Planner.Types.{Plan}
use pg_sprite.Router.{
  Disposition, Statement, RoutedPlan, execute, rewrite_required, unavailable, refused, route,
  route_loop, route_statement, worse_disposition,
}

-- The order of the dispositions, from executing to refused.
abbrev pub no_worse : Disposition → Disposition → Bool
no_worse execute b = true
no_worse rewrite_required execute = false
no_worse rewrite_required rewrite_required = true
no_worse rewrite_required unavailable = true
no_worse rewrite_required refused = true
no_worse unavailable execute = false
no_worse unavailable rewrite_required = false
no_worse unavailable unavailable = true
no_worse unavailable refused = true
no_worse refused execute = false
no_worse refused rewrite_required = false
no_worse refused unavailable = false
no_worse refused refused = true

-- No statement is disposed of worse than this, which is execution or some statement's.
abbrev pub IsWorst : Disposition → List Statement → Type 0
IsWorst a sts =
    All (λ st. no_worse st.disposition a ≡ true) sts
    × ((a ≡ execute) ⊎ Any (λ st. st.disposition ≡ a) sts)

worse-left : (a b : Disposition) → no_worse a (worse_disposition a b) ≡ true
unfolding worse_disposition
worse-left a b = ground arith

worse-right : (a b : Disposition) → no_worse b (worse_disposition a b) ≡ true
unfolding worse_disposition
worse-right a b = ground arith

worse-one : (a b : Disposition) → (worse_disposition a b ≡ a) ⊎ (worse_disposition a b ≡ b)
unfolding worse_disposition
worse-one a b = ground arith

no_worse_trans :
    (a b c : Disposition) → no_worse a b ≡ true → no_worse b c ≡ true → no_worse a c ≡ true
no_worse_trans a b c h g = ground (arith, h, g)

step-IsWorst :
    (a : Disposition) (sts : List Statement) (st : Statement)
    → IsWorst a sts
    → IsWorst (worse_disposition a st.disposition) (sts ++ st ∷ [])
step-IsWorst a sts st (above, some_one) = (
  All-append (λ x. no_worse x.disposition (worse_disposition a st.disposition) ≡ true) sts (st ∷ [])
      (All-map _ _
        (λ x h.
          no_worse_trans x.disposition a (worse_disposition a st.disposition) h
            (worse-left a st.disposition))
        sts above)
      (worse-right a st.disposition, tt),
  elim (worse-one a st.disposition) [
    | inl left ↦ elim some_one [
      | inl runs ↦ inl (left ∙ runs)
      | inr one ↦ inr (
          subst (λ q. Any (λ x. x.disposition ≡ q) (sts ++ st ∷ [])) (sym left)
            (Any-append (λ x. x.disposition ≡ a) sts (st ∷ []) (inl one)))
    ]
    | inr right ↦ inr (
        Any-append (λ x. x.disposition ≡ worse_disposition a st.disposition) sts (st ∷ [])
          (inr (inl (sym right))))
  ],
)

loop-IsWorst :
    (ps : List Plan) (r : RoutedPlan)
    → IsWorst r.disposition r.statements
    → ((route_loop ps r).statements ≡ r.statements ++ map route_statement ps)
      × IsWorst (route_loop ps r).disposition (route_loop ps r).statements
unfolding route_loop
loop-IsWorst [] r h = (sym (append-nil r.statements), h)
loop-IsWorst (p ∷ ps) r h =
    let st = route_statement p in
    let (e, g) =
      loop-IsWorst ps
        (record {
          statements = r.statements ++ st ∷ [];
          disposition = worse_disposition r.disposition st.disposition;
        })
        (step-IsWorst r.disposition r.statements st h) in
    (e ∙ append_assoc r.statements (st ∷ []) (map route_statement ps), g)

-- A routed plan has every plan's statement, in order, and its disposition is the worst of theirs: no statement is
-- disposed of worse, and a disposition but execution is some statement's. Execution is better than a required
-- rewrite, that than an unavailable backend, and that than a refusal, so a plan executes only if all of its
-- statements do.
pub route-IsWorst :
    (ps : List Plan)
    → ((route ps).statements ≡ map route_statement ps)
      × IsWorst (route ps).disposition (route ps).statements
unfolding route
route-IsWorst ps =
    loop-IsWorst ps (record { statements = []; disposition = execute }) (tt, inl refl)
