-- ===== src/Router/Laws.antt =====
-- What a routed statement may be executed as.
use pg_sprite.Prelude.{
  [], ◌∷◌, none, some, true, false, inl, inr, refl, List, Option, ◌≡◌, String, arith, ◌&&◌,
  Bool-cases, not, ◌⊎◌, All, ◌≢◌, subst,
}
use pg_sprite.Planner.Types.{
  route_native, route_copy_and_swap, route_refuse, Plan, Decision, Route, alter_column_type,
  safer_idiom, type_rewrite, app_breaking_rename,
}
use pg_sprite.Router.{
  execute, native_backend, copy_and_swap_backend, all_executable, available, copy_and_swap_carries,
  route_statement, Statement, assign_backend, executable_as_submitted, is_copied, safer_steps,
  native_exec_sql, run_natively, carries_operation,
}

-- The submitted form neither blocks nor breaks the application.
abbrev pub MayRun : Decision → Type 0
MayRun d = (d.reason ≢ safer_idiom) × (d.reason ≢ app_breaking_rename)

-- An operation that needs a copy is the retyping of a column, and needs it for the rewrite.
abbrev pub IsCarried : Decision → Type 0
IsCarried d =
    d.route ≡ route_copy_and_swap → (d.kind ≡ alter_column_type) × (d.reason ≡ type_rewrite)

may_run : (d : Decision) → executable_as_submitted d ≡ true → MayRun d
unfolding executable_as_submitted
may_run d h = (λ e. ground (arith, h, e), λ e. ground (arith, h, e))

is_carried : (d : Decision) → (is_copied d.route && not (carries_operation d)) ≡ false → IsCarried d
unfolding carries_operation
is_carried d h = λ e. (ground (arith, h, e), ground (arith, h, e))

runs_of : (ds : List Decision) → all_executable ds ≡ true → All MayRun ds
unfolding all_executable
runs_of [] e = tt
runs_of (d ∷ ds) e = (may_run d (ground arith), runs_of ds (ground arith))

copies_of : (ds : List Decision) → copy_and_swap_carries ds ≡ true → All IsCarried ds
unfolding copy_and_swap_carries
copies_of [] e = tt
copies_of (d ∷ ds) e = (is_carried d (ground arith), copies_of ds (ground arith))

-- The statements are the sequence constructed for the only decision.
abbrev pub IsSequence : List Decision → List String → Type 0
IsSequence ds sql = (d : Decision) × (ds ≡ d ∷ []) × (d.safer_sql ≡ sql) × (sql ≢ [])

-- What a statement that would execute runs: natively, the sequence constructed for its only operation, or the
-- submitted form where no operation's form blocks or breaks; or a copy and swap, where every operation that
-- needs one is a retyped column.
abbrev pub Runs : Plan → Statement → Type 0
Runs p st =
    ((p.route ≡ route_native)
      × (st.backend ≡ some native_backend)
      × (IsSequence p.decisions st.exec_sql
          ⊎ ((st.exec_sql ≡ p.statement ∷ []) × All MayRun p.decisions)))
    ⊎ ((p.route ≡ route_copy_and_swap)
        × (st.backend ≡ some copy_and_swap_backend)
        × (st.exec_sql ≡ [])
        × All IsCarried p.decisions)

steps_of :
    (ds : List Decision) (s : String) (ss : List String)
    → safer_steps ds ≡ s ∷ ss
    → IsSequence ds (s ∷ ss)
steps_of [] s ss e = absurd (ground (arith, e))
steps_of (d ∷ []) s ss e = (d, refl, e, λ q. ground (arith, q))
steps_of (d ∷ c ∷ ds) s ss e = absurd (ground (arith, e))

native_steps :
    (p : Plan) (steps sql : List String)
    → safer_steps p.decisions ≡ steps
    → native_exec_sql p ≡ some sql
    → IsSequence p.decisions sql ⊎ ((sql ≡ p.statement ∷ []) × All MayRun p.decisions)
unfolding native_exec_sql
native_steps p (s ∷ ss) sql at e =
    let same : s ∷ ss ≡ sql = ground (arith, at, e) in
    inl (subst (IsSequence p.decisions) same (steps_of p.decisions s ss at))
native_steps p [] sql at e = elim (Bool-cases (all_executable p.decisions)) [
  | inl every ↦ inr (ground (arith, at, every), runs_of p.decisions every)
  | inr some_not ↦ absurd (ground (arith, at))
]

native-Runs :
    (p : Plan) (o : Option (List String))
    → p.route ≡ route_native
    → native_exec_sql p ≡ o
    → (run_natively p o).disposition ≡ execute
    → Runs p (run_natively p o)
native-Runs p none r e h = absurd (ground arith)
native-Runs p (some sql) r e h = inl (r, refl, native_steps p (safer_steps p.decisions) sql refl e)

routed-Runs :
    (p : Plan) (r : Route)
    → p.route ≡ r
    → (assign_backend p r).disposition ≡ execute
    → Runs p (assign_backend p r)
unfolding available
routed-Runs p route_native e h = native-Runs p (native_exec_sql p) e refl h
routed-Runs p route_copy_and_swap e h = elim (Bool-cases (copy_and_swap_carries p.decisions)) [
  | inl carries ↦ rw carries (inr (e, refl, refl, copies_of p.decisions carries))
  | inr stuck ↦ absurd (ground arith)
]
routed-Runs p route_refuse e h = absurd (ground arith)

-- A statement that the router would execute takes a native plan to the native backend, with the sequence that
-- was constructed for its only operation, or with the submitted form where no operation's form blocks or breaks
-- the application; or it takes a plan for a copy and swap to that backend, where every operation that needs the
-- copy is the retyping of a column that rewrites.
pub route_statement-Runs :
    (p : Plan) → (route_statement p).disposition ≡ execute → Runs p (route_statement p)
unfolding route_statement
route_statement-Runs p h = routed-Runs p p.route refl h
