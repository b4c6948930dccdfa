-- ===== src/Router.antt =====
-- The router (pkg/router/router.go): the backend of each classified statement, and what executing it
-- now would come to.
pub mod Laws
pub mod Worst
pub mod Cleared
mod Examples
use pg_sprite.Prelude.{
  [], ◌∷◌, none, some, true, false, List, if◌then◌else◌, ℕ, Bool, Option, String, ltb, not, ◌++◌,
  ◌&&◌,
}
use pg_sprite.Planner.Types.{
  route_native, route_copy_and_swap, route_refuse, safer_idiom, app_breaking_rename, type_rewrite,
  alter_column_type, Decision, OpKind, Plan, Reason, Route,
}

pub data Backend : Type 0 where
  native_backend copy_and_swap_backend : Backend

pub data Disposition : Type 0 where
  execute rewrite_required unavailable refused : Disposition

pub record Statement : Type 0 where
  pub plan : Plan
  pub backend : Option Backend
  pub disposition : Disposition
  pub exec_sql : List String

pub record RoutedPlan : Type 0 where
  pub statements : List Statement
  pub disposition : Disposition

unfoldable pub executable_as_submitted : Decision → Bool
executable_as_submitted d = elim d.reason [
  | safer_idiom ↦ false
  | app_breaking_rename ↦ false
  | _ ↦ true
]

abbrev pub is_retype : OpKind → Bool
is_retype alter_column_type = true
is_retype k = false

abbrev pub is_rewrite : Reason → Bool
is_rewrite type_rewrite = true
is_rewrite r = false

abbrev pub is_copied : Route → Bool
is_copied route_native = false
is_copied route_copy_and_swap = true
is_copied route_refuse = false

unfoldable pub carries_operation : Decision → Bool
carries_operation d = is_retype d.kind && is_rewrite d.reason

unfoldable pub copy_and_swap_carries : List Decision → Bool
unfolding carries_operation
copy_and_swap_carries [] = true
copy_and_swap_carries (d ∷ ds) =
    if is_copied d.route && not (carries_operation d) then false else copy_and_swap_carries ds

unfoldable pub available : Backend → Plan → Bool
available native_backend p = true
available copy_and_swap_backend p = copy_and_swap_carries p.decisions

unfoldable pub all_executable : List Decision → Bool
unfolding executable_as_submitted
all_executable [] = true
all_executable (d ∷ ds) = if not (executable_as_submitted d) then false else all_executable ds

-- The steps of the only decision, where the planner constructed some.
abbrev pub safer_steps : List Decision → List String
safer_steps (d ∷ []) = d.safer_sql
safer_steps ds = []

unfoldable pub native_exec_sql : Plan → Option (List String)
unfolding all_executable
native_exec_sql p = elim (safer_steps p.decisions) [
  | s ∷ ss ↦ some (s ∷ ss)
  | [] ↦ if all_executable p.decisions then some (p.statement ∷ []) else none
]

abbrev pub disposed : Plan → Option Backend → Disposition → List String → Statement
disposed p backend disposition sql = record {
  plan = p;
  backend = backend;
  disposition = disposition;
  exec_sql = sql;
}

abbrev pub run_natively : Plan → Option (List String) → Statement
run_natively p none = disposed p (some native_backend) rewrite_required []
run_natively p (some sql) = disposed p (some native_backend) execute sql

abbrev pub assign_backend : Plan → Route → Statement
assign_backend p route_native =
    if not (available native_backend p)
    then disposed p (some native_backend) unavailable []
    else run_natively p (native_exec_sql p)
assign_backend p route_copy_and_swap =
    if not (available copy_and_swap_backend p)
    then disposed p (some copy_and_swap_backend) unavailable []
    else disposed p (some copy_and_swap_backend) execute []
assign_backend p route_refuse = disposed p none refused []

unfoldable pub route_statement : Plan → Statement
unfolding available
route_statement p = assign_backend p p.route

abbrev pub severity : Disposition → ℕ
severity execute = 0
severity rewrite_required = 1
severity unavailable = 2
severity refused = 3

unfoldable pub worse_disposition : Disposition → Disposition → Disposition
worse_disposition a b = if ltb (severity a) (severity b) then b else a

unfoldable pub route_loop : List Plan → RoutedPlan → RoutedPlan
route_loop [] r = r
route_loop (p ∷ ps) r =
    let st = route_statement p in
    route_loop ps (record {
      statements = r.statements ++ st ∷ [];
      disposition = worse_disposition r.disposition st.disposition;
    })

unfoldable pub route : List Plan → RoutedPlan
route ps = route_loop ps (record { statements = []; disposition = execute })
