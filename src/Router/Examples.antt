-- ===== src/Router/Examples.antt =====
-- Statements at concrete inputs: a column is retyped and another one dropped, with a view that reads
-- the dropped one.
use pg_sprite.Router.Cleared.{IsCleared, execute-IsCleared}
use pg_sprite.Planner.Coercion.Order.{Relabels, binary_coercible_iff}
use pg_sprite.Prelude.Int64.{int64}
use pg_sprite.Planner.Coercion.{binary_coercible}
use pg_sprite.Router.Laws.{Runs, route_statement-Runs}
use pg_sprite.Router.Worst.{IsWorst, route-IsWorst}
use pg_sprite.Planner.Classify.Worst.{IsHeaviest, decisions_of, classify_statement-IsHeaviest}
use pg_sprite.Router.{route_statement, severity, route, execute}
use pg_sprite.Planner.Classify.Laws.{IsSound, classify_op-IsSound}
use pg_sprite.Prelude.{
  [], ◌∷◌, none, some, true, false, refl, str_eq, if◌then◌else◌, ◌≡◌, ◌↔◌, All, map,
}
use pg_sprite.Planner.Types.{
  Op, Facts, alter_column_type, drop_column, no_default, unrecognized_constraint, set_not_null,
  Plan, TypeShape,
}
use pg_sprite.Planner.Classify.{
  Sequences, classify_op, dependents_reached, rank, classify_statement, is_given,
}

abbrev plain_op : Op
plain_op = record {
  kind = drop_column;
  column = "old";
  only = false;
  cascade = false;
  columns = [];
  index_options_unrenderable = false;
  constraint = unrecognized_constraint;
  not_valid = false;
  using_index = false;
  concurrent = false;
  generated_stored = false;
  default = no_default;
  inline_constraints = [];
  partition_of = false;
  has_using = false;
  new_type = "";
  new_type_schema = "";
  new_type_collation = "";
  new_type_mods = [];
  new_type_array = false;
}

abbrev retype : Op
retype = record plain_op { kind = alter_column_type; column = "name"; new_type = "text" }

abbrev require_value : Op
require_value = record plain_op { kind = set_not_null; column = "name" }

abbrev live : Facts
live = record {
  identity_dropped_by = λ op. false;
  dependent_views = λ c. [];
  drop_dependent_views = λ c. if str_eq c "old" then "public.report" ∷ [] else [];
  own_dependent_views = λ c. [];
  dependent_policies = λ c. [];
  drop_dependent_policies = λ c. [];
  own_dependent_policies = λ c. [];
  column_types = λ c. none;
  is_collated = λ c. false;
  add_column_proofs = λ c. none;
  renamed_index_constraint = "";
}

abbrev steps : Sequences
steps = record {
  set_not_null_steps = λ op. "add check" ∷ "validate" ∷ "set not null" ∷ "drop check" ∷ [];
  using_index_steps = λ op. "create index" ∷ "add constraint" ∷ [];
  not_valid_steps = λ op. "add not valid" ∷ "validate" ∷ [];
  not_valid_restated = λ facts op. "add not valid" ∷ "validate" ∷ [];
  concurrently = λ op. some "concurrently";
}

classify_op-IsSound_example : IsSound (classify_op steps true live require_value)
classify_op-IsSound_example = classify_op-IsSound steps true live require_value

classify_statement-IsHeaviest_example :
    ((classify_statement steps live "alter table" (retype ∷ plain_op ∷ [])).decisions
      ≡ decisions_of steps false live (retype ∷ plain_op ∷ []))
    × IsHeaviest
        (classify_statement steps live "alter table" (retype ∷ plain_op ∷ [])).route
        (classify_statement steps live "alter table" (retype ∷ plain_op ∷ [])).decisions
classify_statement-IsHeaviest_example =
    classify_statement-IsHeaviest steps live "alter table" (retype ∷ plain_op ∷ [])

abbrev required : Plan
required = classify_statement steps live "alter table" (require_value ∷ [])

runs_now : (route_statement required).disposition ≡ execute
unfolding route_statement classify_statement pg_sprite.Planner.Classify.classify_loop
    pg_sprite.Planner.Classify.worse pg_sprite.Planner.Classify.stamp classify_op
    pg_sprite.Planner.Classify.classify_with dependents_reached
    pg_sprite.Planner.Classify.classify_kind pg_sprite.Router.native_exec_sql
runs_now = refl

route_statement-Runs_example : Runs required (route_statement required)
route_statement-Runs_example = route_statement-Runs required runs_now

route-IsWorst_example :
    ((route (required ∷ [])).statements ≡ map route_statement (required ∷ []))
    × IsWorst (route (required ∷ [])).disposition (route (required ∷ [])).statements
route-IsWorst_example = route-IsWorst (required ∷ [])

abbrev bounded_text : TypeShape
bounded_text = record { name = "varchar"; mods = int64 50 ∷ []; array = false }

abbrev wider_text : TypeShape
wider_text = record { name = "varchar"; mods = int64 80 ∷ []; array = false }

binary_coercible_iff_example :
    (binary_coercible bounded_text wider_text ≡ true) ↔ Relabels bounded_text wider_text
binary_coercible_iff_example = binary_coercible_iff bounded_text wider_text

execute-IsCleared_example : All (IsCleared steps true live) (require_value ∷ [])
execute-IsCleared_example = execute-IsCleared steps live "alter table" (require_value ∷ []) runs_now
