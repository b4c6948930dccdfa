-- ===== src/Planner/Classify.antt =====
-- pkg/planner/planner.go and pkg/planner/destructive.go: the route of each operation, and of a
-- statement.
pub mod Laws
pub mod Worst
pub mod Kinds
use pg_sprite.Planner.Coercion.{binary_coercible}
use pg_sprite.Prelude.{
  [], ◌∷◌, none, some, true, false, Bool, List, Option, String, if◌then◌else◌, ℕ, ltb, not, str_eq,
  ◌&&◌, ◌++◌, ◌||◌,
}
use pg_sprite.Planner.Types.{
  route_native, route_copy_and_swap, route_refuse, metadata_only, online_idiom, fast_default,
  binary_coercible_type, safer_idiom, app_breaking_rename, volatile_default, generated_column,
  type_rewrite, relocation, partition_parent_lock, replica_identity, dependent_view,
  dependent_policy, cascading_drop, unsupported_operation, rewrite_policies, recreate_around_change,
  expand_contract, unrecognized_op, create_table, add_column, drop_column, alter_column_type,
  set_default, drop_default, set_not_null, drop_not_null, set_column_options, rename_column,
  rename_table, rename_index, set_schema, set_tablespace, set_rel_options, add_constraint,
  validate_constraint, drop_constraint, attach_partition, detach_partition, create_index,
  drop_index, reindex, no_default, constant_default, expression_default, unrecognized_constraint,
  primary_key, unique, check, foreign_key, not_null, in_place, default_rewrites, type_rewrites,
  unproven, Decision, Facts, Op, OpKind, Route, ConstraintKind, Plan, PolicyFix, Reason, TypeShape,
  AddColumnProof,
}

abbrev pub rank : Route → ℕ
rank route_native = 0
rank route_copy_and_swap = 1
rank route_refuse = 2

unfoldable pub worse : Route → Route → Route
worse a b = if ltb (rank a) (rank b) then b else a

unfoldable pub destructive_op : OpKind → Bool
destructive_op drop_column = true
destructive_op drop_constraint = true
destructive_op drop_index = true
destructive_op drop_not_null = true
destructive_op k = false

-- The sequences of SQL that the planner renders for a statement.
pub record Sequences : Type 0 where
  pub set_not_null_steps : Op → List String
  pub using_index_steps : Op → List String
  -- from the statement alone, and restated from the facts
  pub not_valid_steps : Op → List String
  pub not_valid_restated : Facts → Op → List String
  -- none where the statement cannot be rewritten
  pub concurrently : Op → Option String

unfoldable pub dependents_reached :
    Op → (String → List String) → (String → List String) → (String → List String) → List String
dependents_reached op tree drop own = elim op.kind [
  | alter_column_type ↦ if op.only then own op.column else tree op.column
  | drop_column ↦ if op.only then own op.column else drop op.column
  | _ ↦ []
]

unfoldable pub has_unrecognized_constraint : List ConstraintKind → Bool
has_unrecognized_constraint [] = false
has_unrecognized_constraint (unrecognized_constraint ∷ ks) = true
has_unrecognized_constraint (k ∷ ks) = has_unrecognized_constraint ks

unfoldable pub target_type_shape : Op → TypeShape
target_type_shape op =
    if not (str_eq op.new_type_schema "") || not (str_eq op.new_type_collation "")
    then record { name = ""; mods = []; array = false }
    else record { name = op.new_type; mods = op.new_type_mods; array = op.new_type_array }

-- A decision before anything but the route and the reason is known.
abbrev pub decide : OpKind → Bool → Route → Reason → Decision
decide kind destructive route reason = record {
  kind = kind;
  destructive = destructive;
  route = route;
  reason = reason;
  unverified = false;
  safer_sql = [];
  autocommit = false;
  views = [];
  policies = [];
  policy_fix = none;
}

abbrev pub routed : OpKind → Route → Reason → Decision
routed kind route reason = decide kind (destructive_op kind) route reason

unfoldable pub classify_type_change : Facts → Op → Route × Reason × Bool
classify_type_change facts op =
    if op.has_using
    then (route_copy_and_swap, type_rewrite, false)
    else (if facts.is_collated op.column
        then (route_copy_and_swap, type_rewrite, false)
        else elim (facts.column_types op.column) [
          | none ↦ (route_copy_and_swap, type_rewrite, true)
          | some old ↦
              if binary_coercible old (target_type_shape op)
              then (route_native, binary_coercible_type, false)
              else (route_copy_and_swap, type_rewrite, false)
        ])

-- What an added column comes to where nothing was proved of it, or that it adds in place.
abbrev pub add_in_place : Op → Decision
add_in_place op = elim op.inline_constraints [
  | _ ∷ _ ↦ routed op.kind route_native safer_idiom
  | [] ↦ elim op.default [
    | no_default ↦ routed op.kind route_native metadata_only
    | _ ↦ routed op.kind route_native fast_default
  ]
]

abbrev pub add_proved : Op → Option AddColumnProof → Decision
add_proved op (some default_rewrites) = routed op.kind route_copy_and_swap volatile_default
add_proved op (some type_rewrites) = routed op.kind route_copy_and_swap type_rewrite
add_proved op (some unproven) = elim op.default [
  | expression_default ↦ record (routed op.kind route_copy_and_swap volatile_default) {
    unverified = true;
  }
  | _ ↦ record (routed op.kind route_copy_and_swap type_rewrite) { unverified = true }
]
add_proved op (some in_place) = add_in_place op
add_proved op none = elim op.default [
  | expression_default ↦ record (routed op.kind route_copy_and_swap volatile_default) {
    unverified = true;
  }
  | _ ↦ add_in_place op
]

unfoldable pub classify_add_column : Facts → Op → Decision
unfolding has_unrecognized_constraint
classify_add_column facts op =
    if has_unrecognized_constraint op.inline_constraints
    then routed op.kind route_refuse unsupported_operation
    else (if op.generated_stored
        then routed op.kind route_copy_and_swap generated_column
        else add_proved op (facts.add_column_proofs op.column))

abbrev pub is_given : List String → Bool
is_given [] = false
is_given (c ∷ cs) = true

abbrev pub with_type_change : OpKind → Route × Reason × Bool → Decision
with_type_change kind (route, reason, assumed) = record (routed kind route reason) {
  unverified = assumed;
}

module _ (sequences : Sequences) (single : Bool) where
  unfoldable pub concurrently_decision : Op → Decision
  concurrently_decision op =
      if op.concurrent
      then routed op.kind route_native online_idiom
      else (if single
          then elim (sequences.concurrently op) [
            | none ↦ routed op.kind route_native safer_idiom
            | some sql ↦ record (routed op.kind route_native safer_idiom) { safer_sql = sql ∷ [] }
          ]
          else routed op.kind route_native safer_idiom)

  -- An added key.
  abbrev pub classify_add_key : Op → Decision
  classify_add_key op =
      if single && is_given op.columns && not op.index_options_unrenderable
      then record (decide op.kind false route_native safer_idiom) {
        safer_sql = sequences.using_index_steps op;
      }
      else decide op.kind false route_native safer_idiom

  -- An added CHECK or FOREIGN KEY, restated from the facts where a sequence was constructed.
  abbrev pub classify_add_validated : Facts → Op → Decision
  classify_add_validated facts op =
      if single && is_given (sequences.not_valid_steps op)
      then record (decide op.kind false route_native safer_idiom) {
        safer_sql = sequences.not_valid_restated facts op;
      }
      else decide op.kind false route_native safer_idiom

  abbrev pub classify_constraint : Facts → Op → ConstraintKind → Decision
  classify_constraint facts op primary_key = classify_add_key op
  classify_constraint facts op unique = classify_add_key op
  classify_constraint facts op check = classify_add_validated facts op
  classify_constraint facts op foreign_key = classify_add_validated facts op
  classify_constraint facts op not_null = decide op.kind false route_native safer_idiom
  classify_constraint facts op unrecognized_constraint =
      decide op.kind false route_refuse unsupported_operation

  unfoldable pub classify_add_constraint : Facts → Op → Decision
  classify_add_constraint facts op =
      if op.using_index || op.not_valid
      then decide op.kind false route_native online_idiom
      else classify_constraint facts op op.constraint

  -- The switch over the kinds.
  unfoldable pub classify_kind : Facts → Op → OpKind → Decision
  unfolding classify_add_column classify_type_change
  classify_kind facts op create_table =
      if op.partition_of
      then routed op.kind route_native partition_parent_lock
      else routed op.kind route_native metadata_only
  classify_kind facts op add_column = classify_add_column facts op
  classify_kind facts op drop_column = routed op.kind route_native metadata_only
  classify_kind facts op set_default = routed op.kind route_native metadata_only
  classify_kind facts op drop_default = routed op.kind route_native metadata_only
  classify_kind facts op drop_not_null = routed op.kind route_native metadata_only
  classify_kind facts op set_column_options = routed op.kind route_native metadata_only
  classify_kind facts op set_rel_options = routed op.kind route_native metadata_only
  classify_kind facts op set_schema = routed op.kind route_native metadata_only
  classify_kind facts op drop_constraint = routed op.kind route_native metadata_only
  classify_kind facts op rename_column = routed op.kind route_native app_breaking_rename
  classify_kind facts op rename_table = routed op.kind route_native app_breaking_rename
  classify_kind facts op rename_index =
      if str_eq facts.renamed_index_constraint ""
      then routed op.kind route_native metadata_only
      else routed op.kind route_native app_breaking_rename
  classify_kind facts op alter_column_type =
      with_type_change op.kind (classify_type_change facts op)
  classify_kind facts op set_not_null =
      if single
      then record (routed op.kind route_native safer_idiom) {
        safer_sql = sequences.set_not_null_steps op;
      }
      else routed op.kind route_native safer_idiom
  classify_kind facts op set_tablespace = routed op.kind route_copy_and_swap relocation
  classify_kind facts op add_constraint = classify_add_constraint facts op
  classify_kind facts op validate_constraint = routed op.kind route_native online_idiom
  classify_kind facts op attach_partition = routed op.kind route_native safer_idiom
  classify_kind facts op detach_partition = concurrently_decision op
  classify_kind facts op create_index = concurrently_decision op
  classify_kind facts op drop_index = concurrently_decision op
  classify_kind facts op reindex = concurrently_decision op
  classify_kind facts op unrecognized_op = routed op.kind route_refuse unsupported_operation

  -- The refusals before the switch, with the manual path for policies left open.
  unfoldable pub classify_with : (Facts → Op → PolicyFix) → Facts → Op → Decision
  classify_with fix facts op =
      if facts.identity_dropped_by op
      then routed op.kind route_refuse replica_identity
      else (if op.cascade
          then routed op.kind route_refuse cascading_drop
          else elim (dependents_reached op facts.dependent_views facts.drop_dependent_views
              facts.own_dependent_views) [
                | v ∷ vs ↦ record (routed op.kind route_refuse dependent_view) { views = v ∷ vs }
                | [] ↦
                    elim (dependents_reached op facts.dependent_policies
                      facts.drop_dependent_policies facts.own_dependent_policies) [
                        | p ∷ ps ↦ record (routed op.kind route_refuse dependent_policy) {
                          policies = p ∷ ps;
                          policy_fix = some (fix facts op);
                        }
                        | [] ↦ classify_kind facts op op.kind
                      ]
              ])

  unfoldable pub dependent_policy_fix : Facts → Op → PolicyFix
  dependent_policy_fix facts op = elim op.kind [
    | drop_column ↦ rewrite_policies
    | _ ↦
        elim (classify_with (λ _ _. rewrite_policies)
          (record facts {
            dependent_policies = λ _. [];
            drop_dependent_policies = λ _. [];
            own_dependent_policies = λ _. [];
          })
          op).route [ route_native ↦ recreate_around_change | _ ↦ expand_contract ]
  ]

  unfoldable pub classify_op : Facts → Op → Decision
  classify_op facts op = classify_with dependent_policy_fix facts op

-- The execution contract of a constructed sequence.
unfoldable pub stamp : Decision → Decision
stamp d = elim d.safer_sql [ [] ↦ d | _ ∷ _ ↦ record d { autocommit = true } ]

unfoldable pub classify_loop : Sequences → Bool → Facts → List Op → Plan → Plan
classify_loop sequences single facts [] plan = plan
classify_loop sequences single facts (op ∷ ops) plan =
    let d = stamp (classify_op sequences single facts op) in
    classify_loop sequences single facts ops
      (record plan { route = worse plan.route d.route; decisions = plan.decisions ++ d ∷ [] })

abbrev pub is_single : List Op → Bool
is_single (op ∷ []) = true
is_single ops = false

unfoldable pub classify_statement : Sequences → Facts → String → List Op → Plan
classify_statement sequences facts sql ops =
    classify_loop sequences (is_single ops) facts ops
      (record { statement = sql; route = route_native; decisions = [] })
