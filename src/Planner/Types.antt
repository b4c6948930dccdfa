-- ===== src/Planner/Types.antt =====
-- pkg/statement/ops.go and pkg/planner/planner.go: parsed operations, what is known of the live table,
-- and decisions. The text of an operation is left out, and a target type's name is trimmed. The parts of
-- the facts that are maps are functions, which give the zero value outside the map.
use pg_sprite.Prelude.Int64.{Int64}
use pg_sprite.Prelude.{Bool, String, List, Option}

pub data OpKind : Type 0 where
  unrecognized_op create_table add_column drop_column alter_column_type : OpKind
  set_default drop_default set_not_null drop_not_null set_column_options : OpKind
  rename_column rename_table rename_index set_schema set_tablespace set_rel_options : OpKind
  add_constraint validate_constraint drop_constraint : OpKind
  attach_partition detach_partition create_index drop_index reindex : OpKind

pub data DefaultKind : Type 0 where
  no_default constant_default expression_default : DefaultKind

pub data ConstraintKind : Type 0 where
  unrecognized_constraint primary_key unique check foreign_key not_null : ConstraintKind

pub data AddColumnProof : Type 0 where
  in_place default_rewrites type_rewrites unproven : AddColumnProof

pub record Op : Type 0 where
  pub kind : OpKind
  pub column : String
  pub only : Bool
  pub cascade : Bool
  pub columns : List String
  pub index_options_unrenderable : Bool
  pub constraint : ConstraintKind
  pub not_valid : Bool
  pub using_index : Bool
  pub concurrent : Bool
  pub generated_stored : Bool
  pub default : DefaultKind
  pub inline_constraints : List ConstraintKind
  pub partition_of : Bool
  pub has_using : Bool
  pub new_type : String
  pub new_type_schema : String
  pub new_type_collation : String
  pub new_type_mods : List Int64
  pub new_type_array : Bool

pub record TypeShape : Type 0 where
  pub name : String
  pub mods : List Int64
  pub array : Bool

-- The live types are taken as parsed from the server's rendering, and the replica identity by its
-- answer for an operation.
pub record Facts : Type 0 where
  pub identity_dropped_by : Op → Bool
  pub dependent_views : String → List String
  pub drop_dependent_views : String → List String
  pub own_dependent_views : String → List String
  pub dependent_policies : String → List String
  pub drop_dependent_policies : String → List String
  pub own_dependent_policies : String → List String
  pub column_types : String → Option TypeShape
  pub is_collated : String → Bool
  pub add_column_proofs : String → Option AddColumnProof
  pub renamed_index_constraint : String

pub data Route : Type 0 where
  route_native route_copy_and_swap route_refuse : Route

pub data Reason : Type 0 where
  metadata_only online_idiom fast_default binary_coercible_type safer_idiom : Reason
  app_breaking_rename volatile_default generated_column type_rewrite relocation : Reason
  partition_parent_lock replica_identity dependent_view dependent_policy : Reason
  cascading_drop unsupported_operation : Reason

pub data PolicyFix : Type 0 where
  rewrite_policies recreate_around_change expand_contract : PolicyFix

pub record Decision : Type 0 where
  pub kind : OpKind
  pub destructive : Bool
  pub route : Route
  pub reason : Reason
  pub unverified : Bool
  pub safer_sql : List String
  -- SaferSQLExecution, which has one value
  pub autocommit : Bool
  pub views : List String
  pub policies : List String
  pub policy_fix : Option PolicyFix

pub record Plan : Type 0 where
  pub statement : String
  pub route : Route
  pub decisions : List Decision
