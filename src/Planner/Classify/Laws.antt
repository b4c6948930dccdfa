-- ===== src/Planner/Classify/Laws.antt =====
-- What every classification satisfies.
use pg_sprite.Planner.Classify.{
  classify_add_column, classify_add_constraint, classify_kind, classify_type_change,
  concurrently_decision, Facts, Sequences, is_given, with_type_change, add_proved,
  has_unrecognized_constraint, classify_op, classify_with, dependent_policy_fix,
}
use pg_sprite.Prelude.{true, false, inl, inr, Bool, Option, Bool-cases, arith, ◌≡◌}
use pg_sprite.Planner.Types.{
  add_column, alter_column_type, add_constraint, detach_partition, create_index, drop_index,
  reindex, route_native, route_copy_and_swap, safer_idiom, Decision, Op, Reason, Facts,
  AddColumnProof, OpKind, PolicyFix,
}

abbrev pub is_safer : Reason → Bool
is_safer safer_idiom = true
is_safer r = false

-- A constructed sequence stands only in a native decision for a form that blocks; a route that nothing
-- proved is the heavier one.
pub record IsSound (d : Decision) : Type 0 where
  pub sequenced : is_given d.safer_sql ≡ true → (d.route ≡ route_native) × (d.reason ≡ safer_idiom)
  pub assumed : d.unverified ≡ true → d.route ≡ route_copy_and_swap

add_proved-IsSound : (op : Op) (p : Option AddColumnProof) → IsSound (add_proved op p)
add_proved-IsSound op p = record { sequenced = ground arith; assumed = ground arith }

add_column-IsSound : (facts : Facts) (op : Op) → IsSound (classify_add_column facts op)
unfolding classify_add_column
add_column-IsSound facts op =
    elim (Bool-cases (has_unrecognized_constraint op.inline_constraints)) [
      | inl odd ↦
          rw (odd, classify_add_column)
            (record { sequenced = ground arith; assumed = ground arith })
      | inr known ↦ elim (Bool-cases op.generated_stored) [
        | inl stored ↦
            rw (known, stored, classify_add_column)
              (record { sequenced = ground arith; assumed = ground arith })
        | inr plain ↦
            rw (known, plain, classify_add_column)
              (add_proved-IsSound op (facts.add_column_proofs op.column))
      ]
    ]

type_change-IsSound :
    (facts : Facts) (op : Op) → IsSound (with_type_change op.kind (classify_type_change facts op))
unfolding classify_type_change
type_change-IsSound facts op = record { sequenced = ground arith; assumed = ground arith }

concurrently-IsSound :
    (sequences : Sequences) (single : Bool) (op : Op)
    → IsSound (concurrently_decision sequences single op)
unfolding concurrently_decision
concurrently-IsSound sequences single op = record {
  sequenced = ground arith;
  assumed = ground arith;
}

constraint-IsSound :
    (sequences : Sequences) (single : Bool) (facts : Facts) (op : Op)
    → IsSound (classify_add_constraint sequences single facts op)
unfolding classify_add_constraint
constraint-IsSound sequences single facts op = record {
  sequenced = ground arith;
  assumed = ground arith;
}

kind-IsSound :
    (sequences : Sequences) (single : Bool) (facts : Facts) (op : Op) (k : OpKind)
    → IsSound (classify_kind sequences single facts op k)
unfolding classify_kind
kind-IsSound sequences single facts op add_column = add_column-IsSound facts op
kind-IsSound sequences single facts op alter_column_type = type_change-IsSound facts op
kind-IsSound sequences single facts op add_constraint = constraint-IsSound sequences single facts op
kind-IsSound sequences single facts op detach_partition = concurrently-IsSound sequences single op
kind-IsSound sequences single facts op create_index = concurrently-IsSound sequences single op
kind-IsSound sequences single facts op drop_index = concurrently-IsSound sequences single op
kind-IsSound sequences single facts op reindex = concurrently-IsSound sequences single op
kind-IsSound sequences single facts op k = record {
  sequenced = ground arith;
  assumed = ground arith;
}

with-IsSound :
    (sequences : Sequences) (single : Bool) (fix : Facts → Op → PolicyFix) (facts : Facts) (op : Op)
    → IsSound (classify_with sequences single fix facts op)
unfolding classify_with
with-IsSound sequences single fix facts op =
    let below = kind-IsSound sequences single facts op op.kind in
    record { sequenced = ground (arith, below.sequenced); assumed = ground (arith, below.assumed) }

-- However an operation is classified: a constructed sequence stands only in a native decision for a
-- form that blocks, and a decision that nothing proved takes the heavier route.
pub classify_op-IsSound :
    (sequences : Sequences) (single : Bool) (facts : Facts) (op : Op)
    → IsSound (classify_op sequences single facts op)
unfolding classify_op
classify_op-IsSound sequences single facts op =
    with-IsSound sequences single (dependent_policy_fix sequences single) facts op
