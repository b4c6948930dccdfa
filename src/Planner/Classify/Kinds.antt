-- ===== src/Planner/Classify/Kinds.antt =====
-- A decision is about its operation's kind.
use pg_sprite.Prelude.{Bool, ◌≡◌, arith, ◌∙◌, refl}
use pg_sprite.Planner.Classify.{
  classify_op, classify_with, classify_kind, classify_add_column, classify_add_constraint,
  concurrently_decision, stamp, Sequences, Bool,
}
use pg_sprite.Planner.Types.{
  Op, OpKind, Facts, PolicyFix, Decision, add_column, alter_column_type, add_constraint,
  detach_partition, create_index, drop_index, reindex,
}

add_column-kind : (facts : Facts) (op : Op) → (classify_add_column facts op).kind ≡ op.kind
unfolding classify_add_column
add_column-kind facts op = ground arith

constraint-kind :
    (sequences : Sequences) (single : Bool) (facts : Facts) (op : Op)
    → (classify_add_constraint sequences single facts op).kind ≡ op.kind
unfolding classify_add_constraint
constraint-kind sequences single facts op = ground arith

concurrently-kind :
    (sequences : Sequences) (single : Bool) (op : Op)
    → (concurrently_decision sequences single op).kind ≡ op.kind
unfolding concurrently_decision
concurrently-kind sequences single op = ground arith

kind-kind :
    (sequences : Sequences) (single : Bool) (facts : Facts) (op : Op) (k : OpKind)
    → (classify_kind sequences single facts op k).kind ≡ op.kind
unfolding classify_kind
kind-kind sequences single facts op add_column = add_column-kind facts op
kind-kind sequences single facts op alter_column_type = refl
kind-kind sequences single facts op add_constraint = constraint-kind sequences single facts op
kind-kind sequences single facts op detach_partition = concurrently-kind sequences single op
kind-kind sequences single facts op create_index = concurrently-kind sequences single op
kind-kind sequences single facts op drop_index = concurrently-kind sequences single op
kind-kind sequences single facts op reindex = concurrently-kind sequences single op
kind-kind sequences single facts op k = ground arith

with-kind :
    (sequences : Sequences) (single : Bool) (fix : Facts → Op → PolicyFix) (facts : Facts) (op : Op)
    → (classify_with sequences single fix facts op).kind ≡ op.kind
unfolding classify_with
with-kind sequences single fix facts op =
    ground (arith, kind-kind sequences single facts op op.kind)

stamp-kind : (d : Decision) → (stamp d).kind ≡ d.kind
unfolding stamp
stamp-kind d = ground arith

pub decided-kind :
    (sequences : Sequences) (single : Bool) (facts : Facts) (op : Op)
    → (stamp (classify_op sequences single facts op)).kind ≡ op.kind
unfolding classify_op
decided-kind sequences single facts op =
    stamp-kind (classify_op sequences single facts op) ∙ with-kind sequences single _ facts op

stamp-route : (d : Decision) → ((stamp d).route ≡ d.route) × ((stamp d).reason ≡ d.reason)
unfolding stamp
stamp-route d = (ground arith, ground arith)

pub decided-route :
    (sequences : Sequences) (single : Bool) (facts : Facts) (op : Op)
    → ((stamp (classify_op sequences single facts op)).route
        ≡ (classify_op sequences single facts op).route)
      × ((stamp (classify_op sequences single facts op)).reason
          ≡ (classify_op sequences single facts op).reason)
decided-route sequences single facts op = stamp-route (classify_op sequences single facts op)
