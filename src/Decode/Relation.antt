-- ===== src/Decode/Relation.antt =====
-- pkg/decode/relation.go and pkg/decode/tuple.go: the target's shape as pgoutput describes it, and the
-- tuples of a change. Messages are taken as the replication library parses them.
use pg_sprite.Prelude.Int64.{Int64}
use pg_sprite.Prelude.Digits.{parse_int64, codes}
use pg_sprite.Prelude.{
  zero, suc, [], ◌∷◌, none, some, true, false, Bool, List, Option, String, if◌then◌else◌, ℕ, not,
  ◌%◌, ◌+◌, ◌==◌, str_eq, ◌&&◌, ◌||◌,
}
use pg_sprite.Applier.Entry.{Column, text, null}

pub record RelationColumn : Type 0 where
  pub flags : ℕ
  pub name : String
  pub data_type : ℕ
  pub modifier : Int64

pub record RelationMessage : Type 0 where
  pub relation_id : ℕ
  pub namespace : String
  pub relation_name : String
  pub identity : ℕ
  pub columns : List RelationColumn

-- The parts of the target's proof that the decoder reads.
pub record RelationTarget : Type 0 where
  pub schema : String
  pub table : String
  pub oid : ℕ
  pub pk_column : String

pub record Relation : Type 0 where
  pub id : ℕ
  pub replica_identity : ℕ
  pub columns : List RelationColumn
  pub key_index : ℕ

pub data DecodeError : Type 0 where
  wrong_relation wrong_oid no_key_column key_not_identified : DecodeError
  no_tuple tuple_length unknown_data_type key_not_text key_not_int64 : DecodeError
  change_outside_transaction change_before_relation foreign_relation : DecodeError

pub data Decoded {ℓ} (A : Type ℓ) : Type ℓ where
  decoded : A → Decoded A
  rejected : DecodeError → Decoded A

infixl 5 ◌>>=◌
abbrev pub ◌>>=◌ {ℓ κ} : {A : Type ℓ} {B : Type κ} → Decoded A → (A → Decoded B) → Decoded B
decoded a >>= f = f a
rejected e >>= f = rejected e

-- The index of the last column under a name, from the given index on.
unfoldable pub key_index_from : String → ℕ → Option ℕ → List RelationColumn → Option ℕ
key_index_from key i found [] = found
key_index_from key i found (c ∷ cs) =
    key_index_from key (i + 1) (if str_eq c.name key then some i else found) cs

unfoldable pub column_at : ℕ → List RelationColumn → Option RelationColumn
column_at i [] = none
column_at zero (c ∷ cs) = some c
column_at (suc i) (c ∷ cs) = column_at i cs

-- Flags&keyFlag
abbrev pub is_key_flagged : Option RelationColumn → Bool
is_key_flagged none = false
is_key_flagged (some c) = c.flags % 2 == 1

abbrev pub keyed : RelationMessage → Option ℕ → Decoded Relation
keyed msg none = rejected no_key_column
keyed msg (some i) =
    if not (is_key_flagged (column_at i msg.columns))
    then rejected key_not_identified
    else decoded (record {
      id = msg.relation_id;
      replica_identity = msg.identity;
      columns = msg.columns;
      key_index = i;
    })

unfoldable pub new_relation : RelationMessage → RelationTarget → Decoded Relation
unfolding key_index_from
new_relation msg target =
    if not (str_eq msg.namespace target.schema) || not (str_eq msg.relation_name target.table)
    then rejected wrong_relation
    else (if not (msg.relation_id == target.oid)
        then rejected wrong_oid
        else keyed msg (key_index_from target.pk_column 0 none msg.columns))

unfoldable pub same_column : RelationColumn → RelationColumn → Bool
same_column a b =
    a.flags == b.flags
    && str_eq a.name b.name
    && a.data_type == b.data_type
    && a.modifier == b.modifier

unfoldable pub same_columns : List RelationColumn → List RelationColumn → Bool
unfolding same_column
same_columns [] [] = true
same_columns [] (d ∷ ds) = false
same_columns (c ∷ cs) [] = false
same_columns (c ∷ cs) (d ∷ ds) = if not (same_column c d) then false else same_columns cs ds

unfoldable pub same_shape : Relation → Relation → Bool
same_shape r s =
    r.id == s.id && r.replica_identity == s.replica_identity && same_columns r.columns s.columns

-- One column of a tuple.
pub data TupleColumn : Type 0 where
  text_data : String → TupleColumn
  null_data toast_data other_data : TupleColumn

abbrev pub Tuple : Type 0
Tuple = List TupleColumn

-- PresentColumn and AbsentColumn
abbrev pub decode_column : String → TupleColumn → Decoded Column
decode_column n (text_data s) = decoded (record { name = n; value = text s; present = true })
decode_column n null_data = decoded (record { name = n; value = null; present = true })
decode_column n toast_data = decoded (record { name = n; value = null; present = false })
decode_column n other_data = rejected unknown_data_type

unfoldable pub decode_tuple : List RelationColumn → Tuple → Decoded (List Column)
decode_tuple [] [] = decoded []
decode_tuple [] (t ∷ ts) = rejected tuple_length
decode_tuple (c ∷ cs) [] = rejected tuple_length
decode_tuple (c ∷ cs) (t ∷ ts) =
    decode_column c.name t >>= λ d. decode_tuple cs ts >>= λ ds. decoded (d ∷ ds)

unfoldable pub same_length {ℓ κ} : {A : Type ℓ} {B : Type κ} → List A → List B → Bool
same_length [] [] = true
same_length [] (y ∷ ys) = false
same_length (x ∷ xs) [] = false
same_length (x ∷ xs) (y ∷ ys) = same_length xs ys

unfoldable pub decode_columns : Relation → Option Tuple → Decoded (List Column)
unfolding same_length
decode_columns rel none = rejected no_tuple
decode_columns rel (some tuple) =
    if not (same_length tuple rel.columns)
    then rejected tuple_length
    else decode_tuple rel.columns tuple

unfoldable pub data_at : ℕ → Tuple → Option TupleColumn
data_at i [] = none
data_at zero (t ∷ ts) = some t
data_at (suc i) (t ∷ ts) = data_at i ts

abbrev pub parsed_key : Option Int64 → Decoded Int64
parsed_key none = rejected key_not_int64
parsed_key (some k) = decoded k

abbrev pub key_of_data : Option TupleColumn → Decoded Int64
unfolding parse_int64
key_of_data (some (text_data s)) = parsed_key (parse_int64 (codes s))
key_of_data t = rejected key_not_text

unfoldable pub decode_key : Relation → Option Tuple → Decoded Int64
unfolding same_length data_at
decode_key rel none = rejected no_tuple
decode_key rel (some tuple) =
    if not (same_length tuple rel.columns)
    then rejected tuple_length
    else key_of_data (data_at rel.key_index tuple)
