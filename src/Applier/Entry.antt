-- ===== src/Applier/Entry.antt =====
-- pkg/decode/column.go, the parts of pkg/decode/types.go that the applier reads, and
-- pkg/applier/entry.go: columns, change events and buffered entries.
use pg_sprite.Prelude.Int64.{Int64}
use pg_sprite.Prelude.{
  ℕ, String, str_eq, eq_iff, [], ◌∷◌, none, some, true, false, Bool, List, Option, if◌then◌else◌,
  ◌≡◌, arith, not, ◌&&◌, refl,
}

-- A column's value: NULL, the text that the server sent, or a value read from the shadow row.
pub data Value : Type 0 where
  null : Value
  text : String → Value
  shadow_form : Value → Value

pub record Column : Type 0 where
  pub name : String
  pub value : Value
  pub present : Bool

pub data ChangeKind : Type 0 where
  insert update delete other_kind : ChangeKind

pub record ChangeEvent : Type 0 where
  pub kind : ChangeKind
  pub delivered : ℕ
  pub xid : ℕ
  pub key : Int64
  pub old_key : Option Int64
  pub columns : List Column

pub data EntryKind : Type 0 where
  image delete_marker : EntryKind

pub record Entry : Type 0 where
  pub key : Int64
  pub kind : EntryKind
  pub old_key : Option Int64
  pub old_key_reused : Bool
  pub absence_awaited : Bool
  pub columns : List Column
  pub first_lsn : ℕ
  pub xid : ℕ

-- HasMarker
unfoldable pub has_marker : List Column → Bool
has_marker [] = false
has_marker (c ∷ cs) = if not c.present then true else has_marker cs

-- The column under a name, found as `index` finds it.
unfoldable pub find_column : String → List Column → Option Column
find_column n [] = none
find_column n (c ∷ cs) = if str_eq c.name n then some c else find_column n cs

-- Write a column at its index, or append it.
unfoldable pub assign : Column → List Column → List Column
assign c [] = c ∷ []
assign c (d ∷ ds) = if str_eq d.name c.name then c ∷ ds else d ∷ assign c ds

unfoldable pub overlay : List Column → List Column → List Column
unfolding assign
overlay image_columns [] = image_columns
overlay image_columns (c ∷ cs) =
    overlay (if not c.present then image_columns else assign c image_columns) cs

-- The image holds a value under the name.
unfoldable pub has_value : String → List Column → Bool
has_value n cols = elim (find_column n cols) [ none ↦ false | some c ↦ c.present ]

unfoldable pub fill : List Column → List Column → List Column
unfolding assign has_value
fill image_columns [] = image_columns
fill image_columns (c ∷ cs) =
    fill
      (if not c.present
        then image_columns
        else (if has_value c.name image_columns then image_columns else assign c image_columns))
      cs

-- The newest value that the events carry for a name, over what was known before.
unfoldable pub carried : String → List Column → Option Column → Option Column
carried n [] known = known
carried n (c ∷ cs) known = carried n cs (if c.present && str_eq c.name n then some c else known)

pub find-assign :
    (n : String) (c : Column) (cs : List Column)
    → find_column n (assign c cs) ≡ (if str_eq c.name n then some c else find_column n cs)
unfolding find_column assign
find-assign n c [] = refl
find-assign n c (d ∷ ds) =
    ground (arith, eq_iff d.name n, eq_iff d.name c.name, eq_iff c.name n, find-assign n c ds)

-- An overlay gives every column the newest value that the event carries for it, and keeps what the
-- image knew of the others.
pub find-overlay :
    (n : String) (cols evs : List Column)
    → find_column n (overlay cols evs) ≡ carried n evs (find_column n cols)
unfolding overlay carried
find-overlay n cols [] = refl
find-overlay n cols (c ∷ cs) =
    ground (arith, find-overlay n (assign c cols) cs, find-overlay n cols cs, find-assign n c cols)

-- A completion never replaces a value.
pub find-fill_known :
    (n : String) (cols evs : List Column) (c : Column)
    → find_column n cols ≡ some c
    → c.present ≡ true
    → find_column n (fill cols evs) ≡ some c
unfolding fill has_value
find-fill_known n cols [] c e p = e
find-fill_known n cols (d ∷ ds) c e p = ground (
  arith,
  eq_iff d.name n,
  find-assign n d cols,
  find-fill_known n cols ds c,
  find-fill_known n (assign d cols) ds c,
)
