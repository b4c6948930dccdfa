-- ===== src/Applier/Buffer/Knowledge.antt =====
-- What the buffer promises, with no index, no completions and no positions: what is known of each
-- key, and how an event changes it. A known row has the key it started at, if it moved, whether
-- another row has since landed there, and the newest column that the stream carried for each name.
use pg_sprite.Applier.Buffer.{Buffer, Column, is_key}
use pg_sprite.Prelude.Int64.{Int64}
use pg_sprite.Prelude.Assoc
use pg_sprite.Prelude.{
  none, some, true, false, Bool, List, Option, String, if◌then◌else◌, not, ◌&&◌, ◌==◌, ◌||◌,
}
use pg_sprite.Applier.Entry.{
  image, delete_marker, insert, update, delete, other_kind, ChangeEvent, ChangeKind, Column, Entry,
  carried, find_column, has_marker,
}

pub record Row : Type 0 where
  pub origin : Option Int64
  pub reused : Bool
  pub known : String → Option Column

pub data Knowledge : Type 0 where
  unseen gone : Knowledge
  row : Row → Knowledge

abbrev pub View : Type 0
View = Int64 → Knowledge

abbrev pub knowledge : Option Entry → Knowledge
knowledge none = unseen
knowledge (some e) = elim e.kind [
  | image ↦ row (record {
    origin = e.old_key;
    reused = e.old_key_reused;
    known = λ n. find_column n e.columns;
  })
  | delete_marker ↦ gone
]

abbrev pub view : Buffer → View
view b k = knowledge (Assoc.lookup k b.entries)

-- The row started at the key.
abbrev pub started_at : Int64 → Knowledge → Bool
started_at k unseen = false
started_at k gone = false
started_at k (row r) = is_key r.origin k

abbrev pub with_reuse : Bool → Knowledge → Knowledge
with_reuse m unseen = unseen
with_reuse m gone = gone
with_reuse m (row r) = if m then row (record r { reused = true }) else row r

-- A row other than the mover's lands on the key: the rows that started there have lost their origin.
abbrev pub landing : Int64 → Option Int64 → View → View
landing k mover v j = with_reuse (started_at k (v j) && not (is_key mover j)) (v j)

abbrev pub set_key : Int64 → Knowledge → View → View
set_key k x v j = if k == j then x else v j

abbrev pub fresh_row : Option Int64 → Bool → List Column → Knowledge
fresh_row origin reused columns =
    row (record { origin = origin; reused = reused; known = λ n. find_column n columns })

-- The row under newer columns.
abbrev pub newer : Row → List Column → Row
newer r columns = record r { known = λ n. carried n columns (r.known n) }

abbrev pub is_row : Knowledge → Bool
is_row unseen = false
is_row gone = false
is_row (row r) = true

-- `none` refuses the event.
abbrev pub spec_insert : ChangeEvent → View → Option View
spec_insert ev v =
    if is_row (v ev.key) || has_marker ev.columns
    then none
    else some (set_key ev.key (fresh_row none false ev.columns) (landing ev.key none v))

abbrev pub spec_update_at : Knowledge → ChangeEvent → View → Option View
spec_update_at unseen ev v =
    some (set_key ev.key (fresh_row none false ev.columns) (landing ev.key none v))
spec_update_at gone ev v = none
spec_update_at (row r) ev v = some (set_key ev.key (row (newer r ev.columns)) v)

-- The moving row: where it started, unless it is already known to have moved, and what was known.
abbrev pub moved_row : Int64 → ChangeEvent → Knowledge → Knowledge
moved_row old ev unseen = fresh_row (some old) false ev.columns
moved_row old ev gone = gone
moved_row old ev (row r) = elim r.origin [
  | none ↦ row (newer (record r { origin = some old; reused = false }) ev.columns)
  | some origin ↦ row (newer r ev.columns)
]

-- The row that moves is the one known under its old key, if any.
abbrev pub mover_of : Int64 → Knowledge → Option Int64
mover_of old unseen = none
mover_of old gone = none
mover_of old (row r) = some old

abbrev pub is_gone : Knowledge → Bool
is_gone gone = true
is_gone _ = false

abbrev pub spec_move : Int64 → ChangeEvent → View → Option View
spec_move old ev v =
    if is_row (v ev.key) || is_gone (v old)
    then none
    else some (
        set_key old gone
          (set_key ev.key (moved_row old ev (v old)) (landing ev.key (mover_of old (v old)) v)))

abbrev pub spec_update_or_move : Option Int64 → ChangeEvent → View → Option View
spec_update_or_move none ev v = spec_update_at (v ev.key) ev v
spec_update_or_move (some old) ev v =
    if not (old == ev.key) then spec_move old ev v else spec_update_at (v ev.key) ev v

abbrev pub spec_kind : ChangeKind → ChangeEvent → View → Option View
spec_kind insert ev v = spec_insert ev v
spec_kind update ev v = spec_update_or_move ev.old_key ev v
spec_kind delete ev v = some (set_key ev.key gone v)
spec_kind other_kind ev v = none

-- The event, as it changes what is known.
abbrev pub spec : ChangeEvent → View → Option View
spec ev v = spec_kind ev.kind ev v
