-- ===== src/Applier/Buffer.antt =====
-- pkg/applier/buffer.go: the buffer of captured changes. A pointer to an entry stands under one key,
-- so a comparison of pointers is one of keys. The index `movedFrom`, a map from a key to a set of
-- keys, is the list of its pairs; a key whose set is empty is not in the map. A slice of columns is
-- never shared, since the source clones it wherever it stores one.
pub mod Effects
pub mod Invariant
pub mod Preserve
pub mod Knowledge
pub mod Refinement
pub mod Moves
pub mod Cases
pub mod Adds
use pg_sprite.Prelude.Int64.{Int64}
use pg_sprite.Prelude.{
  ℕ, [], ◌∷◌, none, some, true, false, Bool, List, Option, if◌then◌else◌, ltb, not, ◌==◌, ◌&&◌,
  ◌||◌,
}
use pg_sprite.Prelude.Assoc
use pg_sprite.Prelude.Assoc.{Assoc}
use pg_sprite.Applier.Entry.{
  Entry, insert, update, delete, other_kind, image, delete_marker, ChangeEvent, ChangeKind, Column,
  has_marker, overlay,
}

pub record PendingCompletion : Type 0 where
  pub completed : List Column
  pub read_lsn : ℕ

pub record Buffer : Type 0 where
  pub entries : Assoc Entry
  -- The pairs (old key, key) of the images that left a key.
  pub moved_from : List (Int64 × Int64)
  pub pending : Assoc PendingCompletion
  pub oldest : ℕ
  pub has_oldest : Bool

unfoldable pub new_buffer : Buffer
new_buffer = record { entries = []; moved_from = []; pending = []; oldest = 0; has_oldest = false }

unfoldable pub oldest_pending : Buffer → ℕ × Bool
oldest_pending b = (b.oldest, b.has_oldest)

unfoldable pub track_oldest : ℕ → Buffer → Buffer
track_oldest lsn b =
    if not b.has_oldest || ltb lsn b.oldest then record b { oldest = lsn; has_oldest = true } else b

-- The pair taken out of the index.
unfoldable pub drop_pair : Int64 → Int64 → List (Int64 × Int64) → List (Int64 × Int64)
drop_pair old k [] = []
drop_pair old k ((o, i) ∷ ps) =
    let rest = drop_pair old k ps in if o == old && i == k then rest else (o, i) ∷ rest

unfoldable pub has_pair : Int64 → Int64 → List (Int64 × Int64) → Bool
has_pair old k [] = false
has_pair old k ((o, i) ∷ ps) = if o == old && i == k then true else has_pair old k ps

-- unindex, of the entry under a key
unfoldable pub unindex : Option Entry → Buffer → Buffer
unindex none b = b
unindex (some e) b = elim e.old_key [
  | none ↦ b
  | some old ↦ record b { moved_from = drop_pair old e.key b.moved_from }
]

unfoldable pub drop_pending : Int64 → Buffer → Buffer
drop_pending k b = record b { pending = Assoc.delete k b.pending }

unfoldable pub index : Entry → Buffer → Buffer
index e b = elim e.old_key [
  | none ↦ b
  | some old ↦ record b { moved_from = (old, e.key) ∷ drop_pair old e.key b.moved_from }
]

unfoldable pub put : Entry → Buffer → Buffer
put e b =
    let dropped = drop_pending e.key (unindex (Assoc.lookup e.key b.entries) b) in
    track_oldest e.first_lsn
      (index e (record dropped { entries = Assoc.insert e.key e dropped.entries }))

unfoldable pub remove : Int64 → Buffer → Buffer
unfolding unindex drop_pending
remove k b =
    let dropped = drop_pending k (unindex (Assoc.lookup k b.entries) b) in
    record dropped { entries = Assoc.delete k dropped.entries }

unfoldable pub is_key : Option Int64 → Int64 → Bool
is_key none k = false
is_key (some j) k = j == k

-- e.OldKeyReused = true, for the entry under the key.
unfoldable pub mark_entry : Int64 → Assoc Entry → Assoc Entry
mark_entry k [] = []
mark_entry k ((j, e) ∷ m) =
    let rest = mark_entry k m in
    if j == k then (j, record e { old_key_reused = true }) ∷ rest else (j, e) ∷ rest

unfoldable pub mark_image : Option Int64 → Int64 → Buffer → Buffer
unfolding is_key mark_entry drop_pending
mark_image mover k b =
    if is_key mover k then b else drop_pending k (record b { entries = mark_entry k b.entries })

-- The loop over the images that left the key.
unfoldable pub mark_images : List (Int64 × Int64) → Int64 → Option Int64 → Buffer → Buffer
mark_images [] k mover b = b
mark_images ((o, i) ∷ ps) k mover b =
    mark_images ps k mover (if o == k then mark_image mover i b else b)

-- The mover is given by its key.
unfoldable pub mark_old_key_reused : Int64 → Option Int64 → Buffer → Buffer
mark_old_key_reused k mover b = mark_images b.moved_from k mover b

unfoldable pub earlier : ℕ → Option Entry → ℕ
earlier lsn none = lsn
earlier lsn (some e) = if ltb e.first_lsn lsn then e.first_lsn else lsn

-- firstLSN, over the entries that are replaced or continued.
unfoldable pub first_lsn : ℕ → List (Option Entry) → ℕ
unfolding earlier
first_lsn lsn [] = lsn
first_lsn lsn (e ∷ es) = first_lsn (earlier lsn e) es

pub data AddError : Type 0 where
  insert_over_image insert_omits_column update_over_delete : AddError
  move_onto_image move_from_deleted unknown_kind : AddError

abbrev pub is_image : Option Entry → Bool
is_image none = false
is_image (some e) = elim e.kind [ image ↦ true | delete_marker ↦ false ]

abbrev pub is_deleted : Option Entry → Bool
is_deleted none = false
is_deleted (some e) = elim e.kind [ image ↦ false | delete_marker ↦ true ]

-- An image that did not move, or moved from the given key.
abbrev pub new_image : Int64 → Option Int64 → Bool → List Column → ℕ → ℕ → Entry
new_image k old reused columns lsn xid = record {
  key = k;
  kind = image;
  old_key = old;
  old_key_reused = reused;
  absence_awaited = false;
  columns = columns;
  first_lsn = lsn;
  xid = xid;
}

abbrev pub marker : Int64 → ℕ → ℕ → Entry
marker k lsn xid = record {
  key = k;
  kind = delete_marker;
  old_key = none;
  old_key_reused = false;
  absence_awaited = false;
  columns = [];
  first_lsn = lsn;
  xid = xid;
}

unfoldable pub add_insert : ChangeEvent → Buffer → Buffer × Option AddError
add_insert ev b =
    let cur = Assoc.lookup ev.key b.entries in
    if is_image cur
    then (b, some insert_over_image)
    else (if has_marker ev.columns then (b, some insert_omits_column) else (
      put (new_image ev.key none false ev.columns (first_lsn ev.delivered (cur ∷ [])) ev.xid)
          (mark_old_key_reused ev.key none b),
      none,
    ))

-- The entry under the key with the event laid over it, written where it stands.
unfoldable pub overlay_entry : Int64 → List Column → ℕ → Assoc Entry → Assoc Entry
overlay_entry k columns xid [] = []
overlay_entry k columns xid ((j, e) ∷ m) =
    let rest = overlay_entry k columns xid m in
    if j == k
    then (j, record e { columns = overlay e.columns columns; xid = xid }) ∷ rest
    else (j, e) ∷ rest

unfoldable pub add_update : ChangeEvent → Buffer → Buffer × Option AddError
add_update ev b = elim (Assoc.lookup ev.key b.entries) [
  | none ↦ (
    put (new_image ev.key none false ev.columns ev.delivered ev.xid)
        (mark_old_key_reused ev.key none b),
    none,
  )
  | some cur ↦ elim cur.kind [
    | delete_marker ↦ (b, some update_over_delete)
    | image ↦ (record b { entries = overlay_entry ev.key ev.columns ev.xid b.entries }, none)
  ]
]

-- The image that a move leaves at its new key.
unfoldable pub moved_image : ChangeEvent → Int64 → Option Entry → Option Entry → Entry
moved_image ev old cur none =
    new_image ev.key (some old) false ev.columns (first_lsn ev.delivered (cur ∷ none ∷ [])) ev.xid
moved_image ev old cur (some from) =
    let lsn = first_lsn ev.delivered (cur ∷ some from ∷ []) in
    let columns = overlay from.columns ev.columns in
    elim from.old_key [
      | none ↦ new_image ev.key (some old) false columns lsn ev.xid
      | some origin ↦ new_image ev.key (some origin) from.old_key_reused columns lsn ev.xid
    ]

abbrev pub key_of : Option Entry → Option Int64
key_of none = none
key_of (some e) = some e.key

unfoldable pub add_key_move : Int64 → ChangeEvent → Buffer → Buffer × Option AddError
add_key_move old ev b =
    let cur = Assoc.lookup ev.key b.entries in
    let from = Assoc.lookup old b.entries in
    if is_image cur
    then (b, some move_onto_image)
    else (if is_deleted from then (b, some move_from_deleted) else (
      put (marker old (first_lsn ev.delivered (from ∷ [])) ev.xid)
          (put (moved_image ev old cur from) (mark_old_key_reused ev.key (key_of from) b)),
      none,
    ))

unfoldable pub add_delete : ChangeEvent → Buffer → Buffer
add_delete ev b =
    put (marker ev.key (first_lsn ev.delivered (Assoc.lookup ev.key b.entries ∷ [])) ev.xid) b

-- An UPDATE moves the key where it carries another old key.
unfoldable pub update_or_move : Option Int64 → ChangeEvent → Buffer → Buffer × Option AddError
update_or_move none ev b = add_update ev b
update_or_move (some old) ev b =
    if not (old == ev.key) then add_key_move old ev b else add_update ev b

unfoldable pub add_kind : ChangeKind → ChangeEvent → Buffer → Buffer × Option AddError
unfolding update_or_move
add_kind insert ev b = add_insert ev b
add_kind update ev b = update_or_move ev.old_key ev b
add_kind delete ev b = (add_delete ev b, none)
add_kind other_kind ev b = (b, some unknown_kind)

-- Add: the buffer after the event, and the error if the event was refused.
unfoldable pub add : ChangeEvent → Buffer → Buffer × Option AddError
unfolding add_kind
add ev b = add_kind ev.kind ev b
