-- ===== src/Applier/Buffer/Adds.antt =====
-- Every event keeps the buffer's invariant, accepted or refused.
use pg_sprite.Prelude.Int64.{Int64}
use pg_sprite.Applier.Buffer.{
  add_delete, add_insert, add_update, first_lsn, mark_old_key_reused, overlay_entry, ChangeEvent,
  List, Option, ℕ, Buffer, Column, Entry, is_image, new_image, put, add, add_key_move, moved_image,
  add_kind, key_of, marker, update_or_move,
}
use pg_sprite.Prelude.{
  [], ◌∷◌, none, some, true, false, inl, inr, refl, Bool, List, Option, ℕ, Bool-cases, Option-cases,
  arith, ◌≡◌, if◌then◌else◌, ◌==◌,
}
use pg_sprite.Prelude.Assoc
use pg_sprite.Prelude.Assoc.{HasKeysOnce}
use pg_sprite.Applier.Entry.{
  insert, update, delete, other_kind, ChangeEvent, Column, Entry, has_marker, overlay, ChangeKind,
}
use pg_sprite.Applier.Buffer.Effects.{is_from, mark_images_entries, put_entries, remark, marks}
use pg_sprite.Applier.Buffer.Invariant.{Inv, stands_at, covers_lsn}
use pg_sprite.Applier.Buffer.Cases.{update_cases, move_cases}
use pg_sprite.Applier.Buffer.Preserve.{mark-Inv, put-Inv, remark_keeps}

-- The position of a new entry is no later than that of any entry it replaces or continues.
first_lsn_one : (lsn : ℕ) (c : Option Entry) → covers_lsn (first_lsn lsn (c ∷ [])) true c ≡ true
unfolding first_lsn
first_lsn_one lsn none = refl
first_lsn_one lsn (some e) = ground arith

first_lsn_two :
    (lsn : ℕ) (c d : Option Entry) → covers_lsn (first_lsn lsn (c ∷ d ∷ [])) true c ≡ true
unfolding first_lsn
first_lsn_two lsn none d = refl
first_lsn_two lsn (some e) none = ground arith
first_lsn_two lsn (some e) (some f) = ground arith

pub marked_entries :
    (k j : Int64) (mover : Option Int64) (b : Buffer)
    → Assoc.lookup j (mark_old_key_reused k mover b).entries
      ≡ remark (marks b.moved_from k mover j) (Assoc.lookup j b.entries)
unfolding mark_old_key_reused
marked_entries k j mover b = mark_images_entries b.moved_from k j mover b

-- An entry put after the marking may replace what the key held before it.
put_marked-Inv :
    (k : Int64) (mover : Option Int64) (e : Entry) (b : Buffer)
    → covers_lsn e.first_lsn true (Assoc.lookup e.key b.entries) ≡ true
    → Inv b
    → Inv (put e (mark_old_key_reused k mover b))
put_marked-Inv k mover e b early v =
    put-Inv e (mark_old_key_reused k mover b)
      (ground (
        arith,
        marked_entries k e.key mover b,
        (remark_keeps (marks b.moved_from k mover e.key) (Assoc.lookup e.key b.entries) 0 0
            e.first_lsn true).3,
      ))
      (mark-Inv k mover b v)

add_insert-Inv : (ev : ChangeEvent) (b : Buffer) → Inv b → Inv (add_insert ev b).0
unfolding add_insert
add_insert-Inv ev b v = elim (Bool-cases (is_image (Assoc.lookup ev.key b.entries))) [
  | inl live ↦ rw (live, add_insert) v
  | inr free ↦ elim (Bool-cases (has_marker ev.columns)) [
    | inl omits ↦ rw (free, omits, add_insert) v
    | inr whole ↦
        rw (free, whole, add_insert)
          (put_marked-Inv ev.key none _ b
            (first_lsn_one ev.delivered (Assoc.lookup ev.key b.entries)) v)
  ]
]

add_delete-Inv : (ev : ChangeEvent) (b : Buffer) → Inv b → Inv (add_delete ev b)
unfolding add_delete
add_delete-Inv ev b v = put-Inv _ b (first_lsn_one ev.delivered (Assoc.lookup ev.key b.entries)) v

-- An entry with columns laid over it.
abbrev pub relaid : Bool → List Column → ℕ → Option Entry → Option Entry
relaid here columns xid none = none
relaid here columns xid (some e) =
    if here then some (record e { columns = overlay e.columns columns; xid = xid }) else some e

pub lookup-overlay_entry :
    (k j : Int64) (columns : List Column) (xid : ℕ) (m : Assoc.Assoc Entry)
    → Assoc.lookup j (overlay_entry k columns xid m)
      ≡ relaid (k == j) columns xid (Assoc.lookup j m)
unfolding overlay_entry Assoc.lookup
lookup-overlay_entry k j columns xid [] = refl
lookup-overlay_entry k j columns xid ((i, e) ∷ m) =
    ground (arith, lookup-overlay_entry k j columns xid m)

overlay_entry-once :
    (k : Int64) (columns : List Column) (xid : ℕ) (m : Assoc.Assoc Entry)
    → HasKeysOnce m
    → HasKeysOnce (overlay_entry k columns xid m)
unfolding overlay_entry
overlay_entry-once k columns xid [] h = tt
overlay_entry-once k columns xid ((j, e) ∷ m) h =
    ground (arith, lookup-overlay_entry k j columns xid m, overlay_entry-once k columns xid m h.1)

pub relaid_keeps :
    (here : Bool) (columns : List Column) (xid : ℕ) (e : Option Entry) (k o : Int64) (lsn : ℕ)
    (has : Bool)
    → (stands_at k (relaid here columns xid e) ≡ stands_at k e)
      × (is_from (relaid here columns xid e) o ≡ is_from e o)
      × (is_image (relaid here columns xid e) ≡ is_image e)
      × (covers_lsn lsn has (relaid here columns xid e) ≡ covers_lsn lsn has e)
relaid_keeps here columns xid none k o lsn has = (refl, refl, refl, refl)
relaid_keeps here columns xid (some e) k o lsn has = ground arith

overlaid-Inv :
    (k : Int64) (columns : List Column) (xid : ℕ) (b : Buffer)
    → Inv b
    → Inv (record b { entries = overlay_entry k columns xid b.entries })
overlaid-Inv k columns xid b v =
    let keeps = λ (j o : Int64).
      relaid_keeps (k == j) columns xid (Assoc.lookup j b.entries) j o b.oldest b.has_oldest in
    let at = λ (j : Int64). lookup-overlay_entry k j columns xid b.entries in
    record {
      once = overlay_entry-once k columns xid b.entries v.once;
      own_key = λ j. ground (arith, at j, (keeps j j).0, v.own_key j);
      indexed = λ o j. ground (arith, at j, (keeps j o).1, v.indexed o j);
      pended = λ j. ground (arith, at j, (keeps j j).2, v.pended j);
      oldest_below = λ j. ground (arith, at j, (keeps j j).3, v.oldest_below j);
      oldest_met = elim v.oldest_met [
        | inl no_entry ↦ inl no_entry
        | inr (j, e, found, least) ↦ inr (
          j,
          (if k == j then record e { columns = overlay e.columns columns; xid = xid } else e),
          ground (arith, at j),
          ground arith,
        )
      ];
    }

add_update-Inv : (ev : ChangeEvent) (b : Buffer) → Inv b → Inv (add_update ev b).0
add_update-Inv ev b v = elim (update_cases ev b) [
  | inl (e, q) ↦ rw q (
      put_marked-Inv ev.key none (new_image ev.key none false ev.columns ev.delivered ev.xid) b
        (rw e) v)
  | inr (inl (gone, q)) ↦ rw q v
  | inr (inr (live, q)) ↦ rw q (overlaid-Inv ev.key ev.columns ev.xid b v)
]

-- The image of a move is no later than the entries of the two keys.
moved_early :
    (ev : ChangeEvent) (old : Int64) (c d : Option Entry)
    → (covers_lsn (moved_image ev old c d).first_lsn true c ≡ true)
      × ((moved_image ev old c d).key ≡ ev.key)
unfolding moved_image
moved_early ev old c none = (first_lsn_two ev.delivered c none, refl)
moved_early ev old c (some from) = elim (Option-cases from.old_key) [
  | inl e ↦ rw (e, moved_image) (first_lsn_two ev.delivered c (some from), refl)
  | inr (origin, e) ↦ rw (e, moved_image) (first_lsn_two ev.delivered c (some from), refl)
]

add_key_move-Inv :
    (old : Int64) (ev : ChangeEvent) (b : Buffer)
    → (old == ev.key) ≡ false
    → Inv b
    → Inv (add_key_move old ev b).0
add_key_move-Inv old ev b apart v = elim (move_cases old ev b) [
  | inl (live, q) ↦ rw q v
  | inr (inl (gone, q)) ↦ rw q v
  | inr (inr (fine, q)) ↦
      let cur = Assoc.lookup ev.key b.entries in
      let from = Assoc.lookup old b.entries in
      let (early, key) = moved_early ev old cur from in
      let marked = mark_old_key_reused ev.key (key_of from) b in
      rw q (
        put-Inv (marker old (first_lsn ev.delivered (from ∷ [])) ev.xid)
          (put (moved_image ev old cur from) marked)
          (ground (
            arith,
            put_entries (moved_image ev old cur from) old marked,
            marked_entries ev.key old (key_of from) b,
            (remark_keeps (marks b.moved_from ev.key (key_of from) old) from 0 0
                (first_lsn ev.delivered (from ∷ [])) true).3,
            first_lsn_one ev.delivered from,
          ))
          (put_marked-Inv ev.key (key_of from) (moved_image ev old cur from) b (rw key early) v))
]

update_or_move-Inv :
    (o : Option Int64) (ev : ChangeEvent) (b : Buffer) → Inv b → Inv (update_or_move o ev b).0
unfolding update_or_move
update_or_move-Inv none ev b v = add_update-Inv ev b v
update_or_move-Inv (some old) ev b v = elim (Bool-cases (old == ev.key)) [
  | inl same ↦ rw same (add_update-Inv ev b v)
  | inr apart ↦ rw apart (add_key_move-Inv old ev b apart v)
]

add_kind-Inv : (k : ChangeKind) (ev : ChangeEvent) (b : Buffer) → Inv b → Inv (add_kind k ev b).0
unfolding add_kind
add_kind-Inv insert ev b v = add_insert-Inv ev b v
add_kind-Inv update ev b v = update_or_move-Inv ev.old_key ev b v
add_kind-Inv delete ev b v = add_delete-Inv ev b v
add_kind-Inv other_kind ev b v = v

-- Every event, accepted or refused, keeps the buffer's invariant: the index of moved images stays
-- exact, a completion waits only under an image, and the oldest pending position stays the least of
-- the buffered entries'.
pub add-Inv : (ev : ChangeEvent) (b : Buffer) → Inv b → Inv (add ev b).0
unfolding add
add-Inv ev b v = add_kind-Inv ev.kind ev b v
