-- ===== src/Applier/Buffer/Moves.antt =====
-- Moves, deletions, and the refinement of every event.
use pg_sprite.Prelude.Int64.{Int64}
use pg_sprite.Applier.Buffer.{
  moved_image, ChangeEvent, Buffer, Entry, is_deleted, key_of, add_key_move, add, add_kind, put,
  is_image, marker, first_lsn, mark_old_key_reused, add_delete, update_or_move,
}
use pg_sprite.Prelude.{
  [], ◌∷◌, none, some, true, false, inl, inr, refl, Option, ◌≡◌, Option-cases, String, arith,
  Bool-cases, sym, ◌∙◌, ap, if◌then◌else◌, ◌==◌,
}
use pg_sprite.Prelude.Assoc
use mathlib.Core.Path.{fun_ext}
use pg_sprite.Applier.Entry.{
  insert, update, delete, other_kind, ChangeEvent, Entry, Column, find_column, overlay, carried,
  ChangeKind,
}
use pg_sprite.Applier.Buffer.Invariant.{Inv, stands_at}
use pg_sprite.Applier.Buffer.Cases.{move_cases, EntryKind-cases}
use pg_sprite.Applier.Buffer.Knowledge.{
  gone, row, spec_move, knowledge, view, moved_row, mover_of, spec, spec_kind, set_key, landing,
  spec_update_or_move,
}
use pg_sprite.Applier.Buffer.Refinement.{
  Meets, marked_view, view-put, is_row_image, is_gone_deleted, insert-Meets, update-Meets,
  newer_columns,
}

moved_image_key :
    (ev : ChangeEvent) (old : Int64) (c d : Option Entry) → (moved_image ev old c d).key ≡ ev.key
unfolding moved_image
moved_image_key ev old c none = refl
moved_image_key ev old c (some from) = elim (Option-cases from.old_key) [
  | inl e ↦ rw (e, moved_image)
  | inr (origin, e) ↦ rw (e, moved_image)
]

-- The moved image says what the specification says of the moved row.
moved_image_row :
    (ev : ChangeEvent) (old : Int64) (c d : Option Entry)
    → is_deleted d ≡ false
    → knowledge (some (moved_image ev old c d)) ≡ moved_row old ev (knowledge d)
unfolding moved_image
moved_image_row ev old c none h = refl
moved_image_row ev old c (some from) h =
    let known : ◌≡◌ {A = String → Option Column}
        (λ n. find_column n (overlay from.columns ev.columns))
        (λ n. carried n ev.columns (find_column n from.columns)) =
      fun_ext (newer_columns from.columns ev.columns) in
    elim (EntryKind-cases from.kind) [
      | inr dead ↦ absurd (ground arith)
      | inl live ↦ elim (Option-cases from.old_key) [
        | inl e ↦
            rw (live, e, moved_image)
              (λ i. row (record { origin = some old; reused = false; known = known i }))
        | inr (origin, e) ↦
            rw (live, e, moved_image)
              (λ i.
                row (record { origin = sym e i; reused = from.old_key_reused; known = known i }))
      ]
    ]

mover_key :
    (old : Int64) (d : Option Entry)
    → stands_at old d ≡ true
    → is_deleted d ≡ false
    → key_of d ≡ mover_of old (knowledge d)
mover_key old none s h = refl
mover_key old (some e) s h = ground arith

-- What the two writes of a move leave under each key.
moved_view :
    (old : Int64) (ev : ChangeEvent) (b : Buffer) (cur from : Option Entry) (j : Int64)
    → Inv b
    → Assoc.lookup old b.entries ≡ from
    → is_deleted from ≡ false
    → view
        (put
          (marker old (first_lsn ev.delivered (from ∷ [])) ev.xid)
          (put (moved_image ev old cur from) (mark_old_key_reused ev.key (key_of from) b)))
        j
      ≡ set_key old gone
          (set_key ev.key
            (moved_row old ev (knowledge from))
            (landing ev.key (mover_of old (knowledge from)) (view b)))
          j
moved_view old ev b cur from j v at there =
    let image_entry = moved_image ev old cur from in
    let marked = mark_old_key_reused ev.key (key_of from) b in
    let others : view marked j ≡ landing ev.key (mover_of old (knowledge from)) (view b) j =
      marked_view ev.key j (key_of from) b v
      ∙ ap (λ m. landing ev.key m (view b) j)
          (mover_key old from (ap (stands_at old) (sym at) ∙ v.own_key old) there) in
    view-put (marker old (first_lsn ev.delivered (from ∷ [])) ev.xid) j (put image_entry marked)
    ∙ ap (λ x. if old == j then gone else x)
        (view-put image_entry j marked ∙ (λ i.
          if moved_image_key ev old cur from i == j
          then moved_image_row ev old cur from there i
          else others i))

move-Meets :
    (old : Int64) (ev : ChangeEvent) (b : Buffer)
    → Inv b
    → Meets (spec_move old ev (view b)) b (add_key_move old ev b)
move-Meets old ev b v = elim (move_cases old ev b) [
  | inl (live, q) ↦ rw (is_row_image (Assoc.lookup ev.key b.entries), live, q) (refl, λ e. cc)
  | inr (inl (dead, q)) ↦ elim (Bool-cases (is_image (Assoc.lookup ev.key b.entries))) [
    | inl live ↦ rw (is_row_image (Assoc.lookup ev.key b.entries), live, q) (refl, λ e. cc)
    | inr free ↦
        rw
          (
            is_row_image (Assoc.lookup ev.key b.entries),
            free,
            is_gone_deleted (Assoc.lookup old b.entries),
            dead,
            q,
          )
          (refl, λ e. cc)
  ]
  | inr (inr ((free, there), q)) ↦
      let cur = Assoc.lookup ev.key b.entries in
      let from = Assoc.lookup old b.entries in
      rw (is_row_image cur, free, is_gone_deleted from, there, q)
        (refl, λ j. moved_view old ev b cur from j v refl there)
]

update_or_move-Meets :
    (o : Option Int64) (ev : ChangeEvent) (b : Buffer)
    → Inv b
    → Meets (spec_update_or_move o ev (view b)) b (update_or_move o ev b)
unfolding update_or_move
update_or_move-Meets none ev b v = update-Meets ev b v
update_or_move-Meets (some old) ev b v = elim (Bool-cases (old == ev.key)) [
  | inl same ↦ rw same (update-Meets ev b v)
  | inr apart ↦ rw apart (move-Meets old ev b v)
]

kind-Meets :
    (k : ChangeKind) (ev : ChangeEvent) (b : Buffer)
    → Inv b
    → Meets (spec_kind k ev (view b)) b (add_kind k ev b)
unfolding add_kind add_delete
kind-Meets insert ev b v = insert-Meets ev b v
kind-Meets update ev b v = update_or_move-Meets ev.old_key ev b v
kind-Meets delete ev b v = (refl, λ j. view-put _ j b)
kind-Meets other_kind ev b v = (refl, λ e. cc)

-- A buffer that satisfies its invariant implements its specification: an event is refused exactly
-- where the specification refuses it, and then changes nothing; an accepted event leaves under every
-- key the knowledge that the specification gives, so columns are merged by newest value, a moved row
-- carries its knowledge and its origin, and every other row that started at the key it lands on is
-- marked.
pub add-Meets : (ev : ChangeEvent) (b : Buffer) → Inv b → Meets (spec ev (view b)) b (add ev b)
unfolding add
add-Meets ev b v = kind-Meets ev.kind ev b v
