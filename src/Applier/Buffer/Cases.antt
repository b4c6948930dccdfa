-- ===== src/Applier/Buffer/Cases.antt =====
-- The ways that an update, a move and an insert go, as equations.
use pg_sprite.Prelude.Int64.{Int64}
use pg_sprite.Applier.Buffer.{
  add_key_move, add_update, ChangeEvent, Buffer, Entry, is_image, put, move_onto_image, new_image,
  overlay_entry, update_over_delete, is_deleted, mark_old_key_reused, move_from_deleted, marker,
  first_lsn, moved_image, key_of,
}
use pg_sprite.Prelude.{
  [], ◌∷◌, none, some, true, false, inl, inr, refl, ◌≡◌, ◌⊎◌, arith, Option-cases, Bool-cases,
}
use pg_sprite.Prelude.Assoc
use pg_sprite.Applier.Entry.{image, delete_marker, EntryKind, ChangeEvent, Entry}

pub EntryKind-cases : (k : EntryKind) → (k ≡ image) ⊎ (k ≡ delete_marker)
EntryKind-cases image = inl refl
EntryKind-cases delete_marker = inr refl

update_gone :
    (ev : ChangeEvent) (b : Buffer) (cur : Entry)
    → Assoc.lookup ev.key b.entries ≡ some cur
    → cur.kind ≡ delete_marker
    → add_update ev b ≡ (b, some update_over_delete)
unfolding add_update
update_gone ev b cur e k = ground arith

update_live :
    (ev : ChangeEvent) (b : Buffer) (cur : Entry)
    → Assoc.lookup ev.key b.entries ≡ some cur
    → cur.kind ≡ image
    → add_update ev b
      ≡ (record b { entries = overlay_entry ev.key ev.columns ev.xid b.entries }, none)
unfolding add_update
update_live ev b cur e k = ground arith

-- An update of an unknown key, of a deleted one, or of a live one.
pub update_cases :
    (ev : ChangeEvent) (b : Buffer)
    → ((Assoc.lookup ev.key b.entries ≡ none)
        × (add_update ev b ≡ (
          put
              (new_image ev.key none false ev.columns ev.delivered ev.xid)
              (mark_old_key_reused ev.key none b),
          none,
        )))
      ⊎ ((is_deleted (Assoc.lookup ev.key b.entries) ≡ true)
          × (add_update ev b ≡ (b, some update_over_delete)))
      ⊎ ((is_image (Assoc.lookup ev.key b.entries) ≡ true)
          × (add_update ev b
              ≡ (record b { entries = overlay_entry ev.key ev.columns ev.xid b.entries }, none)))
unfolding add_update
update_cases ev b = elim (Option-cases (Assoc.lookup ev.key b.entries)) [
  | inl e ↦ inl (e, rw (e, add_update))
  | inr (cur, e) ↦ elim (EntryKind-cases cur.kind) [
    | inl live ↦ inr (inr (ground arith, update_live ev b cur e live))
    | inr gone ↦ inr (inl (ground arith, update_gone ev b cur e gone))
  ]
]

-- A move onto a live key, from a deleted one, or neither.
pub move_cases :
    (old : Int64) (ev : ChangeEvent) (b : Buffer)
    → ((is_image (Assoc.lookup ev.key b.entries) ≡ true)
        × (add_key_move old ev b ≡ (b, some move_onto_image)))
      ⊎ ((is_deleted (Assoc.lookup old b.entries) ≡ true)
          × (add_key_move old ev b ≡ (b, some move_from_deleted)))
      ⊎ (((is_image (Assoc.lookup ev.key b.entries) ≡ false)
            × (is_deleted (Assoc.lookup old b.entries) ≡ false))
          × (add_key_move old ev b ≡ (
            put (marker old (first_lsn ev.delivered (Assoc.lookup old b.entries ∷ [])) ev.xid) (
                put
                  (moved_image ev old (Assoc.lookup ev.key b.entries) (Assoc.lookup old b.entries))
                  (mark_old_key_reused ev.key (key_of (Assoc.lookup old b.entries)) b)),
            none,
          )))
unfolding add_key_move
move_cases old ev b = elim (Bool-cases (is_image (Assoc.lookup ev.key b.entries))) [
  | inl live ↦ inl (live, rw (live, add_key_move))
  | inr free ↦ elim (Bool-cases (is_deleted (Assoc.lookup old b.entries))) [
    | inl gone ↦ inr (inl (gone, rw (free, gone, add_key_move)))
    | inr there ↦ inr (inr ((free, there), rw (free, there, add_key_move)))
  ]
]
