-- ===== src/Applier/Buffer/Refinement.antt =====
-- The buffer implements its specification.
use pg_sprite.Prelude.Int64.{Int64}
use pg_sprite.Applier.Buffer.{
  add_insert, is_key, Buffer, AddError, mark_old_key_reused, put, is_deleted, is_image, List,
  Column, add_update, ℕ, overlay_entry,
}
use pg_sprite.Prelude.{
  none, some, true, false, inl, inr, refl, Bool, Option, Bool-cases, ◌≡◌, arith, ◌≢◌, ap, ◌&&◌, ◌∙◌,
  not, if◌then◌else◌, ◌==◌, List, String, ℕ, ==_iff,
}
use pg_sprite.Prelude.Assoc
use mathlib.Core.Path.{fun_ext}
use pg_sprite.Applier.Entry.{
  image, find-overlay, Entry, ChangeEvent, has_marker, find_column, Column, overlay, carried,
}
use pg_sprite.Applier.Buffer.Effects.{is_from, put_entries, remark, marks}
use pg_sprite.Applier.Buffer.Invariant.{Inv}
use pg_sprite.Applier.Buffer.Cases.{update_cases}
use pg_sprite.Applier.Buffer.Adds.{marked_entries, relaid, lookup-overlay_entry}
use pg_sprite.Applier.Buffer.Knowledge.{
  gone, row, View, is_gone, is_row, knowledge, with_reuse, spec_insert, view, landing, started_at,
  fresh_row, spec_update_at, newer, Row, set_key,
}

-- A refused event is an error and changes nothing; an accepted one leaves what the specification says
-- under every key.
abbrev pub Meets : Option View → Buffer → Buffer × Option AddError → Type 0
Meets none b (c, err) = (c ≡ b) × (err ≢ none)
Meets (some v) b (c, err) = (err ≡ none) × ((j : Int64) → view c j ≡ v j)

knowledge-remark :
    (m : Bool) (e : Option Entry) → knowledge (remark m e) ≡ with_reuse m (knowledge e)
knowledge-remark m none = refl
knowledge-remark m (some e) = ground arith

started_is_from :
    (k : Int64) (e : Option Entry) (m : Bool)
    → with_reuse (is_from e k && m) (knowledge e)
      ≡ with_reuse (started_at k (knowledge e) && m) (knowledge e)
unfolding is_key
started_is_from k none m = refl
started_is_from k (some e) m = ground arith

-- Marking by the index is what the landing of a row means.
pub marked_view :
    (k j : Int64) (mover : Option Int64) (b : Buffer)
    → Inv b
    → view (mark_old_key_reused k mover b) j ≡ landing k mover (view b) j
marked_view k j mover b v =
    let d = Assoc.lookup j b.entries in
    ap knowledge (marked_entries k j mover b)
    ∙ knowledge-remark (marks b.moved_from k mover j) d
    ∙ ap (λ x. with_reuse (x && not (is_key mover j)) (knowledge d)) (v.indexed k j)
    ∙ started_is_from k d (not (is_key mover j))

pub view-put :
    (e : Entry) (j : Int64) (b : Buffer)
    → view (put e b) j ≡ (if e.key == j then knowledge (some e) else view b j)
view-put e j b = ground (arith, put_entries e j b)

pub is_row_image : (e : Option Entry) → is_row (knowledge e) ≡ is_image e
is_row_image none = refl
is_row_image (some e) = ground arith

pub is_gone_deleted : (e : Option Entry) → is_gone (knowledge e) ≡ is_deleted e
is_gone_deleted none = refl
is_gone_deleted (some e) = ground arith

pub insert-Meets :
    (ev : ChangeEvent) (b : Buffer) → Inv b → Meets (spec_insert ev (view b)) b (add_insert ev b)
unfolding add_insert
insert-Meets ev b v = elim (Bool-cases (is_image (Assoc.lookup ev.key b.entries))) [
  | inl live ↦ rw (is_row_image (Assoc.lookup ev.key b.entries), live, add_insert) (refl, λ e. cc)
  | inr free ↦ elim (Bool-cases (has_marker ev.columns)) [
    | inl omits ↦
        rw (is_row_image (Assoc.lookup ev.key b.entries), free, omits, add_insert) (refl, λ e. cc)
    | inr whole ↦
        rw (is_row_image (Assoc.lookup ev.key b.entries), free, whole, add_insert)
          (
            refl,
            λ j.
                view-put _ j (mark_old_key_reused ev.key none b)
                ∙ ap (λ x. if ev.key == j then fresh_row none false ev.columns else x)
                    (marked_view ev.key j none b v),
          )
  ]
]

-- What is known of a live entry's row.
abbrev pub row_of : Entry → Row
row_of e = record {
  origin = e.old_key;
  reused = e.old_key_reused;
  known = λ n. find_column n e.columns;
}

-- Laying an event's columns over an image is what the specification means by newer columns.
pub newer_columns :
    (columns news : List Column) (n : String)
    → find_column n (overlay columns news) ≡ carried n news (find_column n columns)
newer_columns columns news n = find-overlay n columns news

relaid_row :
    (news : List Column) (xid : ℕ) (e : Entry)
    → e.kind ≡ image
    → knowledge (relaid true news xid (some e)) ≡ row (newer (row_of e) news)
relaid_row news xid e k =
    let known : ◌≡◌ {A = String → Option Column} (λ n. find_column n (overlay e.columns news))
        (λ n. carried n news (find_column n e.columns)) =
      fun_ext (newer_columns e.columns news) in
    simp k (λ i. row (record { origin = e.old_key; reused = e.old_key_reused; known = known i }))

-- What is known under a live key.
live_row :
    (e : Option Entry)
    → is_image e ≡ true
    → (d : Entry) × (e ≡ some d) × (d.kind ≡ image) × (knowledge e ≡ row (row_of d))
live_row none h = cc
live_row (some d) h = (d, refl, ground arith, ground arith)

pub gone_view : (e : Option Entry) → is_deleted e ≡ true → knowledge e ≡ gone
gone_view none h = cc
gone_view (some d) h = ground arith

relaid_elsewhere :
    (columns : List Column) (xid : ℕ) (e : Option Entry)
    → knowledge (relaid false columns xid e) ≡ knowledge e
relaid_elsewhere columns xid none = refl
relaid_elsewhere columns xid (some e) = refl

overlaid_view :
    (k j : Int64) (news : List Column) (xid : ℕ) (b : Buffer) (d : Entry)
    → Assoc.lookup k b.entries ≡ some d
    → d.kind ≡ image
    → view (record b { entries = overlay_entry k news xid b.entries }) j
      ≡ set_key k (row (newer (row_of d) news)) (view b) j
overlaid_view k j news xid b d at live =
    ap knowledge (lookup-overlay_entry k j news xid b.entries) ∙ elim (Bool-cases (k == j)) [
      | inl here ↦ rw (here, ← (==_iff k j).0 here, at) (relaid_row news xid d live)
      | inr other ↦ rw other (relaid_elsewhere news xid (Assoc.lookup j b.entries))
    ]

pub update-Meets :
    (ev : ChangeEvent) (b : Buffer)
    → Inv b
    → Meets (spec_update_at (view b ev.key) ev (view b)) b (add_update ev b)
update-Meets ev b v = elim (update_cases ev b) [
  | inl (e, q) ↦
      rw (ap knowledge e, q)
        (
          refl,
          λ j.
              view-put _ j (mark_old_key_reused ev.key none b)
              ∙ ap (λ x. if ev.key == j then fresh_row none false ev.columns else x)
                  (marked_view ev.key j none b v),
        )
  | inr (inl (dead, q)) ↦ rw (gone_view (Assoc.lookup ev.key b.entries) dead, q) (refl, λ e. cc)
  | inr (inr (live, q)) ↦
      let (d, at, k, r) = live_row (Assoc.lookup ev.key b.entries) live in
      rw (r, q) (refl, λ j. overlaid_view ev.key j ev.columns ev.xid b d at k)
]
