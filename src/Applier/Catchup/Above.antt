-- ===== src/Applier/Catchup/Above.antt =====
-- The buffered entries lie at or above a position, and no operation of the buffer lets one fall below it.
use pg_sprite.Applier.Hold.Release.{lookup-fill_entry}
use pg_sprite.Prelude.Assoc.{Assoc}
use pg_sprite.Applier.Hold.{release, release_loop, release_key, fill_entry}
use pg_sprite.Applier.Buffer.Preserve.{remark_keeps}
use pg_sprite.Applier.Buffer.Effects.{put_entries, marks}
use pg_sprite.Applier.Buffer.Cases.{move_cases, update_cases}
use pg_sprite.Applier.Buffer.Adds.{marked_entries, lookup-overlay_entry, relaid_keeps}
use pg_sprite.Applier.Buffer.Invariant.{covers_lsn}
use pg_sprite.Prelude.Int64.{Int64}
use pg_sprite.Applier.Entry.{
  ChangeEvent, Entry, has_marker, Column, ChangeKind, insert, update, delete, other_kind,
}
use pg_sprite.Applier.Buffer.{
  add_insert, earlier, first_lsn, moved_image, Buffer, mark_old_key_reused, add_key_move,
  add_update, new_image, put, marker, key_of, is_image, add, add_kind, update_or_move, add_delete,
  PendingCompletion,
}
use pg_sprite.Prelude.{
  ℕ, Option, ◌≤◌, ap, true, arith, none, ◌≡◌, false, inl, some, ◌∙◌, ◌∷◌, Option-cases, [], inr,
  Bool-cases, List, ◌==◌, ltb,
}
use pg_sprite.Prelude.Assoc

abbrev pub Above : ℕ → Buffer → Type 0
Above p b = (k : Int64) → covers_lsn p true (Assoc.lookup k b.entries) ≡ true

pub put-Above : (p : ℕ) (e : Entry) (b : Buffer) → p ≤ e.first_lsn → Above p b → Above p (put e b)
put-Above p e b h a k = ground (arith, put_entries e k b, a k, h)

marked-Above :
    (p : ℕ) (k : Int64) (mover : Option Int64) (b : Buffer)
    → Above p b
    → Above p (mark_old_key_reused k mover b)
marked-Above p k mover b a j =
    ap (covers_lsn p true) (marked_entries k j mover b)
    ∙ (remark_keeps (marks b.moved_from k mover j) (Assoc.lookup j b.entries) 0 0 p true).3
    ∙ a j

earlier-Above :
    (p lsn : ℕ) (c : Option Entry) → p ≤ lsn → covers_lsn p true c ≡ true → p ≤ earlier lsn c
unfolding earlier
earlier-Above p lsn none h a = h
earlier-Above p lsn (some e) h a = ground (arith, h, a)

one-Above :
    (p lsn : ℕ) (c : Option Entry)
    → p ≤ lsn
    → covers_lsn p true c ≡ true
    → p ≤ first_lsn lsn (c ∷ [])
unfolding first_lsn
one-Above p lsn c h a = earlier-Above p lsn c h a

two-Above :
    (p lsn : ℕ) (c d : Option Entry)
    → p ≤ lsn
    → covers_lsn p true c ≡ true
    → covers_lsn p true d ≡ true
    → p ≤ first_lsn lsn (c ∷ d ∷ [])
unfolding first_lsn
two-Above p lsn c d h a b = earlier-Above p (earlier lsn c) d (earlier-Above p lsn c h a) b

insert-Above :
    (p : ℕ) (ev : ChangeEvent) (b : Buffer)
    → p ≤ ev.delivered
    → Above p b
    → Above p (add_insert ev b).0
unfolding add_insert
insert-Above p ev b h a = elim (Bool-cases (is_image (Assoc.lookup ev.key b.entries))) [
  | inl live ↦ rw (live, add_insert) a
  | inr free ↦ elim (Bool-cases (has_marker ev.columns)) [
    | inl omits ↦ rw (free, omits, add_insert) a
    | inr whole ↦
        rw (free, whole, add_insert)
          (put-Above p _ (mark_old_key_reused ev.key none b)
            (one-Above p ev.delivered (Assoc.lookup ev.key b.entries) h (a ev.key))
            (marked-Above p ev.key none b a))
  ]
]

update-Above :
    (p : ℕ) (ev : ChangeEvent) (b : Buffer)
    → p ≤ ev.delivered
    → Above p b
    → Above p (add_update ev b).0
update-Above p ev b h a = elim (update_cases ev b) [
  | inl (free, q) ↦ rw q (
      put-Above p (new_image ev.key none false ev.columns ev.delivered ev.xid)
        (mark_old_key_reused ev.key none b) h (marked-Above p ev.key none b a))
  | inr (inl (gone, q)) ↦ rw q a
  | inr (inr (live, q)) ↦ rw q (λ k.
      ap (covers_lsn p true) (lookup-overlay_entry ev.key k ev.columns ev.xid b.entries)
      ∙ (relaid_keeps (ev.key == k) ev.columns ev.xid (Assoc.lookup k b.entries) k k p true).3
      ∙ a k)
]

moved-Above :
    (p : ℕ) (ev : ChangeEvent) (old : Int64) (c d : Option Entry)
    → p ≤ ev.delivered
    → covers_lsn p true c ≡ true
    → covers_lsn p true d ≡ true
    → p ≤ (moved_image ev old c d).first_lsn
unfolding moved_image
moved-Above p ev old c none h a b = two-Above p ev.delivered c none h a b
moved-Above p ev old c (some from) h a b = elim (Option-cases from.old_key) [
  | inl e ↦ rw (e, moved_image) (two-Above p ev.delivered c (some from) h a b)
  | inr (origin, e) ↦ rw (e, moved_image) (two-Above p ev.delivered c (some from) h a b)
]

move-Above :
    (p : ℕ) (old : Int64) (ev : ChangeEvent) (b : Buffer)
    → p ≤ ev.delivered
    → Above p b
    → Above p (add_key_move old ev b).0
move-Above p old ev b h a = elim (move_cases old ev b) [
  | inl (live, q) ↦ rw q a
  | inr (inl (gone, q)) ↦ rw q a
  | inr (inr (fine, q)) ↦
      let cur = Assoc.lookup ev.key b.entries in
      let from = Assoc.lookup old b.entries in
      rw q (
        put-Above p (marker old (first_lsn ev.delivered (from ∷ [])) ev.xid)
          (put (moved_image ev old cur from) (mark_old_key_reused ev.key (key_of from) b))
          (one-Above p ev.delivered from h (a old))
          (put-Above p (moved_image ev old cur from) (mark_old_key_reused ev.key (key_of from) b)
            (moved-Above p ev old cur from h (a ev.key) (a old))
            (marked-Above p ev.key (key_of from) b a)))
]

update_or_move-Above :
    (p : ℕ) (o : Option Int64) (ev : ChangeEvent) (b : Buffer)
    → p ≤ ev.delivered
    → Above p b
    → Above p (update_or_move o ev b).0
unfolding update_or_move
update_or_move-Above p none ev b h a = update-Above p ev b h a
update_or_move-Above p (some old) ev b h a = elim (Bool-cases (old == ev.key)) [
  | inl same ↦ rw same (update-Above p ev b h a)
  | inr apart ↦ rw apart (move-Above p old ev b h a)
]

kind-Above :
    (p : ℕ) (kind : ChangeKind) (ev : ChangeEvent) (b : Buffer)
    → p ≤ ev.delivered
    → Above p b
    → Above p (add_kind kind ev b).0
unfolding add_kind add_delete
kind-Above p insert ev b h a = insert-Above p ev b h a
kind-Above p update ev b h a = update_or_move-Above p ev.old_key ev b h a
kind-Above p delete ev b h a =
    put-Above p (marker ev.key (first_lsn ev.delivered (Assoc.lookup ev.key b.entries ∷ [])) ev.xid)
      b (one-Above p ev.delivered (Assoc.lookup ev.key b.entries) h (a ev.key)) a
kind-Above p other_kind ev b h a = a

-- An event that arrived at or above the position, accepted or refused.
pub add-Above :
    (p : ℕ) (ev : ChangeEvent) (b : Buffer) → p ≤ ev.delivered → Above p b → Above p (add ev b).0
unfolding add
add-Above p ev b h a = kind-Above p ev.kind ev b h a

fill-Above :
    (p : ℕ) (k : Int64) (cols : List Column) (b : Buffer)
    → Above p b
    → (j : Int64) → covers_lsn p true (Assoc.lookup j (fill_entry k cols b.entries)) ≡ true
fill-Above p k cols b a j = ground (arith, lookup-fill_entry k j cols b.entries, a j)

release_key-Above :
    (p passed : ℕ) (k : Int64) (c : PendingCompletion) (r : Buffer × ℕ)
    → Above p r.0
    → Above p (release_key passed k c r).0
unfolding release_key
release_key-Above p passed k c (b, n) a = elim (Bool-cases (ltb passed c.read_lsn)) [
  | inl waits ↦ rw (waits, release_key) a
  | inr over ↦ rw (over, release_key) (fill-Above p k c.completed b a)
]

release_loop-Above :
    (p passed : ℕ) (m : Assoc PendingCompletion) (r : Buffer × ℕ)
    → Above p r.0
    → Above p (release_loop passed m r).0
unfolding release_loop
release_loop-Above p passed [] r a = a
release_loop-Above p passed ((k, c) ∷ m) r a =
    release_loop-Above p passed m (release_key passed k c r) (release_key-Above p passed k c r a)

pub release-Above : (p passed : ℕ) (b : Buffer) → Above p b → Above p (release passed b).0
unfolding release
release-Above p passed b a = release_loop-Above p passed b.pending (b, 0) a
