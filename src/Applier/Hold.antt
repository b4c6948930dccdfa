-- ===== src/Applier/Hold.antt =====
-- pkg/applier/hold.go and pkg/applier/requeue.go: the entries that a flush gives back to the buffer,
-- and the completions that wait for the stream.
pub mod Unique
pub mod Return
pub mod Release
pub mod Kept
use pg_sprite.Applier.Buffer.Invariant.{is_some}
use pg_sprite.Applier.Drain.{Batch}
use pg_sprite.Prelude.Int64.{Int64}
use pg_sprite.Prelude.{
  [], ◌∷◌, none, some, true, false, inl, inr, refl, List, ℕ, Bool, Option, if◌then◌else◌, ltb, not,
  ◌==◌, ◌+◌,
}
use pg_sprite.Prelude.Assoc
use pg_sprite.Prelude.Assoc.{Assoc}
use pg_sprite.Applier.Buffer.{Buffer, PendingCompletion, put}
use pg_sprite.Applier.Entry.{Entry, Column, shadow_form, fill}

pub record HeldImage : Type 0 where
  pub entry : Entry
  pub completed : List Column
  pub from_source : Bool
  pub read_lsn : ℕ

unfoldable pub in_shadow_form : List Column → List Column
in_shadow_form [] = []
in_shadow_form (c ∷ cs) =
    (if not c.present then c else record c { value = shadow_form c.value; present = true })
    ∷ in_shadow_form cs

-- ErrInvariantViolation, with the key that is taken
pub data HoldError : Type 0 where
  taken : Int64 → HoldError

unfoldable pub first_taken : List Entry → Buffer → Option HoldError
first_taken [] b = none
first_taken (e ∷ es) b =
    if is_some (Assoc.lookup e.key b.entries) then some (taken e.key) else first_taken es b

unfoldable pub requeue_loop : List Entry → Buffer → Buffer
requeue_loop [] b = b
requeue_loop (e ∷ es) b = requeue_loop es (put e b)

unfoldable pub requeue : Batch → Buffer → Buffer × Option HoldError
requeue t b = elim (first_taken t.entries b) [
  | none ↦ (requeue_loop t.entries b, none)
  | some e ↦ (b, some e)
]

abbrev pub completion : HeldImage → PendingCompletion
completion h = record {
  completed = if not h.from_source then in_shadow_form h.completed else h.completed;
  read_lsn = h.read_lsn;
}

unfoldable pub hold_image : HeldImage → Buffer → Buffer
hold_image h b =
    let stored = put h.entry b in
    record stored { pending = Assoc.insert h.entry.key (completion h) stored.pending }

unfoldable pub hold_loop : List HeldImage → Buffer → Buffer
unfolding hold_image
hold_loop [] b = b
hold_loop (h ∷ hs) b = hold_loop hs (hold_image h b)

abbrev pub entries_of : List HeldImage → List Entry
entries_of [] = []
entries_of (h ∷ hs) = h.entry ∷ entries_of hs

unfoldable pub hold : List HeldImage → Buffer → Buffer × Option HoldError
hold hs b = elim (first_taken (entries_of hs) b) [
  | none ↦ (hold_loop hs b, none)
  | some e ↦ (b, some e)
]

unfoldable pub fill_entry : Int64 → List Column → Assoc Entry → Assoc Entry
fill_entry k cols [] = []
fill_entry k cols ((j, e) ∷ m) =
    let rest = fill_entry k cols m in
    if j == k then (j, record e { columns = fill e.columns cols }) ∷ rest else (j, e) ∷ rest

-- One round of Release: the completion is taken, or it stays.
unfoldable pub release_key : ℕ → Int64 → PendingCompletion → Buffer × ℕ → Buffer × ℕ
release_key passed k p (b, count) = if ltb passed p.read_lsn then (b, count) else (
  record b { entries = fill_entry k p.completed b.entries; pending = Assoc.delete k b.pending },
  count + 1,
)

unfoldable pub release_loop : ℕ → Assoc PendingCompletion → Buffer × ℕ → Buffer × ℕ
release_loop passed [] r = r
release_loop passed ((k, p) ∷ m) r = release_loop passed m (release_key passed k p r)

unfoldable pub release : ℕ → Buffer → Buffer × ℕ
release passed b = release_loop passed b.pending (b, 0)
