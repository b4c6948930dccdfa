-- ===== src/Applier/Hold/Release.antt =====
-- What Release does with each pending completion.
use pg_sprite.Applier.Buffer.{Buffer, PendingCompletion}
use pg_sprite.Prelude.Int64.{Int64}
use pg_sprite.Applier.Entry.{Column, Entry, fill, find_column, find-fill_known}
use pg_sprite.Applier.Hold.{fill_entry, release, release_key, release_loop, Int64, Option, ltb}
use pg_sprite.Prelude.{
  [], ◌∷◌, none, some, true, inl, inr, refl, List, ℕ, Option, ◌≡◌, arith, if◌then◌else◌, ltb, ◌==◌,
  ap, ◌&&◌, ==_iff, not, String, ◌∙◌, Option-cases, Bool-cases,
}
use pg_sprite.Prelude.Assoc
use pg_sprite.Prelude.Assoc.{Assoc, HasKeysOnce, lookup-delete}

-- The entry with a completion filled in.
abbrev pub filled : List Column → Option Entry → Option Entry
filled cols none = none
filled cols (some e) = some (record e { columns = fill e.columns cols })

-- The entry as a completion leaves it, if there is one and the stream has passed its read.
abbrev pub completed_by : ℕ → Option PendingCompletion → Option Entry → Option Entry
completed_by passed none d = d
completed_by passed (some p) d = if ltb passed p.read_lsn then d else filled p.completed d

-- What is left of the completion under a key, from the one that the loop sees and the one there is.
abbrev left_by : ℕ → Option PendingCompletion → Option PendingCompletion → Option PendingCompletion
left_by passed none d = d
left_by passed (some p) d = if ltb passed p.read_lsn then d else none

abbrev pub waiting : ℕ → Option PendingCompletion → Option PendingCompletion
waiting passed none = none
waiting passed (some p) = if ltb passed p.read_lsn then some p else none

pub lookup-fill_entry :
    (k j : Int64) (cols : List Column) (m : Assoc Entry)
    → Assoc.lookup j (fill_entry k cols m)
      ≡ (if k == j then filled cols (Assoc.lookup j m) else Assoc.lookup j m)
unfolding fill_entry Assoc.lookup
lookup-fill_entry k j cols [] = ground arith
lookup-fill_entry k j cols ((i, e) ∷ m) = ground (arith, lookup-fill_entry k j cols m)

round :
    (passed : ℕ) (k j : Int64) (p : PendingCompletion) (r : Buffer × ℕ)
    → (Assoc.lookup j (release_key passed k p r).0.entries ≡ (
        if k == j
        then completed_by passed (some p) (Assoc.lookup j r.0.entries)
        else Assoc.lookup j r.0.entries))
      × (Assoc.lookup j (release_key passed k p r).0.pending
          ≡ (if k == j && not (ltb passed p.read_lsn) then none else Assoc.lookup j r.0.pending))
unfolding release_key
round passed k j p (b, n) =
    ground (arith, lookup-fill_entry k j p.completed b.entries, lookup-delete k j b.pending)

loop_entries :
    (passed : ℕ) (m : Assoc PendingCompletion) (r : Buffer × ℕ) (j : Int64)
    → HasKeysOnce m
    → Assoc.lookup j (release_loop passed m r).0.entries
      ≡ completed_by passed (Assoc.lookup j m) (Assoc.lookup j r.0.entries)
unfolding release_loop Assoc.lookup
loop_entries passed [] r j h = refl
loop_entries passed ((k, p) ∷ m) r j h = ground (
  arith,
  loop_entries passed m (release_key passed k p r) j h.1,
  (round passed k j p r).0,
  h.0,
  λ (q : (k == j) ≡ true). ap (λ i. Assoc.lookup i m) ((==_iff k j).0 q),
)

loop_pending :
    (passed : ℕ) (m : Assoc PendingCompletion) (r : Buffer × ℕ) (j : Int64)
    → HasKeysOnce m
    → Assoc.lookup j (release_loop passed m r).0.pending
      ≡ left_by passed (Assoc.lookup j m) (Assoc.lookup j r.0.pending)
unfolding release_loop Assoc.lookup
loop_pending passed [] r j h = refl
loop_pending passed ((k, p) ∷ m) r j h = ground (
  arith,
  loop_pending passed m (release_key passed k p r) j h.1,
  (round passed k j p r).1,
  h.0,
  λ (q : (k == j) ≡ true). ap (λ i. Assoc.lookup i m) ((==_iff k j).0 q),
)

waiting_left : (passed : ℕ) (d : Option PendingCompletion) → left_by passed d d ≡ waiting passed d
waiting_left passed d = ground arith

-- Where no key has two completions, Release takes the completions whose reads the stream has passed,
-- each into its own key's entry, and leaves every other completion and every other entry as it was.
pub release_keys :
    (passed : ℕ) (b : Buffer) (k : Int64)
    → HasKeysOnce b.pending
    → (Assoc.lookup k (release passed b).0.entries
        ≡ completed_by passed (Assoc.lookup k b.pending) (Assoc.lookup k b.entries))
      × (Assoc.lookup k (release passed b).0.pending ≡ waiting passed (Assoc.lookup k b.pending))
unfolding release
release_keys passed b k h = (
  loop_entries passed b.pending (b, 0) k h,
  loop_pending passed b.pending (b, 0) k h ∙ waiting_left passed (Assoc.lookup k b.pending),
)

-- Where no key has two completions, what Release does never replaces a value that an image already has.
pub release_known :
    (passed : ℕ) (b : Buffer) (k : Int64) (e : Entry) (n : String) (c : Column)
    → HasKeysOnce b.pending
    → Assoc.lookup k b.entries ≡ some e
    → find_column n e.columns ≡ some c
    → c.present ≡ true
    → (d : Entry) × (Assoc.lookup k (release passed b).0.entries ≡ some d)
      × (find_column n d.columns ≡ some c)
release_known passed b k e n c h at known present = elim (Option-cases (Assoc.lookup k b.pending)) [
  | inl nothing ↦ (e, ground (arith, release_keys passed b k h), known)
  | inr (p, there) ↦ elim (Bool-cases (ltb passed p.read_lsn)) [
    | inl later ↦ (e, ground (arith, release_keys passed b k h), known)
    | inr now ↦ (
      record e { columns = fill e.columns p.completed },
      ground (arith, release_keys passed b k h),
      find-fill_known n e.columns p.completed c known present,
    )
  ]
]
