-- ===== src/Applier/Flusher/Moved.antt =====
-- pkg/applier/complete.go, `completeMoved` of pkg/applier/flusher.go and `holdAbsent` of
-- pkg/applier/absent.go: the images that a flush completes or waits for instead of writing them.
use pg_sprite.Applier.Buffer.Invariant.{is_some}
use pg_sprite.Applier.Buffer.{is_image}
use pg_sprite.Applier.Drain.{complete_first}
use pg_sprite.Prelude.Int64.{Int64}
use pg_sprite.Applier.Hold.{HeldImage}
use pg_sprite.Prelude.Assoc.{Assoc}
use pg_sprite.Applier.Entry.{Entry, delete_marker}
use pg_sprite.Applier.Flusher.{
  Result, Server, Completion, HeldImage, String, Attempt, Int64, some, complete_from, raised, split,
  success, db_error, empty_result, nil_old_key, ◌>>=◌, not, absent_again, is_empty,
}
use pg_sprite.Prelude.{
  Bool, List, Option, ℕ, String, ◌∷◌, none, true, [], false, if◌then◌else◌, not, ◌++◌, ◌||◌,
}
use pg_sprite.Prelude.Assoc

abbrev pub held_from : Bool → Entry → Completion → HeldImage
held_from from_source e c = record {
  entry = e;
  completed = c.columns;
  from_source = from_source;
  read_lsn = c.read_lsn;
}

abbrev pub source_image : Server → List String → Entry → Attempt (Option HeldImage)
source_image sv markers e = complete_from markers (sv.source_row e.key markers) >>= λ c.
    success (elim c [ none ↦ none | some q ↦ some (held_from true e q) ])

-- The source row is read where the shadow holds no row under the old key.
abbrev pub or_source : Server → List String → Entry → Option Completion → Attempt (Option HeldImage)
or_source sv markers e none = source_image sv markers e
or_source sv markers e (some c) = success (some (held_from false e c))

unfoldable pub complete_one : Server → List String → Int64 → Entry → Attempt (Option HeldImage)
complete_one sv names old e =
    let markers = (split names e.columns).1 in
    if not e.old_key_reused
    then complete_from markers (sv.shadow_row old markers) >>= or_source sv markers e
    else source_image sv markers e

-- Dereferencing an old key that is not there panics; CompleteFirst names no such entry.
abbrev pub complete_named : Server → List String → Entry → Attempt (Option HeldImage)
complete_named sv names e = elim e.old_key [
  | none ↦ raised nil_old_key
  | some old ↦ complete_one sv names old e
]

abbrev pub replacement : Entry → Entry
replacement e = record {
  key = e.key;
  kind = delete_marker;
  old_key = none;
  old_key_reused = false;
  absence_awaited = false;
  columns = [];
  first_lsn = e.first_lsn;
  xid = e.xid;
}

-- The result so far, and what takes the place of each image, nothing where it is held.
abbrev pub Replaced : Type 0
Replaced = Result × Assoc (Option Entry)

abbrev pub replace : Entry → Replaced → Option HeldImage → Replaced
replace e (r, m) (some h) = (record r { held = r.held ++ h ∷ [] }, Assoc.insert e.key none m)
replace e (r, m) none =
    (record r { skipped = r.skipped ++ e.key ∷ [] }, Assoc.insert e.key (some (replacement e)) m)

unfoldable pub complete_loop : Server → List String → List Entry → Replaced → Attempt Replaced
complete_loop sv names [] r = success r
complete_loop sv names (e ∷ es) r =
    complete_named sv names e >>= λ h. complete_loop sv names es (replace e r h)

abbrev pub replace_entry : Option (Option Entry) → Entry → List Entry → List Entry
replace_entry none e es = e ∷ es
replace_entry (some none) e es = es
replace_entry (some (some d)) e es = d ∷ es

unfoldable pub replace_entries : Assoc (Option Entry) → List Entry → List Entry
replace_entries m [] = []
replace_entries m (e ∷ es) = replace_entry (Assoc.lookup e.key m) e (replace_entries m es)

unfoldable pub complete_moved : Server → List String → List Entry → Attempt (Result × List Entry)
complete_moved sv names es = elim (complete_first es) [
  | [] ↦ success (empty_result, es)
  | e ∷ named ↦ complete_loop sv names (e ∷ named) (empty_result, []) >>= λ q.
      success (q.0, replace_entries q.1 es)
]

unfoldable pub checks_shadow_row : List String → Entry → Bool
checks_shadow_row names e =
    if not (is_image (some e)) || is_some e.old_key
    then false
    else (if e.absence_awaited then true else not (is_empty (split names e.columns).1))

unfoldable pub checked_keys : List String → List Entry → List Int64
checked_keys names [] = []
checked_keys names (e ∷ es) =
    let rest = checked_keys names es in if checks_shadow_row names e then e.key ∷ rest else rest

abbrev pub held_absent : ℕ → Entry → HeldImage
held_absent lsn e = record {
  entry = record e { absence_awaited = true };
  completed = [];
  from_source = false;
  read_lsn = lsn;
}

-- The loop of holdAbsent, over what the check found.
unfoldable pub hold_loop :
    List String → (Int64 → Bool) → ℕ → List Entry → Result → Attempt (Result × List Entry)
hold_loop names there lsn [] r = success (r, [])
hold_loop names there lsn (e ∷ es) r =
    if not (checks_shadow_row names e) || there e.key
    then hold_loop names there lsn es r >>= (λ q. success (q.0, e ∷ q.1))
    else (if e.absence_awaited
        then raised absent_again
        else hold_loop names there lsn es (record r { held = r.held ++ held_absent lsn e ∷ [] }))

unfoldable pub hold_absent :
    Server → List String → Result × List Entry → Attempt (Result × List Entry)
hold_absent sv names (r, es) = elim (checked_keys names es) [
  | [] ↦ success (r, es)
  | k ∷ ks ↦ elim (sv.shadow_keys (k ∷ ks)) [
    | none ↦ raised db_error
    | some (there, lsn) ↦ hold_loop names there lsn es r
  ]
]
