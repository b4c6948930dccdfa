-- ===== src/Applier/Flusher/Touches.antt =====
-- What the statements of a flush do: the keys that they name, their order, and the columns that they
-- carry.
use mathlib.Core.List.{[]}
use pg_sprite.Applier.Hold.{HeldImage}
use pg_sprite.Applier.Entry.{find_column, Column}
use pg_sprite.Applier.Flusher.Writes.{run, Written}
use pg_sprite.Prelude.{
  List, Bool, String, ◌≡◌, false, true, ◌∷◌, [], arith, if◌then◌else◌, refl, ◌==◌, ◌++◌, ◌&&◌, ◌||◌,
  not, Option-cases, ℕ, inl, ◌∙◌, inr, Option, some, subst, Bool-cases, ap, none, str_eq, sym,
  eq_iff,
}
use pg_sprite.Applier.Flusher.{
  Statement, split, Bool, Server, String, HeldImage, delete_row, false, true, upsert_row, Holds,
  update_row, insert_row, delete_rows, Executed, affected, success, raised, collision, db_error,
  collides, fails, present_column, some, sort_out,
}
use pg_sprite.Prelude.Int64.{Int64}

unfoldable pub names_key : Int64 → List Int64 → Bool
names_key k [] = false
names_key k (j ∷ js) = if j == k then true else names_key k js

-- The statement writes under the key.
unfoldable pub writes_key : Int64 → Statement → Bool
writes_key k (delete_row j) = j == k
writes_key k (upsert_row j cs) = j == k
writes_key k (update_row j cs) = j == k
writes_key k (insert_row j cs) = j == k
writes_key k (delete_rows js) = names_key k js

unfoldable pub touches : Int64 → List Statement → Bool
touches k [] = false
touches k (st ∷ sts) = if writes_key k st then true else touches k sts

abbrev pub is_delete : Statement → Bool
is_delete (delete_row j) = true
is_delete (upsert_row j cs) = false
is_delete (update_row j cs) = false
is_delete (insert_row j cs) = false
is_delete (delete_rows js) = true

unfoldable pub all_deletes : List Statement → Bool
all_deletes [] = true
all_deletes (st ∷ sts) = if is_delete st then all_deletes sts else false

unfoldable pub no_deletes : List Statement → Bool
no_deletes [] = true
no_deletes (st ∷ sts) = if is_delete st then false else no_deletes sts

-- No delete comes after an image.
unfoldable pub deletes_first : List Statement → Bool
deletes_first [] = true
deletes_first (st ∷ sts) = if is_delete st then deletes_first sts else no_deletes sts

-- The columns are these, and each has a value.
abbrev pub Carries : List String → List Column → Type 0
Carries [] [] = Unit {0}
Carries [] (c ∷ cs) = ⊥
Carries (n ∷ ns) [] = ⊥
Carries (n ∷ ns) (c ∷ cs) = (c.name ≡ n) × (c.present ≡ true) × Carries ns cs

-- A statement that can make a row carries every writable column.
abbrev pub IsWhole : List String → Statement → Type 0
IsWhole names (delete_row j) = Unit {0}
IsWhole names (upsert_row j cs) = Carries names cs
IsWhole names (update_row j cs) = Unit {0}
IsWhole names (insert_row j cs) = Carries names cs
IsWhole names (delete_rows js) = Unit {0}

abbrev pub AllWhole : List String → List Statement → Type 0
AllWhole names [] = Unit {0}
AllWhole names (st ∷ sts) = IsWhole names st × AllWhole names sts

pub touches-append :
    (k : Int64) (sts : List Statement) (st : Statement)
    → touches k (sts ++ st ∷ []) ≡ (touches k sts || writes_key k st)
unfolding touches
touches-append k [] st = ground arith
touches-append k (x ∷ xs) st = ground (arith, touches-append k xs st)

all_deletes-append :
    (sts : List Statement) (st : Statement)
    → all_deletes (sts ++ st ∷ []) ≡ (all_deletes sts && is_delete st)
unfolding all_deletes
all_deletes-append [] st = ground arith
all_deletes-append (x ∷ xs) st = ground (arith, all_deletes-append xs st)

no_deletes-append :
    (sts : List Statement) (st : Statement)
    → no_deletes (sts ++ st ∷ []) ≡ (no_deletes sts && not (is_delete st))
unfolding no_deletes
no_deletes-append [] st = ground arith
no_deletes-append (x ∷ xs) st = ground (arith, no_deletes-append xs st)

deletes_first-append :
    (sts : List Statement) (st : Statement)
    → is_delete st ≡ false
    → deletes_first sts ≡ true
    → deletes_first (sts ++ st ∷ []) ≡ true
unfolding deletes_first no_deletes
deletes_first-append [] st d h = ground (arith, d)
deletes_first-append (x ∷ xs) st d h =
    ground (arith, deletes_first-append xs st d, no_deletes-append xs st, d, h)

pub all_deletes_first : (sts : List Statement) → all_deletes sts ≡ true → deletes_first sts ≡ true
unfolding all_deletes deletes_first
all_deletes_first [] h = refl
all_deletes_first (x ∷ xs) h = ground (arith, all_deletes_first xs, h)

append-AllWhole :
    (names : List String) (sts : List Statement) (st : Statement)
    → AllWhole names sts
    → IsWhole names st
    → AllWhole names (sts ++ st ∷ [])
append-AllWhole names [] st a w = (w, tt)
append-AllWhole names (x ∷ xs) st a w = (a.0, append-AllWhole names xs st a.1 w)

find_column_name :
    (n : String) (cs : List Column) (c : Column) → find_column n cs ≡ some c → c.name ≡ n
unfolding find_column
find_column_name n [] c h = absurd (ground (arith, h))
find_column_name n (d ∷ ds) c h = elim (Bool-cases (str_eq d.name n)) [
  | inl same ↦
      let at : c ≡ d = ground (arith, h, same) in ap (λ x. x.name) at ∙ (eq_iff d.name n).0 same
  | inr apart ↦ find_column_name n ds c (ground (arith, h, apart))
]

checked_column :
    (d c : Column) → (if d.present then some d else none) ≡ some c → (d ≡ c) × (d.present ≡ true)
checked_column d c h = elim (Bool-cases d.present) [
  | inl full ↦ (ground (arith, h, full), full)
  | inr empty ↦ absurd (ground (arith, h, empty))
]

present_column_fits :
    (n : String) (cs : List Column) (c : Column)
    → present_column n cs ≡ some c
    → (c.name ≡ n) × (c.present ≡ true)
present_column_fits n cs c h = elim (Option-cases (find_column n cs)) [
  | inl gone ↦ absurd (ground (arith, h, gone))
  | inr (d, there) ↦
      let (same, full) = checked_column d c (
        ap (λ o. elim o [ none ↦ none | some x ↦ if x.present then some x else none ]) (sym there)
        ∙ h) in
      (
        sym (ap (λ x. x.name) same) ∙ find_column_name n cs d there,
        sym (ap (λ x. x.present) same) ∙ full,
      )
]

sorted-Carries :
    (n : String) (ns : List String) (o : Option Column) (r : List Column × List String)
    (present : List Column)
    → ((c : Column) → o ≡ some c → (c.name ≡ n) × (c.present ≡ true))
    → ((ps : List Column) → r ≡ (ps, []) → Carries ns ps)
    → sort_out n o r ≡ (present, [])
    → Carries (n ∷ ns) present
sorted-Carries n ns none (ps, ms) present f g h = absurd (ground (arith, ap (λ q. q.1) h))
sorted-Carries n ns (some c) (ps, []) present f g h =
    subst (Carries (n ∷ ns)) (ap (λ q. q.0) h) ((f c refl).0, (f c refl).1, g ps refl)
sorted-Carries n ns (some c) (ps, m ∷ ms) present f g h = absurd (ground (arith, ap (λ q. q.1) h))

-- Where no column is missing, the columns that an image is split into are the writable ones.
pub split-Carries :
    (names : List String) (cs present : List Column)
    → split names cs ≡ (present, [])
    → Carries names present
unfolding split
split-Carries [] cs present h = subst (Carries []) (ap (λ q. q.0) h) tt
split-Carries (n ∷ ns) cs present h =
    sorted-Carries n ns (present_column n cs) (split ns cs) present
      (λ c at. present_column_fits n cs c at) (λ ps at. split-Carries ns cs ps at) h

-- The statements of a flush so far. In the first phase all of them delete.
pub record Trace (names : List String) (keys : Int64 → Bool) (first : Bool) (held : List HeldImage)
    (w : Written) : Type 0 where
  pub touched : (k : Int64) → touches k w.0 ≡ keys k
  pub order : (if first then all_deletes w.0 else deletes_first w.0) ≡ true
  pub whole : AllWhole names w.0
  pub kept : w.1.held ≡ held

-- A statement that the phase allows.
pub run-Trace :
    (sv : Server) (names : List String) (keys : Int64 → Bool) (first : Bool) (held : List HeldImage)
    (st : Statement) (w : Written)
    → is_delete st ≡ first
    → IsWhole names st
    → Trace names keys first held w
    → Holds
        (λ (q : ℕ × Written). Trace names (λ k. keys k || writes_key k st) first held q.1)
        (run sv st w)
unfolding run
run-Trace sv names keys first held st (sts, r) d s t = go (sv.execute sts st)
  where
    still :
        (f : Bool)
        → first ≡ f
        → (if f then all_deletes (sts ++ st ∷ []) else deletes_first (sts ++ st ∷ [])) ≡ true
    still true is = ground (arith, all_deletes-append sts st, t.order, is, d)
    still false is = deletes_first-append sts st (d ∙ is) (ground (arith, t.order, is))

    go :
        (x : Executed)
        → Holds
            (λ (q : ℕ × Written). Trace names (λ k. keys k || writes_key k st) first held q.1)
            (elim x [
              | affected n ↦ success (n, (sts ++ st ∷ [], r))
              | collides ↦ raised collision
              | fails ↦ raised db_error
            ])
    go (affected n) = record {
      touched = λ k. ground (arith, touches-append k sts st, t.touched k);
      order = still first refl;
      whole = append-AllWhole names sts st t.whole s;
      kept = t.kept;
    }
    go collides = tt
    go fails = tt
