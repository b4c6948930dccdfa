-- ===== src/Applier/Flusher/Absences.antt =====
-- What waiting for an absent row does with every entry of a batch.
use pg_sprite.Applier.Hold.{entries_of, HeldImage}
use pg_sprite.Applier.Flusher.Moves.{held_entries, entries-append, append-AllImages}
use pg_sprite.Applier.Flusher.Accounts.{Accounts}
use pg_sprite.Applier.Buffer.{is_image}
use pg_sprite.Applier.Flusher.{
  Result, is_image, Holds, ◌>>=◌, success, raised, absent_again, Attempt, bind-Holds, Server,
  db_error,
}
use pg_sprite.Applier.Flusher.Moved.{
  checks_shadow_row, held_absent, hold_loop, hold_absent, checked_keys,
}
use mathlib.Core.List.{[]}
use pg_sprite.Applier.Hold.Unique.{Unique, append-Unique}
use pg_sprite.Applier.Entry.{Entry}
use pg_sprite.Prelude.Int64.{Int64}
use pg_sprite.Prelude.{
  List, ◌++◌, ◌∷◌, arith, ◌≡◌, if◌then◌else◌, ◌==◌, none, some, true, ap, ==_iff, false, ℕ, String,
  subst, sym, Option-cases, Bool, Option, inl, inr, ◌⊎◌, Bool-cases, not, refl, ◌∙◌, ◌||◌,
}
use pg_sprite.Applier.Drain.Fate.{find_entry}

distinct :
    (j k : Int64) (es : List Entry)
    → find_entry j es ≡ none
    → (e : Entry) → find_entry k es ≡ some e
    → (j == k) ≡ false
distinct j k es gone e there =
    ground
      (arith, gone, there, λ (q : (j == k) ≡ true). ap (λ i. find_entry i es) ((==_iff j k).0 q))

-- Entries of different keys, without the one in the middle.
middle :
    (k : Int64) (pre : List Entry) (e : Entry) (ls : List Entry)
    → Unique (pre ++ e ∷ ls)
    → (find_entry k (pre ++ ls) ≡ (if e.key == k then none else find_entry k (pre ++ e ∷ ls)))
      × (find_entry e.key (pre ++ e ∷ ls) ≡ some e)
unfolding find_entry
middle k [] e ls u = (
  ground
      (arith, u.0, λ (q : (e.key == k) ≡ true). ap (λ i. find_entry i ls) ((==_iff e.key k).0 q)),
  ground (arith, ==_iff e.key e.key),
)
middle k (p ∷ pre) e ls u =
    let (rest, found) = middle k pre e ls u.1 in
    let apart = distinct p.key e.key (pre ++ e ∷ ls) u.0 e found in
    (
      ground (arith, rest, apart, ==_iff p.key k, ==_iff e.key k, ==_iff p.key e.key),
      ground (arith, found, apart),
    )

middle-Unique :
    (pre : List Entry) (e : Entry) (ls : List Entry) → Unique (pre ++ e ∷ ls) → Unique (pre ++ ls)
middle-Unique [] e ls u = u.1
middle-Unique (p ∷ pre) e ls u =
    (ground (arith, (middle p.key pre e ls u.1).0, u.0), middle-Unique pre e ls u.1)

checked_image :
    (names : List String) (e : Entry) → checks_shadow_row names e ≡ true → is_image (some e) ≡ true
unfolding checks_shadow_row
checked_image names e h = ground (arith, h)

-- What the batch holds under a key is held or still to be written, never both.
not_held :
    (es : List Entry) (p : Result × List Entry) (k : Int64) (d : Entry)
    → Accounts es p
    → find_entry k p.1 ≡ some d
    → find_entry k (entries_of p.0.held) ≡ none
not_held es p k d a at = elim (Option-cases (find_entry k (entries_of p.0.held))) [
  | inl free ↦ free
  | inr (h, held) ↦ absurd (ground (arith, a.parted k, at, held))
]

-- The entry found after one more is held.
later_held :
    (es : List Entry) (k : Int64) (hs : List HeldImage) (lsn : ℕ) (e h : Entry) (old : Option Entry)
    → find_entry k (entries_of hs) ≡ old
    → find_entry e.key es ≡ some e
    → ((d : Entry)
        → find_entry k (entries_of hs) ≡ some d
        → (c : Entry) × (find_entry k es ≡ some c)
          × ((d ≡ c) ⊎ (d ≡ record c { absence_awaited = true })))
    → find_entry k (entries_of (hs ++ held_absent lsn e ∷ [])) ≡ some h
    → (c : Entry) × (find_entry k es ≡ some c)
      × ((h ≡ c) ⊎ (h ≡ record c { absence_awaited = true }))
later_held es k hs lsn e h (some d) was own earlier at =
    earlier h (ground (arith, held_entries k hs (held_absent lsn e), was, at))
later_held es k hs lsn e h none was own earlier at = elim (Bool-cases (e.key == k)) [
  | inl here ↦ (
    e,
    ap (λ i. find_entry i es) (sym ((==_iff e.key k).0 here)) ∙ own,
    inr (ground (arith, held_entries k hs (held_absent lsn e), was, at, here)),
  )
  | inr apart ↦ absurd (ground (arith, held_entries k hs (held_absent lsn e), was, at, apart))
]

-- An image taken out of the entries, and held until the stream has passed the check.
hold-Accounts :
    (es pre ls : List Entry) (e : Entry) (lsn : ℕ) (r : Result)
    → is_image (some e) ≡ true
    → Accounts es (r, pre ++ e ∷ ls)
    → Accounts es (record r { held = r.held ++ held_absent lsn e ∷ [] }, pre ++ ls)
hold-Accounts es pre ls e lsn r im a =
    let out = λ (k : Int64). middle k pre e ls a.written_once in
    let there = (out e.key).1 in
    let own = a.written_from e.key e there im in
    let held = λ (k : Int64). held_entries k r.held (held_absent lsn e) in
    let free = not_held es (r, pre ++ e ∷ ls) e.key e a there in
    record {
      parted = λ k. ground (arith, out k, held k, a.parted k);
      held_from = λ k h at.
          later_held es k r.held lsn e h (find_entry k (entries_of r.held)) refl own (a.held_from k)
            at;
      written_from = λ k d at im'. a.written_from k d (ground (arith, out k, at)) im';
      held_once = subst Unique (sym (entries-append r.held (held_absent lsn e ∷ []))) (
          append-Unique (entries_of r.held) (record e { absence_awaited = true }) a.held_once free);
      held_images = append-AllImages r.held (held_absent lsn e) a.held_images im;
      written_once = middle-Unique pre e ls a.written_once;
    }

append-one :
    (pre : List Entry) (e : Entry) (ls : List Entry) → (pre ++ e ∷ []) ++ ls ≡ pre ++ e ∷ ls
append-one [] e ls = refl
append-one (p ∷ pre) e ls = ap (λ es. p ∷ es) (append-one pre e ls)

-- The branches of the loop.
branch-Holds :
    (P : Result × List Entry → Type 0) (c t w : Bool) (keeps waits : Attempt (Result × List Entry))
    → Holds P keeps
    → (c ≡ true → Holds P waits)
    → Holds P (if not c || t then keeps else (if w then raised absent_again else waits))
branch-Holds P false t w keeps waits h g = h
branch-Holds P true true w keeps waits h g = h
branch-Holds P true false true keeps waits h g = tt
branch-Holds P true false false keeps waits h g = g refl

-- Every entry goes on to be written, or is held.
loop-Accounts :
    (names : List String) (there : Int64 → Bool) (lsn : ℕ) (es pre ls : List Entry) (r : Result)
    → Accounts es (r, pre ++ ls)
    → Holds (λ q. Accounts es (q.0, pre ++ q.1)) (hold_loop names there lsn ls r)
unfolding hold_loop
loop-Accounts names there lsn es pre [] r a = a
loop-Accounts names there lsn es pre (e ∷ ls) r a =
    let kept =
      bind-Holds (λ q. Accounts es (q.0, (pre ++ e ∷ []) ++ q.1))
        (λ q. Accounts es (q.0, pre ++ q.1)) (hold_loop names there lsn ls r)
        (λ q. success (q.0, e ∷ q.1))
        (loop-Accounts names there lsn es (pre ++ e ∷ []) ls r
          (subst (λ x. Accounts es (r, x)) (sym (append-one pre e ls)) a))
        (λ q b. subst (λ x. Accounts es (q.0, x)) (append-one pre e q.1) b) in
    let waits = λ (im : is_image (some e) ≡ true).
      loop-Accounts names there lsn es pre ls (record r { held = r.held ++ held_absent lsn e ∷ [] })
        (hold-Accounts es pre ls e lsn r im a) in
    branch-Holds (λ q. Accounts es (q.0, pre ++ q.1)) (checks_shadow_row names e) (there e.key)
      e.absence_awaited (hold_loop names there lsn ls r >>= (λ q. success (q.0, e ∷ q.1)))
      (hold_loop names there lsn ls (record r { held = r.held ++ held_absent lsn e ∷ [] })) kept
      (λ is. waits (checked_image names e is))

-- Waiting for absent rows splits a batch up further.
pub absent-Accounts :
    (sv : Server) (names : List String) (es : List Entry) (p : Result × List Entry)
    → Accounts es p
    → Holds (Accounts es) (hold_absent sv names p)
unfolding hold_absent
absent-Accounts sv names es (r, ls) a = go (checked_keys names ls)
  where
    read :
        (found : Option ((Int64 → Bool) × ℕ))
        → Holds (Accounts es) (elim found [
          | none ↦ raised db_error
          | some (there, lsn) ↦ hold_loop names there lsn ls r
        ])
    read none = tt
    read (some (there, lsn)) = loop-Accounts names there lsn es [] ls r a

    go :
        (ks : List Int64)
        → Holds (Accounts es) (elim ks [
          | [] ↦ success (r, ls)
          | k ∷ ks ↦ elim (sv.shadow_keys (k ∷ ks)) [
            | none ↦ raised db_error
            | some (there, lsn) ↦ hold_loop names there lsn ls r
          ]
        ])
    go [] = a
    go (k ∷ ks) = read (sv.shadow_keys (k ∷ ks))
