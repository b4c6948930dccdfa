-- ===== src/Applier/Flusher/Accounts.antt =====
-- The accounts of a batch: what is written, what is held, and that it is never both.
use pg_sprite.Applier.Drain.{complete_first}
use pg_sprite.Applier.Hold.Return.{AllImages}
use pg_sprite.Applier.Buffer.{is_image}
use pg_sprite.Applier.Hold.{entries_of}
use pg_sprite.Applier.Buffer.Invariant.{is_some}
use pg_sprite.Applier.Flusher.Moves.{
  Open, Replacing, Fits, Named, loop-Replacing, complete_first-Named,
}
use pg_sprite.Applier.Hold.Unique.{Unique}
use pg_sprite.Prelude.Int64.{Int64}
use pg_sprite.Applier.Flusher.{
  Server, Int64, Result, some, Holds, empty_result, not, success, ◌>>=◌, bind-Holds,
}
use pg_sprite.Applier.Entry.{Entry}
use pg_sprite.Applier.Flusher.Moved.{
  complete_moved, replace_entries, Replaced, replace_entry, complete_loop,
}
use pg_sprite.Applier.Drain.Fate.{find_entry}
use pg_sprite.Prelude.Assoc.{Assoc}
use pg_sprite.Prelude.{
  List, Option, String, none, ◌≡◌, [], arith, refl, subst, ◌∷◌, ap, sym, ◌&&◌, ◌∙◌, ==_iff, inl,
  not, true, ◌⊎◌, if◌then◌else◌, ◌==◌, Bool-cases, inr,
}
use pg_sprite.Prelude.Assoc

-- How a batch was split up so far: an entry is still to be written, or it is held, and never both. A held
-- entry is an image of the batch but for its mark, and an image still to be written is the batch's own.
pub record Accounts (es : List Entry) (p : Result × List Entry) : Type 0 where
  pub parted :
      (k : Int64)
      → is_some (find_entry k p.1)
        ≡ (is_some (find_entry k es) && not (is_some (find_entry k (entries_of p.0.held))))
  pub held_from :
      (k : Int64) (h : Entry)
      → find_entry k (entries_of p.0.held) ≡ some h
      → (e : Entry) × (find_entry k es ≡ some e)
        × ((h ≡ e) ⊎ (h ≡ record e { absence_awaited = true }))
  pub written_from :
      (k : Int64) (d : Entry)
      → find_entry k p.1 ≡ some d
      → is_image (some d) ≡ true
      → find_entry k es ≡ some d
  pub held_once : Unique (entries_of p.0.held)
  pub held_images : AllImages p.0.held
  pub written_once : Unique p.1

-- The entry that stands under a key after the replacements.
abbrev stands : Option (Option Entry) → Option Entry → Option Entry
stands none d = d
stands (some none) d = none
stands (some (some c)) d = if is_some d then some c else none

-- What takes an entry's place stands under the entry's key.
abbrev OwnKeys : Assoc (Option Entry) → Type 0
OwnKeys m = (k : Int64) (d : Entry) → Assoc.lookup k m ≡ some (some d) → d.key ≡ k

stands-replace_entry :
    (v w : Option (Option Entry)) (e : Entry) (ds : List Entry) (x : Option Entry) (k : Int64)
    → ((d : Entry) → v ≡ some (some d) → d.key ≡ e.key)
    → ((e.key == k) ≡ true → w ≡ v)
    → find_entry k ds ≡ stands w x
    → find_entry k (replace_entry v e ds) ≡ stands w (if e.key == k then some e else x)
unfolding find_entry
stands-replace_entry none w e ds x k own same rest = elim (Bool-cases (e.key == k)) [
  | inl here ↦ rw (here, same here) refl
  | inr apart ↦ rw apart rest
]
stands-replace_entry (some none) w e ds x k own same rest = elim (Bool-cases (e.key == k)) [
  | inl here ↦ rw (here, same here) (rest ∙ ap (λ z. stands z x) (same here))
  | inr apart ↦ rw apart rest
]
stands-replace_entry (some (some d)) w e ds x k own same rest = elim (Bool-cases (e.key == k)) [
  | inl here ↦ rw (ap (λ i. i == k) (own d refl) ∙ here, here, same here) refl
  | inr apart ↦ rw (ap (λ i. i == k) (own d refl) ∙ apart, apart) rest
]

find-replace_entries :
    (m : Assoc (Option Entry)) (es : List Entry) (k : Int64)
    → OwnKeys m
    → find_entry k (replace_entries m es) ≡ stands (Assoc.lookup k m) (find_entry k es)
unfolding find_entry replace_entries
find-replace_entries m [] k own = ground arith
find-replace_entries m (e ∷ es) k own =
    stands-replace_entry (Assoc.lookup e.key m) (Assoc.lookup k m) e (replace_entries m es)
      (find_entry k es) k (λ d at. own e.key d at)
      (λ same. sym (ap (λ i. Assoc.lookup i m) ((==_iff e.key k).0 same)))
      (find-replace_entries m es k own)

replace_entry-Unique :
    (v : Option (Option Entry)) (e : Entry) (ds : List Entry)
    → ((d : Entry) → v ≡ some (some d) → d.key ≡ e.key)
    → find_entry e.key ds ≡ none
    → Unique ds
    → Unique (replace_entry v e ds)
replace_entry-Unique none e ds own new u = (new, u)
replace_entry-Unique (some none) e ds own new u = u
replace_entry-Unique (some (some d)) e ds own new u =
    (ap (λ i. find_entry i ds) (own d refl) ∙ new, u)

stands-none : (w : Option (Option Entry)) → stands w none ≡ none
stands-none none = refl
stands-none (some none) = refl
stands-none (some (some d)) = refl

replace_entries-Unique :
    (m : Assoc (Option Entry)) (es : List Entry)
    → OwnKeys m
    → Unique es
    → Unique (replace_entries m es)
unfolding replace_entries
replace_entries-Unique m [] own u = tt
replace_entries-Unique m (e ∷ es) own u =
    replace_entry-Unique (Assoc.lookup e.key m) e (replace_entries m es) (λ d at. own e.key d at)
      (find-replace_entries m es e.key own
        ∙ ap (stands (Assoc.lookup e.key m)) u.0
        ∙ stands-none (Assoc.lookup e.key m))
      (replace_entries-Unique m es own u.1)

Replacing-OwnKeys : (es : List Entry) (q : Replaced) → Replacing es q → OwnKeys q.1
Replacing-OwnKeys es q g k d at =
    (subst (λ v. Fits es k v (find_entry k (entries_of q.0.held))) at (g.fits k)).1

-- The accounts, from how the entry under each key fits.
Fits-parted :
    (es : List Entry) (k : Int64) (v : Option (Option Entry)) (h : Option Entry)
    → Fits es k v h
    → is_some (stands v (find_entry k es)) ≡ (is_some (find_entry k es) && not (is_some h))
Fits-parted es k none h f = ground (arith, f)
Fits-parted es k (some none) h (e, p, q) = ground (arith, p, q)
Fits-parted es k (some (some d)) h f = ground (arith, f)

Fits-held :
    (es : List Entry) (k : Int64) (v : Option (Option Entry)) (h : Entry)
    → Fits es k v (some h)
    → find_entry k es ≡ some h
Fits-held es k none h f = absurd (ground (arith, f))
Fits-held es k (some none) h (e, p, q) = ground (arith, p, q)
Fits-held es k (some (some d)) h f = absurd (ground (arith, f))

Fits-written :
    (es : List Entry) (k : Int64) (v : Option (Option Entry)) (h : Option Entry) (d : Entry)
    → Fits es k v h
    → stands v (find_entry k es) ≡ some d
    → is_image (some d) ≡ true
    → find_entry k es ≡ some d
Fits-written es k none h d f at im = at
Fits-written es k (some none) h d f at im = absurd (ground (arith, at))
Fits-written es k (some (some c)) h d f at im =
    ground (arith, f, at, im, λ (q : c ≡ d). ap (λ x. is_image (some x)) q)

replaced-Accounts :
    (es : List Entry) (q : Replaced)
    → Unique es
    → Replacing es q
    → Accounts es (q.0, replace_entries q.1 es)
replaced-Accounts es q u g =
    let own = Replacing-OwnKeys es q g in
    let held = λ (k : Int64). find_entry k (entries_of q.0.held) in
    record {
      parted = λ k.
          ap is_some (find-replace_entries q.1 es k own)
          ∙ Fits-parted es k (Assoc.lookup k q.1) (held k) (g.fits k);
      held_from = λ k h at. (
        h,
        Fits-held es k (Assoc.lookup k q.1) h
            (subst (Fits es k (Assoc.lookup k q.1)) at (g.fits k)),
        inl refl,
      );
      written_from = λ k d at im.
          Fits-written es k (Assoc.lookup k q.1) (held k) d (g.fits k)
            (sym (find-replace_entries q.1 es k own) ∙ at) im;
      held_once = g.once;
      held_images = g.images;
      written_once = replace_entries-Unique q.1 es own u;
    }

none-Accounts : (es : List Entry) → Unique es → Accounts es (empty_result, es)
unfolding find_entry
none-Accounts es u = record {
  parted = λ k. ground arith;
  held_from = λ k h at. absurd (ground arith);
  written_from = λ k d at im. at;
  held_once = tt;
  held_images = tt;
  written_once = u;
}

none-Replacing : (es : List Entry) → Replacing es (empty_result, [])
unfolding find_entry Assoc.lookup
none-Replacing es = record { fits = λ k. refl; once = tt; images = tt }

all-Open : (ns : List Entry) → Open ns []
unfolding Assoc.lookup
all-Open [] = tt
all-Open (n ∷ ns) = (refl, all-Open ns)

-- Completing the moved images of a batch splits it up.
pub moved-Accounts :
    (sv : Server) (names : List String) (es : List Entry)
    → Unique es
    → Holds (Accounts es) (complete_moved sv names es)
unfolding complete_moved
moved-Accounts sv names es u = go (complete_first es) (complete_first-Named es u)
  where
    go :
        (ns : List Entry)
        → Named es ns × Unique ns
        → Holds (Accounts es) (elim ns [
          | [] ↦ success (empty_result, es)
          | e ∷ named ↦ complete_loop sv names (e ∷ named) (empty_result, []) >>= λ q.
              success (q.0, replace_entries q.1 es)
        ])
    go [] n = none-Accounts es u
    go (e ∷ named) n =
        bind-Holds (Replacing es) (Accounts es)
          (complete_loop sv names (e ∷ named) (empty_result, []))
          (λ q. success (q.0, replace_entries q.1 es))
          (loop-Replacing sv names es (e ∷ named) (empty_result, []) n.0 n.1 (all-Open (e ∷ named))
            (none-Replacing es))
          (λ q g. replaced-Accounts es q u g)
