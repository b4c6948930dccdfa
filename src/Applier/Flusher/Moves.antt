-- ===== src/Applier/Flusher/Moves.antt =====
-- What completing the moved images does with every entry of a batch.
use pg_sprite.Applier.Buffer.Invariant.{is_some}
use mathlib.Core.List.{[]}
use pg_sprite.Applier.Buffer.{is_image}
use pg_sprite.Applier.Hold.Return.{AllImages}
use pg_sprite.Applier.Hold.{HeldImage, entries_of}
use pg_sprite.Prelude.Assoc.{Assoc, lookup-insert}
use pg_sprite.Applier.Hold.Unique.{Unique, append-Unique}
use pg_sprite.Prelude.Int64.{Int64}
use pg_sprite.Prelude.Assoc
use pg_sprite.Applier.Flusher.Moved.{
  complete_one, Replaced, complete_named, source_image, or_source, held_from, replace, replacement,
  complete_loop,
}
use pg_sprite.Applier.Flusher.{
  Server, HeldImage, Int64, Option, String, Attempt, Holds, none, some, Completion, is_image, split,
  is_some, raised, ◌>>=◌, complete_from, nil_old_key, success, bind-Holds,
}
use pg_sprite.Applier.Entry.{Entry}
use pg_sprite.Applier.Drain.Fate.{find_entry, or_else, find-append}
use pg_sprite.Applier.Drain.{complete_first, completes_first}
use pg_sprite.Prelude.{
  List, Option, String, ◌∷◌, ◌≡◌, Bool-cases, none, some, true, arith, inl, ==_iff, false, inr,
  refl, ◌==◌, ap, ◌++◌, Bool, if◌then◌else◌, not, ◌∙◌, subst, sym,
}

-- Images that CompleteFirst names, each the entry under its own key.
abbrev pub Named : List Entry → List Entry → Type 0
Named es [] = Unit {0}
Named es (n ∷ ns) =
    (find_entry n.key es ≡ some n)
    × (is_image (some n) ≡ true)
    × (is_some n.old_key ≡ true)
    × Named es ns

completes-image :
    (e : Entry) → completes_first e ≡ true → (is_image (some e) ≡ true) × (is_some e.old_key ≡ true)
unfolding completes_first
completes-image e h = ground arith

find-complete_first :
    (k : Int64) (es : List Entry) → find_entry k es ≡ none → find_entry k (complete_first es) ≡ none
unfolding complete_first find_entry
find-complete_first k [] h = refl
find-complete_first k (e ∷ es) h = ground (arith, find-complete_first k es)

wider-Named :
    (e : Entry) (es ns : List Entry) → find_entry e.key es ≡ none → Named es ns → Named (e ∷ es) ns
unfolding find_entry
wider-Named e es [] new h = tt
wider-Named e es (n ∷ ns) new h = (
  ground (
    arith,
    h.0,
    new,
    λ (q : (e.key == n.key) ≡ true). ap (λ i. find_entry i es) ((==_iff e.key n.key).0 q),
  ),
  h.1,
  h.2,
  wider-Named e es ns new h.3,
)

pub complete_first-Named :
    (es : List Entry) → Unique es → Named es (complete_first es) × Unique (complete_first es)
unfolding complete_first find_entry
complete_first-Named [] u = (tt, tt)
complete_first-Named (e ∷ es) u =
    let (named, once) = complete_first-Named es u.1 in
    let wide = wider-Named e es (complete_first es) u.0 named in
    elim (Bool-cases (completes_first e)) [
      | inl first ↦
          let (i, o) = completes-image e first in
          rw (first, complete_first)
            (
              (ground (arith, ==_iff e.key e.key), i, o, wide),
              (find-complete_first e.key es u.0, once),
            )
      | inr not_named ↦ rw (not_named, complete_first) (wide, once)
    ]

-- How the entry of a batch under a key stands with what takes its place and with the held entry.
abbrev pub Fits : List Entry → Int64 → Option (Option Entry) → Option Entry → Type 0
Fits es k none h = h ≡ none
Fits es k (some none) h = (e : Entry) × (h ≡ some e) × (find_entry k es ≡ some e)
Fits es k (some (some d)) h = (h ≡ none) × (d.key ≡ k) × (is_image (some d) ≡ false)

pub record Replacing (es : List Entry) (q : Replaced) : Type 0 where
  pub fits : (k : Int64) → Fits es k (Assoc.lookup k q.1) (find_entry k (entries_of q.0.held))
  pub once : Unique (entries_of q.0.held)
  pub images : AllImages q.0.held

-- No entry's key is in the map.
abbrev pub Open : List Entry → Assoc (Option Entry) → Type 0
Open [] m = Unit {0}
Open (n ∷ ns) m = (Assoc.lookup n.key m ≡ none) × Open ns m

insert-Open :
    (e : Entry) (d : Option Entry) (ns : List Entry) (m : Assoc (Option Entry))
    → find_entry e.key ns ≡ none
    → Open ns m
    → Open ns (Assoc.insert e.key d m)
unfolding find_entry
insert-Open e d [] m new o = tt
insert-Open e d (n ∷ ns) m new o = (
  ground (arith, lookup-insert e.key n.key d m, o.0, ==_iff e.key n.key, ==_iff n.key e.key),
  insert-Open e d ns m (ground arith) o.1,
)

pub entries-append :
    (xs ys : List HeldImage) → entries_of (xs ++ ys) ≡ entries_of xs ++ entries_of ys
entries-append [] ys = refl
entries-append (x ∷ xs) ys = ap (λ es. x.entry ∷ es) (entries-append xs ys)

pub append-AllImages :
    (hs : List HeldImage) (h : HeldImage)
    → AllImages hs
    → is_image (some h.entry) ≡ true
    → AllImages (hs ++ h ∷ [])
append-AllImages [] h a i = (i, tt)
append-AllImages (x ∷ xs) h a i = (a.0, append-AllImages xs h a.1 i)

-- What a read gives back is an image of the entry that it was made for.
abbrev Keeps : Entry → Option HeldImage → Type 0
Keeps e none = Unit {0}
Keeps e (some h) = h.entry ≡ e

source-Keeps :
    (sv : Server) (markers : List String) (e : Entry) → Holds (Keeps e) (source_image sv markers e)
source-Keeps sv markers e = go (complete_from markers (sv.source_row e.key markers))
  where
    go :
        (c : Attempt (Option Completion))
        → Holds
            (Keeps e)
            (c >>= λ d. success (elim d [ none ↦ none | some q ↦ some (held_from true e q) ]))
    go (success none) = tt
    go (success (some q)) = refl
    go (raised x) = tt

shadow-Keeps :
    (sv : Server) (markers : List String) (e : Entry) (c : Attempt (Option Completion))
    → Holds (Keeps e) (c >>= or_source sv markers e)
shadow-Keeps sv markers e (success none) = source-Keeps sv markers e
shadow-Keeps sv markers e (success (some q)) = refl
shadow-Keeps sv markers e (raised x) = tt

one-Keeps :
    (sv : Server) (names : List String) (old : Int64) (e : Entry)
    → Holds (Keeps e) (complete_one sv names old e)
unfolding complete_one
one-Keeps sv names old e = go (not e.old_key_reused)
  where
    markers : List String
    markers = (split names e.columns).1

    go :
        (own : Bool)
        → Holds (Keeps e) (
            if own
            then complete_from markers (sv.shadow_row old markers) >>= or_source sv markers e
            else source_image sv markers e)
    go true = shadow-Keeps sv markers e (complete_from markers (sv.shadow_row old markers))
    go false = source-Keeps sv markers e

named-Keeps :
    (sv : Server) (names : List String) (e : Entry) → Holds (Keeps e) (complete_named sv names e)
named-Keeps sv names e = go e.old_key
  where
    go :
        (o : Option Int64)
        → Holds
            (Keeps e)
            (elim o [ none ↦ raised nil_old_key | some old ↦ complete_one sv names old e ])
    go none = tt
    go (some old) = one-Keeps sv names old e

pub held_entries :
    (k : Int64) (hs : List HeldImage) (h : HeldImage)
    → find_entry k (entries_of (hs ++ h ∷ []))
      ≡ or_else (find_entry k (entries_of hs)) (if h.entry.key == k then some h.entry else none)
unfolding find_entry
held_entries k hs h =
    ap (find_entry k) (entries-append hs (h ∷ [])) ∙ find-append k (entries_of hs) (h.entry ∷ [])

held-Fits :
    (es : List Entry) (k : Int64) (e : Entry) (v : Option (Option Entry)) (w : Option Entry)
    → v ≡ some none
    → w ≡ some e
    → find_entry k es ≡ some e
    → Fits es k v w
held-Fits es k e v w p q at = subst (λ x. Fits es k x w) (sym p) (e, q, at)

same-Fits :
    (es : List Entry) (k : Int64) (v x : Option (Option Entry)) (w y : Option Entry)
    → v ≡ x
    → w ≡ y
    → Fits es k x y
    → Fits es k v w
same-Fits es k v x w y p q f =
    subst (λ z. Fits es k z w) (sym p) (subst (λ z. Fits es k x z) (sym q) f)

-- One image, taken out with what its reads gave.
step-Replacing :
    (es : List Entry) (e : Entry) (q : Replaced) (h : Option HeldImage)
    → find_entry e.key es ≡ some e
    → is_image (some e) ≡ true
    → Assoc.lookup e.key q.1 ≡ none
    → Keeps e h
    → Replacing es q
    → Replacing es (replace e q h)
step-Replacing es e (r, m) none at im new kept g = record {
  fits = λ k.
      ground (arith, lookup-insert e.key k (some (replacement e)) m, g.fits k, new, ==_iff e.key k);
  once = g.once;
  images = g.images;
}
step-Replacing es e (r, m) (some h) at im new kept g =
    let free =
      subst (λ v. Fits es e.key v (find_entry e.key (entries_of r.held))) new (g.fits e.key) in
    let key = ap (λ d. d.key) kept in
    record {
      fits = λ k. elim (Bool-cases (e.key == k)) [
        | inl same ↦
            held-Fits es k e (Assoc.lookup k (Assoc.insert e.key none m))
              (find_entry k (entries_of (r.held ++ h ∷ [])))
              (ground (arith, lookup-insert e.key k none m))
              (ground (
                arith,
                held_entries k r.held h,
                kept,
                free,
                ap (λ i. find_entry i (entries_of r.held)) ((==_iff e.key k).0 same),
              ))
              (ground (arith, at, ap (λ i. find_entry i es) ((==_iff e.key k).0 same)))
        | inr apart ↦
            same-Fits es k (Assoc.lookup k (Assoc.insert e.key none m)) (Assoc.lookup k m)
              (find_entry k (entries_of (r.held ++ h ∷ []))) (find_entry k (entries_of r.held))
              (ground (arith, lookup-insert e.key k none m))
              (ground (arith, held_entries k r.held h, key)) (g.fits k)
      ];
      once = subst Unique (sym (entries-append r.held (h ∷ []))) (
          append-Unique (entries_of r.held) h.entry g.once
            (ap (λ i. find_entry i (entries_of r.held)) key ∙ free));
      images = append-AllImages r.held h g.images (ap (λ d. is_image (some d)) kept ∙ im);
    }

pub loop-Replacing :
    (sv : Server) (names : List String) (es ns : List Entry) (q : Replaced)
    → Named es ns
    → Unique ns
    → Open ns q.1
    → Replacing es q
    → Holds (Replacing es) (complete_loop sv names ns q)
unfolding complete_loop
loop-Replacing sv names es [] q n u o g = g
loop-Replacing sv names es (e ∷ ns) q n u o g =
    bind-Holds (Keeps e) (Replacing es) (complete_named sv names e)
      (λ h. complete_loop sv names ns (replace e q h)) (named-Keeps sv names e)
      (λ h kept.
        loop-Replacing sv names es ns (replace e q h) n.3 u.1 (next-Open e q h ns u.0 o.1)
          (step-Replacing es e q h n.0 n.1 o.0 kept g))
  where
    next-Open :
        (e : Entry) (q : Replaced) (h : Option HeldImage) (ns : List Entry)
        → find_entry e.key ns ≡ none
        → Open ns q.1
        → Open ns (replace e q h).1
    next-Open e (r, m) none ns new o = insert-Open e (some (replacement e)) ns m new o
    next-Open e (r, m) (some h) ns new o = insert-Open e none ns m new o
