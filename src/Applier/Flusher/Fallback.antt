-- ===== src/Applier/Flusher/Fallback.antt =====
-- What the fallback of a flush commits, and the whole flush.
use pg_sprite.Applier.Buffer.{is_image}
use mathlib.Core.List.{[]}
use pg_sprite.Applier.Hold.{HeldImage, in_shadow_form}
use pg_sprite.Applier.Flusher.Commits.{
  none-Trace, has_entry, counted-Trace, none-Trace, Trace-keys, next-Trace,
}
use pg_sprite.Applier.Entry.{Entry, Column, EntryKind, delete_marker, overlay, image, has_marker}
use pg_sprite.Prelude.{
  ◌==◌, Bool, List, String, ◌∷◌, ◌≡◌, arith, true, ==_iff, false, Option, refl, ℕ, none, ◌+◌,
  if◌then◌else◌, ap, ◌∙◌, not, ◌||◌, ◌==◌, subst,
}
use pg_sprite.Applier.Flusher.Writes.{
  apply_whole_rows, complete_rows, insert_rows, keys_of, Written, complete_whole, insert_entry,
  insert_split, run,
}
use pg_sprite.Applier.Flusher.{
  Server, Bool, List, Entry, Result, String, HeldImage, Holds, true, Attempt, false, split,
  bind-Holds, Completion, delete_rows, ◌>>=◌, success, raised, no_row_to_complete, some,
  complete_from, insert_row,
}
use pg_sprite.Applier.Flusher.Touches.{names_key, writes_key, Trace, run-Trace, split-Carries}
use pg_sprite.Applier.Drain.Fate.{find_entry}
use pg_sprite.Prelude.Int64.{Int64}

-- The keys are among those of the set.
abbrev Within : (Int64 → Bool) → List Entry → Type 0
Within keys [] = Unit {0}
Within keys (e ∷ es) = (keys e.key ≡ true) × Within keys es

wider-Within :
    (f g : Int64 → Bool) (es : List Entry)
    → ((k : Int64) → f k ≡ true → g k ≡ true)
    → Within f es
    → Within g es
wider-Within f g [] h w = tt
wider-Within f g (e ∷ es) h w = (h e.key w.0, wider-Within f g es h w.1)

own-Within : (es : List Entry) → Within (has_entry es) es
unfolding find_entry
own-Within [] = tt
own-Within (e ∷ es) = (
  ground (arith, ==_iff e.key e.key),
  wider-Within (has_entry es) (has_entry (e ∷ es)) es (λ k h. ground (arith, h)) (own-Within es),
)

names-keys_of : (k : Int64) (es : List Entry) → names_key k (keys_of es) ≡ has_entry es k
unfolding names_key keys_of find_entry
names-keys_of k [] = refl
names-keys_of k (e ∷ es) = ground (arith, names-keys_of k es)

-- What completing the rows keeps: the keys, and what is held.
abbrev KeepsKeys : (Int64 → Bool) → Result → Result × List Entry → Type 0
KeepsKeys keys r q = Within keys q.1 × (q.0.held ≡ r.held)

whole_key :
    (sv : Server) (names : List String) (e : Entry)
    → Holds (λ d. d.key ≡ e.key) (complete_whole sv names e)
whole_key sv names e =
    let markers = (split names e.columns).1 in
    go (complete_from markers (sv.reread_row e.key markers))
  where
    go :
        (c : Attempt (Option Completion))
        → Holds
            (λ (d : Entry). d.key ≡ e.key)
            (c >>= λ x. elim x [
              | none ↦ raised no_row_to_complete
              | some q ↦
                  success (record e { columns = overlay e.columns (in_shadow_form q.columns) })
            ])
    go (success none) = tt
    go (success (some q)) = refl
    go (raised x) = tt

rows-KeepsKeys :
    (sv : Server) (names : List String) (keys : Int64 → Bool) (es : List Entry) (r : Result)
    → Within keys es
    → Holds (KeepsKeys keys r) (complete_rows sv names es r)
unfolding complete_rows
rows-KeepsKeys sv names keys [] r w = (tt, refl)
rows-KeepsKeys sv names keys (e ∷ es) r w =
    go (not (is_image (some e)) || not (has_marker e.columns))
      (rows-KeepsKeys sv names keys es r w.1)
      (rows-KeepsKeys sv names keys es (record r { completed = r.completed + 1 }) w.1)
  where
    go :
        (b : Bool)
        → Holds (KeepsKeys keys r) (complete_rows sv names es r)
        → Holds
            (KeepsKeys keys r)
            (complete_rows sv names es (record r { completed = r.completed + 1 }))
        → Holds (KeepsKeys keys r) (
            if b
            then complete_rows sv names es r >>= (λ q. success (q.0, e ∷ q.1))
            else complete_whole sv names e >>= λ d.
                complete_rows sv names es (record r { completed = r.completed + 1 }) >>= λ q.
                success (q.0, d ∷ q.1))
    go true as_is completed =
        bind-Holds (KeepsKeys keys r) (KeepsKeys keys r) (complete_rows sv names es r)
          (λ q. success (q.0, e ∷ q.1)) as_is (λ q h. ((w.0, h.0), h.1))
    go false as_is completed =
        bind-Holds (λ (d : Entry). d.key ≡ e.key) (KeepsKeys keys r) (complete_whole sv names e)
          (λ d. complete_rows sv names es (record r { completed = r.completed + 1 }) >>= λ q.
            success (q.0, d ∷ q.1))
          (whole_key sv names e)
          (λ d same.
            bind-Holds (KeepsKeys keys r) (KeepsKeys keys r)
              (complete_rows sv names es (record r { completed = r.completed + 1 }))
              (λ q. success (q.0, d ∷ q.1)) completed (λ q h. ((ap keys same ∙ w.0, h.0), h.1)))

insert_split-Trace :
    (sv : Server) (names : List String) (keys : Int64 → Bool) (held : List HeldImage) (k : Int64)
    (cs : List Column) (q : List Column × List String) (w : Written)
    → keys k ≡ true
    → split names cs ≡ q
    → Trace names keys false held w
    → Holds (Trace names keys false held) (insert_split sv k q w)
unfolding writes_key
insert_split-Trace sv names keys held k cs (present, n ∷ ns) w there is t = tt
insert_split-Trace sv names keys held k cs (present, []) w there is t =
    bind-Holds (λ (q : ℕ × Written). Trace names (λ j. keys j || k == j) false held q.1)
      (Trace names keys false held) (run sv (insert_row k present) w)
      (λ q. success (q.1.0, record q.1.1 { images = q.1.1.images + 1 }))
      (run-Trace sv names keys false held (insert_row k present) w refl
        (split-Carries names cs present is) t)
      (λ q u.
        counted-Trace names keys false held q.1 (q.1.0, record q.1.1 { images = q.1.1.images + 1 })
          refl refl
          (Trace-keys names (λ j. keys j || k == j) keys false held q.1
            (λ j. ground (arith, there, λ (s : (k == j) ≡ true). ap keys ((==_iff k j).0 s))) u))

entry-Trace :
    (sv : Server) (names : List String) (keys : Int64 → Bool) (held : List HeldImage) (e : Entry)
    (w : Written)
    → keys e.key ≡ true
    → Trace names keys false held w
    → Holds (Trace names keys false held) (insert_entry sv names e w)
entry-Trace sv names keys held e (sts, r) there t = go e.kind
  where
    go :
        (kind : EntryKind)
        → Holds (Trace names keys false held) (elim kind [
          | delete_marker ↦ success (sts, record r { deletes = r.deletes + 1 })
          | image ↦ insert_split sv e.key (split names e.columns) (sts, r)
        ])
    go delete_marker =
        counted-Trace names keys false held (sts, r) (sts, record r { deletes = r.deletes + 1 })
          refl refl t
    go image =
        insert_split-Trace sv names keys held e.key e.columns (split names e.columns) (sts, r) there
          refl t

insert_rows-Trace :
    (sv : Server) (names : List String) (keys : Int64 → Bool) (held : List HeldImage)
    (es : List Entry) (w : Written)
    → Within keys es
    → Trace names keys false held w
    → Holds (Trace names keys false held) (insert_rows sv names es w)
unfolding insert_rows
insert_rows-Trace sv names keys held [] w i t = t
insert_rows-Trace sv names keys held (e ∷ es) w i t =
    bind-Holds (Trace names keys false held) (Trace names keys false held)
      (insert_entry sv names e w) (λ next. insert_rows sv names es next)
      (entry-Trace sv names keys held e w i.0 t)
      (λ v u. insert_rows-Trace sv names keys held es v i.1 u)

-- The fallback covers the same entries as the column-wise writes.
pub whole_rows-Trace :
    (sv : Server) (names : List String) (es : List Entry) (r : Result)
    → Holds (Trace names (has_entry es) false r.held) (apply_whole_rows sv names es r)
unfolding apply_whole_rows writes_key
whole_rows-Trace sv names es r =
    bind-Holds (KeepsKeys (has_entry es) r) (Trace names (has_entry es) false r.held)
      (complete_rows sv names es r)
      (λ q. run sv (delete_rows (keys_of es)) ([], q.0) >>= λ w. insert_rows sv names q.1 w.1)
      (rows-KeepsKeys sv names (has_entry es) es r (own-Within es))
      (λ q h.
        bind-Holds
          (λ (w : ℕ × Written).
            Trace names (λ k. false || names_key k (keys_of es)) true q.0.held w.1)
          (Trace names (has_entry es) false r.held) (run sv (delete_rows (keys_of es)) ([], q.0))
          (λ w. insert_rows sv names q.1 w.1)
          (run-Trace sv names (λ k. false) true q.0.held (delete_rows (keys_of es)) ([], q.0) refl
            tt (none-Trace names true q.0))
          (λ w t.
            subst (λ x. Holds (Trace names (has_entry es) false x) (insert_rows sv names q.1 w.1))
              h.1
              (insert_rows-Trace sv names (has_entry es) q.0.held q.1 w.1 h.0 (
                Trace-keys names (λ k. false || names_key k (keys_of es)) (has_entry es) false
                  q.0.held w.1 (λ k. names-keys_of k es)
                  (next-Trace names (λ k. false || names_key k (keys_of es)) q.0.held w.1 t)))))
