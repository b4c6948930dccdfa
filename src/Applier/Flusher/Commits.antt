-- ===== src/Applier/Flusher/Commits.antt =====
-- What a flush commits.
use mathlib.Core.List.{[]}
use pg_sprite.Applier.Buffer.Invariant.{is_some}
use pg_sprite.Applier.Buffer.{is_image}
use pg_sprite.Applier.Flusher.Touches.{
  Trace, touches, all_deletes, deletes_first, AllWhole, run-Trace, split-Carries, writes_key,
  all_deletes_first,
}
use pg_sprite.Applier.Hold.{HeldImage}
use pg_sprite.Applier.Entry.{Entry, Column, EntryKind, delete_marker, image}
use pg_sprite.Applier.Drain.Fate.{find_entry}
use pg_sprite.Applier.Flusher.Writes.{
  write, write_pass, write_image, Written, write_split, differ, run, apply_column_wise,
}
use pg_sprite.Applier.Flusher.{
  Server, Entry, String, HeldImage, split, Holds, bind-Holds, delete_row, upsert_row, success,
  raised, no_row_to_update, ◌>>=◌, update_row, Result, map-Holds, db_error,
}
use pg_sprite.Prelude.Int64.{Int64}
use pg_sprite.Prelude.{
  Bool, List, String, false, true, ◌∷◌, not, ◌≡◌, ap, ◌∙◌, some, subst, if◌then◌else◌, ℕ, sym, ◌||◌,
  arith, ◌==◌, refl, ◌+◌,
}

pub Trace-keys :
    (names : List String) (f g : Int64 → Bool) (first : Bool) (held : List HeldImage) (w : Written)
    → ((k : Int64) → f k ≡ g k)
    → Trace names f first held w
    → Trace names g first held w
Trace-keys names f g first held w same t = record {
  touched = λ k. t.touched k ∙ same k;
  order = t.order;
  whole = t.whole;
  kept = t.kept;
}

-- The counts do not matter.
pub counted-Trace :
    (names : List String) (keys : Int64 → Bool) (first : Bool) (held : List HeldImage)
    (w v : Written)
    → v.0 ≡ w.0
    → v.1.held ≡ w.1.held
    → Trace names keys first held w
    → Trace names keys first held v
counted-Trace names keys first held w v sts kept t = record {
  touched = λ k. ap (touches k) sts ∙ t.touched k;
  order = subst (λ x. (if first then all_deletes x else deletes_first x) ≡ true) (sym sts) t.order;
  whole = subst (AllWhole names) (sym sts) t.whole;
  kept = kept ∙ t.kept;
}

abbrev and_key : (Int64 → Bool) → Int64 → Int64 → Bool
and_key keys j k = keys k || j == k

split-Trace :
    (sv : Server) (names : List String) (keys : Int64 → Bool) (held : List HeldImage) (k : Int64)
    (cs : List Column) (q : List Column × List String) (w : Written)
    → split names cs ≡ q
    → Trace names keys false held w
    → Holds (Trace names (and_key keys k) false held) (write_split sv k q w)
unfolding writes_key
split-Trace sv names keys held k cs (present, []) w is t =
    bind-Holds (λ (q : ℕ × Written). Trace names (and_key keys k) false held q.1)
      (Trace names (and_key keys k) false held) (run sv (upsert_row k present) w) (λ q. success q.1)
      (run-Trace sv names keys false held (upsert_row k present) w refl
        (split-Carries names cs present is) t)
      (λ q u. u)
split-Trace sv names keys held k cs (present, n ∷ ns) w is t =
    bind-Holds (λ (q : ℕ × Written). Trace names (and_key keys k) false held q.1)
      (Trace names (and_key keys k) false held) (run sv (update_row k present) w)
      (λ q. if q.0 == 1 then success q.1 else raised no_row_to_update)
      (run-Trace sv names keys false held (update_row k present) w refl tt t)
      (λ q u. found (q.0 == 1) q.1 u)
  where
    found :
        (b : Bool) (v : Written)
        → Trace names (and_key keys k) false held v
        → Holds
            (Trace names (and_key keys k) false held)
            (if b then success v else raised no_row_to_update)
    found true v u = u
    found false v u = tt

write-Trace :
    (sv : Server) (names : List String) (keys : Int64 → Bool) (first : Bool) (held : List HeldImage)
    (e : Entry) (w : Written)
    → not (is_image (some e)) ≡ first
    → Trace names keys first held w
    → Holds (Trace names (and_key keys e.key) first held) (write sv names e w)
unfolding write write_image writes_key
write-Trace sv names keys first held e (sts, r) is t = go e.kind refl
  where
    go :
        (kind : EntryKind)
        → e.kind ≡ kind
        → Holds (Trace names (and_key keys e.key) first held) (elim kind [
          | delete_marker ↦
              run sv (delete_row e.key) (sts, record r { deletes = r.deletes + 1 }) >>= λ q.
              success q.1
          | image ↦ write_image sv names e (sts, record r { images = r.images + 1 })
        ])
    go delete_marker at =
        bind-Holds (λ (q : ℕ × Written). Trace names (and_key keys e.key) first held q.1)
          (Trace names (and_key keys e.key) first held)
          (run sv (delete_row e.key) (sts, record r { deletes = r.deletes + 1 })) (λ q. success q.1)
          (run-Trace sv names keys first held (delete_row e.key)
            (sts, record r { deletes = r.deletes + 1 }) (ground (arith, at, is)) tt
            (counted-Trace names keys first held (sts, r)
              (sts, record r { deletes = r.deletes + 1 }) refl refl t))
          (λ q u. u)
    go image at =
        let f : first ≡ false = ground (arith, at, is) in
        let counted : Written = (sts, record r { images = r.images + 1 }) in
        subst
          (λ b. Holds (Trace names (and_key keys e.key) b held) (write_image sv names e counted))
          (sym f)
          (split-Trace sv names keys held e.key e.columns (split names e.columns) counted refl (
            counted-Trace names keys false held (sts, r) counted refl refl
              (subst (λ b. Trace names keys b held (sts, r)) f t)))

-- The phase writes under the key.
unfoldable pub picks : Bool → List Entry → Int64 → Bool
picks first [] k = false
picks first (e ∷ es) k =
    let rest = picks first es k in
    if differ (not (is_image (some e))) first then rest else e.key == k || rest

pass-Trace :
    (sv : Server) (names : List String) (keys : Int64 → Bool) (first : Bool) (held : List HeldImage)
    (es : List Entry) (w : Written)
    → Trace names keys first held w
    → Holds
        (Trace names (λ k. keys k || picks first es k) first held)
        (write_pass sv names first es w)
unfolding write_pass picks
pass-Trace sv names keys first held [] w t =
    Trace-keys names keys (λ k. keys k || false) first held w (λ k. ground arith) t
pass-Trace sv names keys first held (e ∷ es) w t =
    go (differ (not (is_image (some e))) first) refl (pass-Trace sv names keys first held es w t)
      (λ v u. pass-Trace sv names (and_key keys e.key) first held es v u)
  where
    go :
        (b : Bool)
        → differ (not (is_image (some e))) first ≡ b
        → Holds
            (Trace names (λ k. keys k || picks first es k) first held)
            (write_pass sv names first es w)
        → ((v : Written)
            → Trace names (and_key keys e.key) first held v
            → Holds
                (Trace names (λ k. and_key keys e.key k || picks first es k) first held)
                (write_pass sv names first es v))
        → Holds
            (Trace names
              (λ k. keys k || (if b then picks first es k else e.key == k || picks first es k))
              first
              held)
            (if b
              then write_pass sv names first es w
              else write sv names e w >>= (λ next. write_pass sv names first es next))
    go true is skips goes = skips
    go false is skips goes =
        bind-Holds (Trace names (and_key keys e.key) first held)
          (Trace names (λ k. keys k || (e.key == k || picks first es k)) first held)
          (write sv names e w) (λ next. write_pass sv names first es next)
          (write-Trace sv names keys first held e w (ground (arith, is)) t)
          (λ v u.
            map-Holds (Trace names (λ k. and_key keys e.key k || picks first es k) first held)
              (Trace names (λ k. keys k || (e.key == k || picks first es k)) first held)
              (write_pass sv names first es v)
              (λ x y.
                Trace-keys names (λ k. and_key keys e.key k || picks first es k)
                  (λ k. keys k || (e.key == k || picks first es k)) first held x (λ k. ground arith)
                  y)
              (goes v u))

pub passes_all :
    (es : List Entry) (k : Int64)
    → (picks true es k || picks false es k) ≡ is_some (find_entry k es)
unfolding picks find_entry
passes_all [] k = refl
passes_all (e ∷ es) k = ground (arith, passes_all es k)

pub none-Trace :
    (names : List String) (first : Bool) (r : Result)
    → Trace names (λ k. false) first r.held ([], r)
unfolding touches all_deletes deletes_first
none-Trace names true r = record { touched = λ k. refl; order = refl; whole = tt; kept = refl }
none-Trace names false r = record { touched = λ k. refl; order = refl; whole = tt; kept = refl }

-- From the first phase into the second.
pub next-Trace :
    (names : List String) (keys : Int64 → Bool) (held : List HeldImage) (w : Written)
    → Trace names keys true held w
    → Trace names keys false held w
next-Trace names keys held w t = record {
  touched = t.touched;
  order = all_deletes_first w.0 t.order;
  whole = t.whole;
  kept = t.kept;
}

abbrev pub has_entry : List Entry → Int64 → Bool
has_entry es k = is_some (find_entry k es)

-- The column-wise writes cover the entries.
pub column_wise-Trace :
    (sv : Server) (names : List String) (es : List Entry) (r : Result)
    → Holds (Trace names (has_entry es) false r.held) (apply_column_wise sv names es r)
unfolding apply_column_wise
column_wise-Trace sv names es r = go sv.save_fails
  where
    released :
        (b : Bool) (v : Written)
        → Trace names (has_entry es) false r.held v
        → Holds (Trace names (has_entry es) false r.held) (if b then raised db_error else success v)
    released true v u = tt
    released false v u = u

    go :
        (b : Bool)
        → Holds (Trace names (has_entry es) false r.held) (
            if b
            then raised db_error
            else write_pass sv names true es ([], r) >>= λ w.
                write_pass sv names false es w >>= λ v.
                if sv.release_fails then raised db_error else success v)
    go true = tt
    go false =
        bind-Holds (Trace names (λ k. false || picks true es k) true r.held)
          (Trace names (has_entry es) false r.held) (write_pass sv names true es ([], r))
          (λ w. write_pass sv names false es w >>= λ v.
            if sv.release_fails then raised db_error else success v)
          (pass-Trace sv names (λ k. false) true r.held es ([], r) (none-Trace names true r))
          (λ w t.
            bind-Holds
              (Trace names (λ k. (false || picks true es k) || picks false es k) false r.held)
              (Trace names (has_entry es) false r.held) (write_pass sv names false es w)
              (λ v. if sv.release_fails then raised db_error else success v)
              (pass-Trace sv names (λ k. false || picks true es k) false r.held es w
                (next-Trace names (λ k. false || picks true es k) r.held w t))
              (λ v u. released sv.release_fails v (
                Trace-keys names (λ k. (false || picks true es k) || picks false es k)
                  (has_entry es) false r.held v (passes_all es) u)))
