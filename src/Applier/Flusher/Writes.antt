-- ===== src/Applier/Flusher/Writes.antt =====
-- The writes of pkg/applier/flusher.go: column by column, and whole rows where a constraint refuses them.
use pg_sprite.Applier.Hold.{in_shadow_form}
use pg_sprite.Applier.Buffer.{is_image}
use pg_sprite.Applier.Entry.{Entry, Column, has_marker, delete_marker, overlay, image}
use pg_sprite.Prelude.Int64.{Int64}
use pg_sprite.Applier.Flusher.{
  Server, Int64, Statement, String, Attempt, Result, insert_row, split, success, upsert_row, ◌>>=◌,
  affected, complete_from, delete_rows, update_row, raised, collision, db_error, is_image,
  no_row_to_update, some, omits_column, collides, delete_row, no_row_to_complete, fails,
}
use pg_sprite.Prelude.{
  Bool, List, String, not, ◌∷◌, ℕ, [], ◌++◌, if◌then◌else◌, true, ◌==◌, false, some, ◌||◌, ◌+◌,
  none,
}

-- The statements of a transaction so far, and the counts.
abbrev pub Written : Type 0
Written = List Statement × Result

unfoldable pub run : Server → Statement → Written → Attempt (ℕ × Written)
run sv st (sts, r) = elim (sv.execute sts st) [
  | affected n ↦ success (n, (sts ++ st ∷ [], r))
  | collides ↦ raised collision
  | fails ↦ raised db_error
]

abbrev pub write_split : Server → Int64 → List Column × List String → Written → Attempt Written
write_split sv k (present, []) w = run sv (upsert_row k present) w >>= λ q. success q.1
write_split sv k (present, n ∷ ns) w = run sv (update_row k present) w >>= λ q.
    if q.0 == 1 then success q.1 else raised no_row_to_update

unfoldable pub write_image : Server → List String → Entry → Written → Attempt Written
write_image sv names e w = write_split sv e.key (split names e.columns) w

unfoldable pub write : Server → List String → Entry → Written → Attempt Written
write sv names e (sts, r) = elim e.kind [
  | delete_marker ↦
      run sv (delete_row e.key) (sts, record r { deletes = r.deletes + 1 }) >>= λ q. success q.1
  | image ↦ write_image sv names e (sts, record r { images = r.images + 1 })
]

abbrev pub differ : Bool → Bool → Bool
differ true b = not b
differ false b = b

-- One of the two passes: over the delete markers, or over the images.
unfoldable pub write_pass : Server → List String → Bool → List Entry → Written → Attempt Written
write_pass sv names deletes [] w = success w
write_pass sv names deletes (e ∷ es) w =
    if differ (not (is_image (some e))) deletes
    then write_pass sv names deletes es w
    else write sv names e w >>= (λ next. write_pass sv names deletes es next)

unfoldable pub apply_column_wise : Server → List String → List Entry → Result → Attempt Written
apply_column_wise sv names es r =
    if sv.save_fails
    then raised db_error
    else write_pass sv names true es ([], r) >>= λ w. write_pass sv names false es w >>= λ v.
        if sv.release_fails then raised db_error else success v

abbrev pub complete_whole : Server → List String → Entry → Attempt Entry
complete_whole sv names e =
    let markers = (split names e.columns).1 in
    complete_from markers (sv.reread_row e.key markers) >>= λ c. elim c [
      | none ↦ raised no_row_to_complete
      | some q ↦ success (record e { columns = overlay e.columns (in_shadow_form q.columns) })
    ]

-- The first loop of applyWholeRows.
unfoldable pub complete_rows :
    Server → List String → List Entry → Result → Attempt (Result × List Entry)
complete_rows sv names [] r = success (r, [])
complete_rows sv names (e ∷ es) r =
    if not (is_image (some e)) || not (has_marker e.columns)
    then complete_rows sv names es r >>= (λ q. success (q.0, e ∷ q.1))
    else complete_whole sv names e >>= λ d.
        complete_rows sv names es (record r { completed = r.completed + 1 }) >>= λ q.
        success (q.0, d ∷ q.1)

abbrev pub insert_split : Server → Int64 → List Column × List String → Written → Attempt Written
insert_split sv k (present, []) w = run sv (insert_row k present) w >>= λ q.
    success (q.1.0, record q.1.1 { images = q.1.1.images + 1 })
insert_split sv k (present, n ∷ ns) w = raised omits_column

abbrev pub insert_entry : Server → List String → Entry → Written → Attempt Written
insert_entry sv names e (sts, r) = elim e.kind [
  | delete_marker ↦ success (sts, record r { deletes = r.deletes + 1 })
  | image ↦ insert_split sv e.key (split names e.columns) (sts, r)
]

unfoldable pub insert_rows : Server → List String → List Entry → Written → Attempt Written
insert_rows sv names [] w = success w
insert_rows sv names (e ∷ es) w = insert_entry sv names e w >>= λ next. insert_rows sv names es next

unfoldable pub keys_of : List Entry → List Int64
keys_of [] = []
keys_of (e ∷ es) = e.key ∷ keys_of es

unfoldable pub apply_whole_rows : Server → List String → List Entry → Result → Attempt Written
apply_whole_rows sv names es r = complete_rows sv names es r >>= λ q.
    run sv (delete_rows (keys_of es)) ([], q.0) >>= λ w. insert_rows sv names q.1 w.1
