-- ===== src/Applier/Drain.antt =====
-- pkg/applier/drain.go: what one drain does with every buffered entry. A map from keys to states is a
-- function, which gives the zero value outside the map. The loops range over the entries in the
-- list's order.
pub mod Deferral
pub mod Fate
pub mod Safety
pub mod Travel
pub mod Oldest
pub mod Progress
pub mod Preserve
use pg_sprite.Applier.Buffer.Invariant.{is_some}
use pg_sprite.Applier.Buffer.{remove, Buffer, track_oldest}
use pg_sprite.Applier.Snapshot.{Snapshot, visible}
use pg_sprite.Prelude.Int64.{Int64}
use pg_sprite.Prelude.{
  zero, suc, [], ◌∷◌, none, some, true, false, Bool, List, ℕ, Option, if◌then◌else◌, suc, ◌&&◌, leb,
  not, ◌*◌, ◌+◌, ◌==◌, ◌||◌, length, ltb, ◌++◌,
}
use pg_sprite.Prelude.Assoc
use pg_sprite.Prelude.Assoc.{Assoc}
use pg_sprite.Copier.Position.{KeyState, uncut, in_flight, landed, Position, classify}
use pg_sprite.Applier.Entry.{image, delete_marker, Entry, has_marker}

pub record Batch : Type 0 where
  pub entries : List Entry
  pub discarded : ℕ
  pub deferred : ℕ
  pub held : ℕ
  pub invisible : ℕ

unfoldable pub empty_batch : Batch
empty_batch = record { entries = []; discarded = 0; deferred = 0; held = 0; invisible = 0 }

-- OldestFirstLSN, from the oldest position found so far
unfoldable pub oldest_loop : List Entry → ℕ × Bool → ℕ × Bool
oldest_loop [] found = found
oldest_loop (e ∷ es) (oldest, found) =
    oldest_loop es
      (if not found || ltb e.first_lsn oldest then (e.first_lsn, true) else (oldest, found))

unfoldable pub oldest_first_lsn : Batch → ℕ × Bool
oldest_first_lsn t = oldest_loop t.entries (0, false)

unfoldable pub completes_first : Entry → Bool
completes_first e =
    elim e.kind [ image ↦ true | delete_marker ↦ false ]
    && is_some e.old_key
    && has_marker e.columns

unfoldable pub complete_first : List Entry → List Entry
unfolding completes_first
complete_first [] = []
complete_first (e ∷ es) =
    let rest = complete_first es in if completes_first e then e ∷ rest else rest

-- How the keys stand: the states, and the entries that no snapshot shows yet.
pub record Judged : Type 0 where
  pub state : Int64 → KeyState
  pub invisible : Int64 → Bool

abbrev pub judge_state : Position → Snapshot → Int64 → Option Entry → KeyState
judge_state pos snap k none = uncut
judge_state pos snap k (some e) = if visible snap e.xid then classify pos k else in_flight

abbrev pub judge_invisible : Snapshot → Option Entry → Bool
judge_invisible snap none = false
judge_invisible snap (some e) = not (visible snap e.xid)

-- The first loop of the drain.
unfoldable pub judge : Position → Snapshot → Buffer → Judged
judge pos snap b = record {
  state = λ k. judge_state pos snap k (Assoc.lookup k b.entries);
  invisible = λ k. judge_invisible snap (Assoc.lookup k b.entries);
}

abbrev pub is_uncut : KeyState → Bool
is_uncut uncut = true
is_uncut in_flight = false
is_uncut landed = false

abbrev pub is_in_flight : KeyState → Bool
is_in_flight uncut = false
is_in_flight in_flight = true
is_in_flight landed = false

unfoldable pub waits_together : KeyState → KeyState → Bool → Bool
waits_together moved old image_invisible =
    if is_uncut moved || is_uncut old then false else is_in_flight old || image_invisible

-- An image and the key that it moved from, whose entry is buffered too.
pub record MovePair : Type 0 where
  pub moved : Int64
  pub old : Int64

abbrev pub pair_of : Assoc Entry → Int64 → Option Int64 → List MovePair → List MovePair
pair_of all k none rest = rest
pair_of all k (some old) rest =
    if is_some (Assoc.lookup old all) then record { moved = k; old = old } ∷ rest else rest

unfoldable pub move_pairs : Assoc Entry → Assoc Entry → List MovePair
move_pairs all [] = []
move_pairs all ((k, e) ∷ m) = pair_of all k e.old_key (move_pairs all m)

abbrev pub defers : (Int64 → KeyState) → (Int64 → Bool) → MovePair → Bool
defers state invisible p =
    waits_together (state p.moved) (state p.old) (invisible p.moved)
    && (not (is_in_flight (state p.moved)) || not (is_in_flight (state p.old)))

abbrev pub defer_pair : (Int64 → KeyState) → MovePair → Int64 → KeyState
defer_pair state p k = if p.moved == k || p.old == k then in_flight else state k

-- One pass over the pairs, and whether it changed a state.
unfoldable pub defer_pass :
    (Int64 → Bool) → List MovePair → (Int64 → KeyState) → (Int64 → KeyState) × Bool
unfolding waits_together
defer_pass invisible [] state = (state, false)
defer_pass invisible (p ∷ ps) state =
    if defers state invisible p
    then ((defer_pass invisible ps (defer_pair state p)).0, true)
    else defer_pass invisible ps state

-- The passes, as many as the fuel allows.
unfoldable pub defer_loop :
    ℕ → (Int64 → Bool) → List MovePair → (Int64 → KeyState) → Int64 → KeyState
defer_loop zero invisible ps state = state
defer_loop (suc fuel) invisible ps state =
    let (next, changed) = defer_pass invisible ps state in
    let rest = defer_loop fuel invisible ps next in if changed then rest else next

unfoldable pub defer_pairs : Buffer → Judged → Judged
defer_pairs b g =
    let ps = move_pairs b.entries b.entries in
    record g { state = defer_loop (suc (2 * length ps)) g.invisible ps g.state }

-- One round of the last loop, by the state of the key.
unfoldable pub drain_state : KeyState → Int64 → Entry → Buffer → Batch → Buffer × Batch
drain_state uncut k e b t = (remove k b, record t { discarded = t.discarded + 1 })
drain_state in_flight k e b t = (track_oldest e.first_lsn b, record t { deferred = t.deferred + 1 })
drain_state landed k e b t = (remove k b, record t { entries = t.entries ++ e ∷ [] })

unfoldable pub drain_key : Judged → Int64 → Entry → Buffer → Batch → Buffer × Batch
unfolding drain_state
drain_key g k e b t =
    if is_some (Assoc.lookup k b.pending)
    then (track_oldest e.first_lsn b, record t { held = t.held + 1 })
    else (if g.invisible k
        then (track_oldest e.first_lsn b, record t { invisible = t.invisible + 1 })
        else drain_state (g.state k) k e b t)

unfoldable pub drain_loop : Judged → Assoc Entry → Buffer → Batch → Buffer × Batch
drain_loop g [] b t = (b, t)
drain_loop g ((k, e) ∷ m) b t = let (b', t') = drain_key g k e b t in drain_loop g m b' t'

-- sort.Slice, over entries of different keys
unfoldable pub insert_by_key : Entry → List Entry → List Entry
insert_by_key e [] = e ∷ []
insert_by_key e (d ∷ ds) = if leb e.key d.key then e ∷ d ∷ ds else d ∷ insert_by_key e ds

unfoldable pub sort_by_key : List Entry → List Entry
unfolding insert_by_key
sort_by_key [] = []
sort_by_key (e ∷ es) = insert_by_key e (sort_by_key es)

unfoldable pub drain : Position → Snapshot → Buffer → Buffer × Batch
drain pos snap b =
    let g = defer_pairs b (judge pos snap b) in
    let (after, t) = drain_loop g b.entries (record b { has_oldest = false }) empty_batch in
    (after, record t { entries = sort_by_key t.entries })
