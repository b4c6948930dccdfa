-- ===== src/Applier/Catchup/Restart.antt =====
-- Where a stream that restarts from the confirmed position resumes.
use pg_sprite.Decode.Stream.Invariant.{confirm-Advances}
use pg_sprite.Applier.Hold.Kept.{release-Inv}
use mathlib.Core.List.{[]}
use pg_sprite.Applier.Catchup.Cycle.{Fine, apply-Fine}
use pg_sprite.Applier.Hold.{release}
use pg_sprite.Applier.Catchup.Confirms.{Sound, StaysSound, gather-StaysSound}
use mathlib.Core.Option.{none}
use pg_sprite.Prelude.Assoc
use pg_sprite.Applier.Entry.{Entry}
use pg_sprite.Applier.Catchup.Above.{Above, release-Above}
use pg_sprite.Applier.Buffer.Invariant.{Inv, covers_lsn}
use pg_sprite.Applier.Buffer.{oldest_pending, Buffer}
use pg_sprite.Decode.Stream.{confirm, Stream, StreamError}
use pg_sprite.Prelude.{
  ℕ, Bool, ◌≡◌, ◌≤◌, arith, Option, true, if◌then◌else◌, ◌&&◌, ltb, ◌⊎◌, refl, List, String, subst,
  sym, ◌∷◌,
}
use pg_sprite.Applier.Catchup.{
  confirm_bound, confirm_cycle, Bool, oldest_pending, some, Catchup, apply_cycle, cycle,
  finish_cycle, run, CycleError, List, inl, record_cycle, String, World, CycleOutcome, Gathered,
  gather, inr, wal_end_failed, apply, changes_left, check_slot, stream_failed,
}

-- The position that a cycle may confirm lies at or below every buffered entry.
bound-Above : (d : ℕ) (b : Buffer) → Inv b → Above (confirm_bound d (oldest_pending b)) b
unfolding confirm_bound oldest_pending
bound-Above d b v k = go (Assoc.lookup k b.entries) (v.oldest_below k)
  where
    go :
        (e : Option Entry)
        → covers_lsn b.oldest b.has_oldest e ≡ true
        → covers_lsn (if b.has_oldest && ltb b.oldest d then b.oldest else d) true e ≡ true
    go none h = refl
    go (some e) h = ground (arith, h)

bound-below : (d : ℕ) (b : Buffer) → confirm_bound d (oldest_pending b) ≤ d
unfolding confirm_bound oldest_pending
bound-below d b = ground arith

-- A confirmation that raises the position, or leaves it.
abbrev Confirmed : ℕ → Stream → Stream → Type 0
Confirmed p s t = (t.delivered ≡ s.delivered) × ((t.confirmed ≡ s.confirmed) ⊎ (t.confirmed ≡ p))

confirm-Confirmed : (sent : Bool) (p : ℕ) (s : Stream) → Confirmed p s (confirm sent p s).0
unfolding confirm
confirm-Confirmed sent p s = ground arith

cycle-Confirmed :
    (sent : Bool) (s : Stream) (b : Buffer)
    → Confirmed (confirm_bound s.delivered (oldest_pending b)) s (confirm_cycle sent s b).0
unfolding confirm_cycle
cycle-Confirmed sent s b =
    ground (arith, confirm-Confirmed sent (confirm_bound s.delivered (oldest_pending b)) s)

confirm_cycle_rises :
    (sent : Bool) (s : Stream) (b : Buffer) → s.confirmed ≤ (confirm_cycle sent s b).0.confirmed
unfolding confirm_cycle
confirm_cycle_rises sent s b = ground (
  arith,
  (confirm-Advances sent (confirm_bound s.delivered (oldest_pending b)) s).confirmed_rises,
)

-- A catch-up whose confirmed position is sound and not below a position.
abbrev SoundFrom : ℕ → Catchup × Option CycleError → Type 0
SoundFrom p q = Sound q.0.stream q.0.buffer × (p ≤ q.0.stream.confirmed)

confirm_cycle-Sound :
    (sent : Bool) (s : Stream) (b : Buffer)
    → Sound s b
    → Sound (confirm_cycle sent s b).0 b × (s.confirmed ≤ (confirm_cycle sent s b).0.confirmed)
confirm_cycle-Sound sent s b g = go (cycle-Confirmed sent s b)
  where
    bound : ℕ
    bound = confirm_bound s.delivered (oldest_pending b)

    go :
        Confirmed bound s (confirm_cycle sent s b).0
        → Sound (confirm_cycle sent s b).0 b × (s.confirmed ≤ (confirm_cycle sent s b).0.confirmed)
    go (d, inl stays) = (
      record {
        inv = g.inv;
        ceiling = omega (arith, d, stays, g.ceiling);
        above = subst (λ p. Above p b) (sym stays) g.above;
      },
      confirm_cycle_rises sent s b,
    )
    go (d, inr moves) = (
      record {
        inv = g.inv;
        ceiling = omega (arith, d, moves, bound-below s.delivered b);
        above = subst (λ p. Above p b) (sym moves) (bound-Above s.delivered b g.inv);
      },
      confirm_cycle_rises sent s b,
    )

-- The buffer whose entries no finished flush accounts for: after a drain whose flush failed, the one that was
-- drained.
abbrev unapplied : List String → World → Catchup → Buffer
unapplied names w c = elim (apply names w (release c.stream.delivered c.buffer).0).1 [
  | inr e ↦ (release c.stream.delivered c.buffer).0
  | inl o ↦ (apply names w (release c.stream.delivered c.buffer).0).0
]

-- The same of a cycle, which first gathers.
abbrev unapplied_by : List String → World → Catchup → Buffer
unapplied_by names w c =
    let ((s, b), failure) = gather (changes_left c.opts.max_changes) w.arrivals c.stream c.buffer in
    elim failure [ some e ↦ b | none ↦ unapplied names w (record c { stream = s; buffer = b }) ]

-- The same of the cycles of a run, up to the one that fails.
abbrev pub unapplied_in : List String → List World → Catchup → Buffer
unapplied_in names [] c = c.buffer
unapplied_in names (w ∷ ws) c =
    let rest = unapplied_in names ws (cycle names w c).0 in
    elim (cycle names w c).1 [ some e ↦ unapplied_by names w c | none ↦ rest ]

-- A sound catch-up, whose confirmed position lies also at or below the entries of a buffer.
abbrev pub Resumes : ℕ → Buffer → Catchup × Option CycleError → Type 0
Resumes p b q = SoundFrom p q × Above q.0.stream.confirmed b

finish-Resumes :
    (w : World) (o : CycleOutcome) (c : Catchup)
    → Sound c.stream c.buffer
    → Resumes c.stream.confirmed c.buffer (finish_cycle w o c)
unfolding finish_cycle record_cycle
finish-Resumes w o c g = failure (confirm_cycle w.report_sent c.stream c.buffer).1
  where
    after : Stream
    after = (confirm_cycle w.report_sent c.stream c.buffer).0

    sound :
        (Sound after c.buffer × (c.stream.confirmed ≤ after.confirmed))
        × Above after.confirmed c.buffer
    sound = let s = confirm_cycle-Sound w.report_sent c.stream c.buffer g in (s, s.0.above)

    measured :
        (x : Option ℕ)
        → Resumes c.stream.confirmed c.buffer (elim x [
          | none ↦ (record c { stream = after }, some wal_end_failed)
          | some wal_end ↦ (
            record_cycle o wal_end (record c { stream = after }),
            check_slot c.opts.slot_lag_ceiling w.slot,
          )
        ])
    measured none = sound
    measured (some x) = sound

    failure :
        (x : Option StreamError)
        → Resumes c.stream.confirmed c.buffer (elim x [
          | some e ↦ (record c { stream = after }, some (stream_failed e))
          | none ↦ elim w.wal_end [
            | none ↦ (record c { stream = after }, some wal_end_failed)
            | some wal_end ↦ (
              record_cycle o wal_end (record c { stream = after }),
              check_slot c.opts.slot_lag_ceiling w.slot,
            )
          ]
        ])
    failure (some e) = sound
    failure none = measured w.wal_end

apply_cycle-Resumes :
    (names : List String) (w : World) (c : Catchup)
    → Sound c.stream c.buffer
    → Resumes c.stream.confirmed (unapplied names w c) (apply_cycle names w c)
unfolding apply_cycle
apply_cycle-Resumes names w c g = go (apply names w released).1
  where
    p : ℕ
    p = c.stream.confirmed

    released : Buffer
    released = (release c.stream.delivered c.buffer).0

    below : Above p released
    below = release-Above p c.stream.delivered c.buffer g.above

    fine : Fine p (apply names w released).0
    fine = apply-Fine p names w released (release-Inv c.stream.delivered c.buffer g.inv, below)

    sound : Sound c.stream (apply names w released).0
    sound = record { inv = fine.0; ceiling = g.ceiling; above = fine.1 }

    go :
        (r : CycleOutcome ⊎ CycleError)
        → Resumes p
            (elim r [ inr e ↦ released | inl o ↦ (apply names w released).0 ])
            (elim r [
              | inr e ↦ (record c { buffer = (apply names w released).0 }, some e)
              | inl o ↦ finish_cycle w o (record c { buffer = (apply names w released).0 })
            ])
    go (inr e) = ((sound, omega arith), below)
    go (inl o) = finish-Resumes w o (record c { buffer = (apply names w released).0 }) sound

cycle-Resumes :
    (names : List String) (w : World) (c : Catchup)
    → Sound c.stream c.buffer
    → Resumes c.stream.confirmed (unapplied_by names w c) (cycle names w c)
unfolding cycle
cycle-Resumes names w c g = go gathered.1
  where
    gathered : Gathered
    gathered = gather (changes_left c.opts.max_changes) w.arrivals c.stream c.buffer

    stays : StaysSound c.stream gathered
    stays = gather-StaysSound (changes_left c.opts.max_changes) w.arrivals c.stream c.buffer g

    next : Catchup
    next = record c { stream = gathered.0.0; buffer = gathered.0.1 }

    go :
        (f : Option CycleError)
        → Resumes c.stream.confirmed
            (elim f [ some e ↦ gathered.0.1 | none ↦ unapplied names w next ])
            (elim f [ some e ↦ (next, some e) | none ↦ apply_cycle names w next ])
    go (some e) = ((stays.0, omega (arith, stays.1)), stays.0.above)
    go none =
        let ((sound, rises), above) = apply_cycle-Resumes names w next stays.0 in
        ((sound, omega (arith, rises, stays.1)), above)

-- Whatever the stream, the database and the copier do in any number of cycles, and wherever a cycle fails,
-- from a sound start: the confirmed position never falls, never passes the delivered position, and lies at or
-- below the position of every entry that is still buffered and, where the cycle that failed had drained a batch
-- and not flushed it, of every entry that stood in the buffer before that drain; and the buffer keeps its
-- invariant.
pub run-Resumes :
    (names : List String) (ws : List World) (c : Catchup)
    → Sound c.stream c.buffer
    → Resumes c.stream.confirmed (unapplied_in names ws c) (run names ws c)
unfolding run
run-Resumes names [] c g = ((g, omega arith), g.above)
run-Resumes names (w ∷ ws) c g =
    go (cycle names w c).1 (cycle-Resumes names w c g)
      (run-Resumes names ws (cycle names w c).0 (cycle-Resumes names w c g).0.0)
  where
    next : Catchup
    next = (cycle names w c).0

    go :
        (f : Option CycleError)
        → Resumes c.stream.confirmed (unapplied_by names w c) (cycle names w c)
        → Resumes next.stream.confirmed (unapplied_in names ws next) (run names ws next)
        → Resumes c.stream.confirmed
            (elim f [ some e ↦ unapplied_by names w c | none ↦ unapplied_in names ws next ])
            (elim f [ some e ↦ (next, some e) | none ↦ run names ws next ])
    go (some e) h rest = h
    go none h rest = ((rest.0.0, omega (arith, h.0.1, rest.0.1)), rest.1)
