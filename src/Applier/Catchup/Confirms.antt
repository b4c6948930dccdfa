-- ===== src/Applier/Catchup/Confirms.antt =====
-- What a cycle may confirm.
use mathlib.Core.List.{[]}
use Prim.Native.Nat.{zero}
use pg_sprite.Decode.Stream.Order.{IsStamped}
use pg_sprite.Decode.Stream.Invariant.{next-Kept}
use pg_sprite.Decode.Stream.Stamped.{StampedReceived, next-Stamped}
use pg_sprite.Applier.Buffer.Adds.{add-Inv}
use pg_sprite.Applier.Catchup.Above.{Above, add-Above}
use pg_sprite.Applier.Buffer.Invariant.{Inv}
use pg_sprite.Applier.Buffer.{Buffer, AddError, add}
use pg_sprite.Applier.Catchup.{
  gather, Buffer, Gathered, List, Arrivals, suc, ended, some, not_added, stream_failed, delivery,
}
use pg_sprite.Prelude.{ℕ, List, Option, ◌≡◌, ◌≤◌, arith, none, ◌∷◌, subst, sym, refl, ◌∙◌}
use pg_sprite.Applier.Entry.{ChangeEvent}
use pg_sprite.Decode.Stream.{Stream, Arrivals, Received, next}

-- The confirmed position has not passed the delivered one, nor any buffered entry.
pub record Sound (s : Stream) (b : Buffer) : Type 0 where
  pub inv : Inv b
  pub ceiling : s.confirmed ≤ s.delivered
  pub above : Above s.confirmed b

-- A part of a cycle that confirms nothing.
abbrev pub StaysSound : Stream → Gathered → Type 0
StaysSound s q = Sound q.0.0 q.0.1 × (q.0.0.confirmed ≡ s.confirmed)

Sound-kept :
    (s t : Stream) (b : Buffer)
    → t.confirmed ≡ s.confirmed
    → s.delivered ≤ t.delivered
    → Sound s b
    → Sound t b
Sound-kept s t b c d g = record {
  inv = g.inv;
  ceiling = omega (arith, c, d, g.ceiling);
  above = subst (λ p. Above p b) (sym c) g.above;
}

add-Sound :
    (ev : ChangeEvent) (s : Stream) (b : Buffer)
    → ev.delivered ≡ s.delivered
    → Sound s b
    → Sound s (add ev b).0
add-Sound ev s b e g = record {
  inv = add-Inv ev b g.inv;
  ceiling = g.ceiling;
  above = add-Above s.confirmed ev b (omega (arith, e, g.ceiling)) g.above;
}

or-StaysSound :
    (s : Stream) (b : Buffer) (o : Option AddError) (rest : Gathered)
    → Sound s b
    → StaysSound s rest
    → StaysSound s (elim o [ none ↦ rest | some e ↦ ((s, b), some (not_added e)) ])
or-StaysSound s b none rest g h = h
or-StaysSound s b (some e) rest g h = (g, refl)

step-StaysSound :
    (n : ℕ) (later : List Arrivals) (s : Stream) (r : Received) (b : Buffer)
    → Sound s b
    → StampedReceived (s, r)
    → ((m : ℕ) (c : Buffer) → Sound s c → StaysSound s (gather m later s c))
    → StaysSound s (elim r [
      | ended e ↦ ((s, b), some (stream_failed e))
      | delivery d ↦ elim d.change [
        | none ↦ gather (suc n) later s b
        | some ev ↦
            let q = add ev b in
            let rest = gather n later s q.0 in
            elim q.1 [ none ↦ rest | some e ↦ ((s, q.0), some (not_added e)) ]
      ]
    ])
step-StaysSound n later s (ended e) b g h go = (g, refl)
step-StaysSound n later s (delivery d) b g h go = change d.change h
  where
    change :
        (c : Option ChangeEvent)
        → IsStamped c s
        → StaysSound s (elim c [
          | none ↦ gather (suc n) later s b
          | some ev ↦
              let q = add ev b in
              let rest = gather n later s q.0 in
              elim q.1 [ none ↦ rest | some e ↦ ((s, q.0), some (not_added e)) ]
        ])
    change none h = go (suc n) b g
    change (some ev) h =
        let sound = add-Sound ev s b h.0 g in
        or-StaysSound s (add ev b).0 (add ev b).1 (gather n later s (add ev b).0) sound
          (go n (add ev b).0 sound)

pub gather-StaysSound :
    (n : ℕ) (waits : List Arrivals) (s : Stream) (b : Buffer)
    → Sound s b
    → StaysSound s (gather n waits s b)
unfolding gather
gather-StaysSound zero [] s b g = (g, refl)
gather-StaysSound (suc n) [] s b g = (g, refl)
gather-StaysSound zero (a ∷ later) s b g = (g, refl)
gather-StaysSound (suc n) (a ∷ later) s b g =
    let r = (next a s).0 in
    let k = next-Kept a s in
    let stays =
      step-StaysSound n later r.0 r.1 b (Sound-kept s r.0 b k.0 k.1 g) (next-Stamped a s)
        (λ m c h. gather-StaysSound m later r.0 c h) in
    (stays.0, stays.1 ∙ k.0)
