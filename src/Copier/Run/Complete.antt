-- ===== src/Copier/Run/Complete.antt =====
-- When Run may report success.
use pg_sprite.Copier.Chunker.Coverage.{done_edge}
use pg_sprite.Copier.Ledger.Progress.{watermark-reaches_cut}
use pg_sprite.Copier.Position.Standing.{Placed, classify-Placed}
use pg_sprite.Copier.Run.Invariant.{Agree}
use pg_sprite.Copier.Cover.{edge}
use pg_sprite.Prelude.Int64.{Int64, max_int64}
use pg_sprite.Copier.Ledger.{contains, Ledger, is_nil}
use pg_sprite.Copier.Run.{finish, Copier, CopyError}
use pg_sprite.Copier.Types.{Watermark}
use pg_sprite.Prelude.{
  refl, none, some, [], true, false, Bool, Option, ◌≡◌, ◌<◌, ◌^◌, arith, ◌∙◌, sym,
}
use pg_sprite.Copier.Position.{uncut, in_flight, landed, KeyState, classify, position}

-- A key that stands in the ledger as landed when nothing is in flight and the watermark is complete.
whole_edge : (w : Watermark) → w.valid ≡ true → w.value ≡ max_int64 → edge w ≡ 2 ^ 64
whole_edge w v e = rw (v, e) (omega arith)

-- What finish has read when it reports no error.
finish_read :
    (lost : Bool) (cause : Option CopyError) (c : Copier)
    → finish lost cause c ≡ none
    → (lost ≡ false)
      × (cause ≡ none)
      × (c.ledger.in_flight ≡ [])
      × (edge c.ledger.watermark ≡ 2 ^ 64)
unfolding finish is_nil
finish_read lost cause c e = ground arith

landed_of_Placed :
    (l : Ledger) (k : Int64) (s : KeyState)
    → l.in_flight ≡ []
    → k < edge l.cut
    → Placed l k s
    → s ≡ landed
unfolding contains
landed_of_Placed l k uncut e h st = absurd (omega arith)
landed_of_Placed l k in_flight e h (_, (c, (i, _), _)) = cc (e)
landed_of_Placed l k landed e h st = refl

-- When Run reports no error, on a state where the ledger's invariant holds and the chunker is not behind it,
-- whether or not every cut committed, the lock was not lost, no
-- worker failed, and every int64 key is landed.
pub finish-landed :
    (lost : Bool) (cause : Option CopyError) (kept : Bool) (c : Copier) (k : Int64)
    → Agree kept c
    → finish lost cause c ≡ none
    → k < 2 ^ 64
    → (lost ≡ false) × (cause ≡ none) × (classify (position c.ledger) k ≡ landed)
finish-landed lost cause kept c k a e h =
    let (held, clean, empty, whole) = finish_read lost cause c e in
    let level = watermark-reaches_cut c.ledger a.ledger empty in
    (
      held,
      clean,
      landed_of_Placed c.ledger k _ empty (omega (arith, level, whole))
          (classify-Placed c.ledger k a.ledger),
    )

-- When chunker and ledger agree on the cut frontier, the chunker is done, every claimed chunk has landed and the lock was
-- not lost, Run reports exactly what stopped the workers: a clean copy is never refused for its own
-- accounting.
pub finish_clean :
    (c : Copier)
    → Agree true c
    → c.chunker.done ≡ true
    → c.ledger.in_flight ≡ []
    → (cause : Option CopyError) → finish false cause c ≡ cause
unfolding finish is_nil
finish_clean c a d e (some x) = refl
finish_clean c a d e none =
    let whole : edge c.ledger.watermark ≡ 2 ^ 64 =
      watermark-reaches_cut c.ledger a.ledger e ∙ sym (a.level refl) ∙ done_edge c.chunker d in
    rw e (ground (arith, whole))
