-- ===== src/Copier/Retry.antt =====
-- pkg/copier/retry.go: the passes over one chunk that collides. What a pass does in the database, and whether
-- the wait before it is cut short or settling the chunk is refused, are arguments, by the pass's number. The
-- time that a pass took is left out. The loops run on fuel.
pub mod Bounded
use Prim.Native.Nat.{zero}
use mathlib.Core.List.{[]}
use mathlib.Core.Option.{none}
use pg_sprite.Prelude.Int64.{Int64, add64, zero64}
use pg_sprite.Prelude.{
  Bool, List, Option, ℕ, inl, not, suc, true, ◌||◌, false, if◌then◌else◌, inr, some, ◌==◌, ◌∷◌, leb,
  none, ◌&&◌, ◌+◌, ◌⊎◌,
}

pub data PassError : Type 0 where
  unique_violation exclusion_violation deadlock_detected not_in_prerequisite_state : PassError
  other_error settle_refused wait_ended : PassError

unfoldable pub collided : PassError → Bool
collided unique_violation = true
collided exclusion_violation = true
collided deadlock_detected = false
collided not_in_prerequisite_state = false
collided other_error = false
collided settle_refused = false
collided wait_ended = false

unfoldable pub deadlocked : PassError → Bool
deadlocked deadlock_detected = true
deadlocked unique_violation = false
deadlocked exclusion_violation = false
deadlocked not_in_prerequisite_state = false
deadlocked other_error = false
deadlocked settle_refused = false
deadlocked wait_ended = false

unfoldable pub earns_another_pass : PassError → Bool
earns_another_pass e = collided e || deadlocked e

unfoldable pub refuses_skipping : PassError → Bool
refuses_skipping not_in_prerequisite_state = true
refuses_skipping unique_violation = false
refuses_skipping exclusion_violation = false
refuses_skipping deadlock_detected = false
refuses_skipping other_error = false
refuses_skipping settle_refused = false
refuses_skipping wait_ended = false

-- The strict insert, and the pass around held-off rows, which takes the keys that are still pending and gives
-- the rows it inserted and the keys it held off.
pub record Passes : Type 0 where
  pub whole : ℕ → Int64 ⊎ PassError
  pub around : ℕ → Option (List Int64) → (Int64 × List Int64) ⊎ PassError
  pub wait_ends : ℕ → Bool
  pub settle_fails : ℕ → Bool

pub data Ending : Type 0 where
  landed : Int64 → Ending
  stopped : PassError → Ending
  -- The keys still pending, and the latest pass's error.
  outlasted : Option (List Int64) → PassError → Ending
  unfinished : Ending

-- With the collisions counted.
abbrev pub Copied : Type 0
Copied = Ending × ℕ

-- The wait before a pass, which the second pass does not make.
abbrev pub waits_before : Passes → ℕ → Bool
waits_before ps pass = not (pass == 2) && ps.wait_ends pass

-- rerunWhole, from a pass on
unfoldable pub rerun_whole : ℕ → ℕ → Passes → ℕ → PassError → ℕ → Copied
rerun_whole zero attempts ps pass collision n = (unfinished, n)
rerun_whole (suc fuel) attempts ps pass collision n =
    if not (leb pass attempts)
    then (outlasted none collision, n)
    else (if waits_before ps pass then (stopped wait_ended, n) else elim (ps.whole pass) [
      | inl rows ↦ (landed rows, n)
      | inr e ↦
          let next = rerun_whole fuel attempts ps (suc pass) e (suc n) in
          if not (earns_another_pass e) then (stopped e, n) else next
    ])

abbrev pub is_none {ℓ} : {A : Type ℓ} → Option A → Bool
is_none none = true
is_none (some x) = false

abbrev pub is_nil {ℓ} : {A : Type ℓ} → List A → Bool
is_nil [] = true
is_nil (x ∷ xs) = false

-- copyAroundCollisions, from a pass on
unfoldable pub copy_around :
    ℕ → ℕ → Passes → ℕ → Option (List Int64) → Int64 → PassError → ℕ → Copied
copy_around zero attempts ps pass pending total collision n = (unfinished, n)
copy_around (suc fuel) attempts ps pass pending total collision n =
    if pass == attempts + 1
    then (outlasted pending collision, n)
    else (if waits_before ps pass then (stopped wait_ended, n) else elim (ps.around pass pending) [
      | inr e ↦
          let again = copy_around fuel attempts ps (suc pass) pending total e (suc n) in
          if deadlocked e
          then again
          else (if is_none pending && refuses_skipping e
              then rerun_whole fuel attempts ps (suc pass) collision n
              else (stopped e, n))
      | inl (rows, held) ↦
          let next =
            copy_around fuel attempts ps (suc pass) (some held) (add64 total rows) collision
              (suc n) in
          if is_nil held
          then (landed (add64 total rows), n)
          else (if ps.settle_fails pass then (stopped settle_refused, n) else next)
    ])

unfoldable pub copy_until_clear : ℕ → Passes → ℕ → Copied
copy_until_clear attempts ps n = elim (ps.whole 1) [
  | inl rows ↦ (landed rows, n)
  | inr e ↦
      let around = copy_around attempts attempts ps 2 none zero64 e (suc n) in
      if not (earns_another_pass e) then (stopped e, n) else around
]
