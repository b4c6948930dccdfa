-- ===== src/Checksum/Settle.antt =====
-- pkg/checksum/settle.go: deciding a chunk that was found differing. What the catch-up has confirmed at each
-- poll, and what a reread finds, are arguments. The two loops run on fuel.
pub mod Bounded
pub mod Judged
use Prim.Native.Nat.{zero}
use pg_sprite.Copier.Types.{Chunk}
use pg_sprite.Prelude.{
  Bool, ℕ, Option, String, if◌then◌else◌, suc, true, ◌==◌, false, leb, none, not, ◌&&◌, some,
  str_eq,
}
use pg_sprite.Prelude.Int64.{Int64}

pub record Digest : Type 0 where
  pub rows : Int64
  pub hash : String

unfoldable pub digest_eq : Digest → Digest → Bool
digest_eq d e = d.rows == e.rows && str_eq d.hash e.hash

pub record Observation : Type 0 where
  pub chunk : Chunk
  pub source : Digest
  pub shadow : Digest
  pub lsn : ℕ

pub data Verdict : Type 0 where
  equal settled hot diverged : Verdict

unfoldable pub judge : Observation → Observation → Verdict
judge prior now =
    if digest_eq now.shadow now.source
    then equal
    else (if digest_eq now.shadow prior.source
        then settled
        else (if not (digest_eq now.source prior.source)
            then hot
            else (if not (digest_eq now.shadow prior.shadow) then hot else diverged)))

-- What one turn of the loop meets: the catch-up's position at each poll, whether a sleep is cut short, and
-- what the reread finds, nothing where it fails.
pub record Turn : Type 0 where
  pub confirmed : ℕ → ℕ
  pub sleep_fails : ℕ → Bool
  pub reread : Option Observation

pub data Waited : Type 0 where
  passed lagging sleep_failed out_of_fuel : Waited

-- awaitConfirmed, from a number of polls on, up to a limit
unfoldable pub await_confirmed : ℕ → Turn → ℕ → ℕ → ℕ → Waited
await_confirmed zero t limit polled lsn = out_of_fuel
await_confirmed (suc fuel) t limit polled lsn =
    let rest = await_confirmed fuel t limit (suc polled) lsn in
    if leb lsn (t.confirmed polled)
    then passed
    else (if leb limit polled
        then lagging
        else (if t.sleep_fails polled then sleep_failed else rest))

pub data UnresolvedCause : Type 0 where
  cause_lagging cause_hot : UnresolvedCause

pub data Settling : Type 0 where
  decided : Verdict → Observation → Settling
  -- The number of rereads, and the last read.
  unresolved : UnresolvedCause → ℕ → Observation → Settling
  broken unfinished : Settling

unfoldable pub after_wait : Waited → ℕ → Observation → Settling → Settling
after_wait passed rereads prior next = next
after_wait lagging rereads prior next = unresolved cause_lagging rereads prior
after_wait sleep_failed rereads prior next = broken
after_wait out_of_fuel rereads prior next = unfinished

abbrev pub is_hot : Verdict → Bool
is_hot hot = true
is_hot equal = false
is_hot settled = false
is_hot diverged = false

-- settle: the attempts and the polls are the options', the turns go by the number of rereads
unfoldable pub settle : ℕ → ℕ → ℕ → (ℕ → Turn) → ℕ → Observation → Settling
settle zero attempts polls turns rereads prior = unfinished
settle (suc fuel) attempts polls turns rereads prior =
    let t = turns rereads in
    after_wait (await_confirmed (suc polls) t polls 0 prior.lsn) rereads prior (elim t.reread [
      | none ↦ broken
      | some now ↦
          let again = settle fuel attempts polls turns (suc rereads) now in
          if not (is_hot (judge prior now))
          then decided (judge prior now) now
          else (if leb attempts (suc rereads)
              then unresolved cause_hot (suc rereads) now
              else again)
    ])
