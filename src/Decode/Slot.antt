-- ===== src/Decode/Slot.antt =====
-- pkg/decode/slot_lag.go: how the replication slot is judged against the ceiling on the write-ahead log
-- that it keeps.
use pg_sprite.Prelude.Int64.{Int64, int64}
use pg_sprite.Prelude.{Bool, Option, false, if◌then◌else◌, none, true, ltb, some, not}

-- What the server says of the log that a slot needs.
pub data WalStatus : Type 0 where
  reserved extended unreserved lost unrecognised : WalStatus

-- A measure that the server may not give.
pub record RetainedWal : Type 0 where
  pub known : Bool
  pub bytes : Int64

pub record SlotStatus : Type 0 where
  pub wal_status : WalStatus
  pub retained : RetainedWal

pub data SlotError : Type 0 where
  ceiling_too_low slot_lost lag_unknown lag_exceeded : SlotError

unfoldable pub is_lost : WalStatus → Bool
is_lost reserved = false
is_lost extended = false
is_lost unreserved = false
is_lost lost = true
is_lost unrecognised = false

unfoldable pub within_lag_ceiling : Int64 → SlotStatus → Option SlotError
within_lag_ceiling ceiling s =
    if ltb ceiling (int64 1)
    then some ceiling_too_low
    else (if is_lost s.wal_status
        then some slot_lost
        else (if not s.retained.known
            then some lag_unknown
            else (if ltb ceiling s.retained.bytes then some lag_exceeded else none)))
