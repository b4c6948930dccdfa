-- ===== src/Applier/Snapshot.antt =====
-- pkg/applier/snapshot.go: which transactions one snapshot of the source shows. A stream's 32-bit
-- transaction id and the source's 64-bit ones are natural numbers below 2 ^ 32 and 2 ^ 64. Reading and
-- parsing the server's text form is not modelled.
use pg_sprite.Prelude.{
  [], ◌∷◌, true, false, Bool, ℕ, List, if◌then◌else◌, ◌+◌, ◌<◌, ltb, not, ◌==◌, ◌^◌, leb, ◌%◌, ◌-◌,
  ◌≤◌, ◌≡◌, arith, ◌↔◌, ◌⊎◌,
}

pub record Snapshot : Type 0 where
  pub read : Bool
  pub everything : Bool
  pub xmin : ℕ
  pub xmax : ℕ
  pub in_progress : List ℕ

unfoldable pub all_visible : Snapshot
all_visible = record { read = true; everything = true; xmin = 0; xmax = 0; in_progress = [] }

unfoldable pub is_in_progress : ℕ → List ℕ → Bool
is_in_progress x [] = false
is_in_progress x (y ∷ ys) = if y == x then true else is_in_progress x ys

-- uint32(xid - uint32(xmax)), the distance before it is read as signed
abbrev pub forward : ℕ → ℕ → ℕ
forward xid xmax = (xid + 2 ^ 32 - xmax % 2 ^ 32) % 2 ^ 32

unfoldable pub lift : Snapshot → ℕ → ℕ
lift s xid =
    let ahead = forward xid s.xmax in
    if ltb ahead (2 ^ 31)
    then (s.xmax + ahead) % 2 ^ 64
    else (if ltb s.xmax (2 ^ 32 - ahead) then 0 else s.xmax - (2 ^ 32 - ahead))

unfoldable pub visible : Snapshot → ℕ → Bool
unfolding lift
visible s xid =
    if s.everything
    then true
    else (if not s.read
        then false
        else (let full = lift s xid in
            if ltb full s.xmin
            then true
            else (if leb s.xmax full then false else not (is_in_progress full s.in_progress))))

-- A transaction whose 64-bit id lies within half an epoch of the snapshot's `xmax` is recovered from
-- the 32 bits that the stream carries.
pub lift-low :
    (s : Snapshot) (full : ℕ)
    → full < 2 ^ 64
    → s.xmax < 2 ^ 64
    → full < s.xmax + 2 ^ 31
    → s.xmax ≤ full + 2 ^ 31
    → lift s (full % 2 ^ 32) ≡ full
unfolding lift
lift-low s full h x above below = ground arith

-- A snapshot that was read shows a transaction within half an epoch of its `xmax` exactly when the
-- transaction is below `xmin`, or below `xmax` and not listed as in progress.
pub visible_iff :
    (s : Snapshot) (full : ℕ)
    → full < 2 ^ 64
    → s.xmax < 2 ^ 64
    → full < s.xmax + 2 ^ 31
    → s.xmax ≤ full + 2 ^ 31
    → s.read ≡ true
    → s.everything ≡ false
    → (visible s (full % 2 ^ 32) ≡ true)
      ↔ ((full < s.xmin) ⊎ ((full < s.xmax) × (is_in_progress full s.in_progress ≡ false)))
unfolding visible
visible_iff s full h x above below r a = (
  λ v. ground (arith, lift-low s full h x above below),
  λ v. ground (arith, lift-low s full h x above below),
)
