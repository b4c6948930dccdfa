-- ===== src/Checksum/Settle/Judged.antt =====
-- What a verdict rests on.
use pg_sprite.Prelude.{
  false, Bool, ◌≡◌, true, ◌≢◌, ◌↔◌, arith, eq_iff, ==_iff, if◌then◌else◌, not, refl,
}
use pg_sprite.Checksum.Settle.{
  Verdict, digest_eq, judge, Digest, Observation, equal, settled, hot, diverged,
}

pub digest_eq_iff : (d e : Digest) → (digest_eq d e ≡ true) ↔ (d ≡ e)
unfolding digest_eq
digest_eq_iff d e = (
  λ h. ground (arith, h, eq_iff d.hash e.hash, ==_iff d.rows e.rows),
  λ h. ground (arith, h, eq_iff d.hash e.hash, ==_iff d.rows e.rows),
)

-- What the last read of a chunk says beside the read before it.
abbrev pub Means : Verdict → Observation → Observation → Type 0
Means equal prior now = now.shadow ≡ now.source
Means settled prior now = now.shadow ≡ prior.source
Means hot prior now = Unit {0}
Means diverged prior now =
    (now.source ≡ prior.source) × (now.shadow ≡ prior.shadow) × (now.shadow ≢ now.source)

pub judge-Means : (prior now : Observation) → Means (judge prior now) prior now
unfolding judge
judge-Means prior now =
    clean (digest_eq now.shadow now.source) refl (digest_eq now.shadow prior.source) refl
      (digest_eq now.source prior.source) refl (digest_eq now.shadow prior.shadow) refl
  where
    clean :
        (a : Bool)
        → digest_eq now.shadow now.source ≡ a
        → (b : Bool) → digest_eq now.shadow prior.source ≡ b
        → (c : Bool) → digest_eq now.source prior.source ≡ c
        → (d : Bool) → digest_eq now.shadow prior.shadow ≡ d
        → Means
            (if a
              then equal
              else (if b
                  then settled
                  else (if not c then hot else (if not d then hot else diverged))))
            prior
            now
    clean true p b q c r d s = (digest_eq_iff now.shadow now.source).0 p
    clean false p true q c r d s = (digest_eq_iff now.shadow prior.source).0 q
    clean false p false q false r d s = tt
    clean false p false q true r false s = tt
    clean false p false q true r true s = (
      (digest_eq_iff now.source prior.source).0 r,
      (digest_eq_iff now.shadow prior.shadow).0 s,
      λ h. ground (arith, p, (digest_eq_iff now.shadow now.source).1 h),
    )
