-- ===== src/Copier/RetryExamples.antt =====
-- A chunk that collides as a whole, is copied around the key 7, and lands once that key is free.
use pg_sprite.Prelude.Int64.{int64}
use pg_sprite.Prelude.{refl, inr, arith, ◌≡◌, none, inl, ◌∷◌, [], some, false}
use pg_sprite.Copier.Retry.Bounded.{Ends, copy_until_clear-Ends}
use pg_sprite.Copier.Retry.{Passes, copy_until_clear, unique_violation, landed}

abbrev passes : Passes
passes = record {
  whole = λ p. inr unique_violation;
  around = λ p pending. elim pending [
    | none ↦ inl (int64 9, int64 7 ∷ [])
    | some keys ↦ inl (int64 1, [])
  ];
  wait_ends = λ p. false;
  settle_fails = λ p. false;
}

lands_on_third : copy_until_clear 10 passes 0 ≡ (landed (int64 10), 2)
unfolding copy_until_clear pg_sprite.Copier.Retry.earns_another_pass pg_sprite.Copier.Retry.collided
    pg_sprite.Copier.Retry.copy_around
lands_on_third = refl

copy_until_clear-Ends_example : Ends 10 passes 0 (copy_until_clear 10 passes 0)
copy_until_clear-Ends_example = copy_until_clear-Ends 10 passes 0 (omega arith)
