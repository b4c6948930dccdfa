-- ===== src/Checksum/Examples.antt =====
-- A chunk that differs in the sweep, and settles on its first reread, and one that a recopy makes whole.
use pg_sprite.Checksum.Repair.{repair_live}
use pg_sprite.Checksum.Live.{Pass, check_live}
use pg_sprite.Checksum.Pass.{LiveOptions, Report, with_defaults, abort, Mismatch}
use pg_sprite.Prelude.{false, true, [], some, arith, ◌∷◌, ◌≡◌, none, refl}
use pg_sprite.Prelude.Int64.{int64, zero64}
use pg_sprite.Checksum.Live.Proofs.{Vouched, carries_proof, check_live-Vouched}
use pg_sprite.Checksum.Settle.Bounded.{Ends, settle-Ends}
use pg_sprite.Copier.Types.{Chunk, new_watermark}
use pg_sprite.Checksum.Settle.{Digest, Observation, Turn, settle}

abbrev old_rows : Digest
old_rows = record { rows = int64 1; hash = "a" }

abbrev new_rows : Digest
new_rows = record { rows = int64 2; hash = "b" }

abbrev range : Chunk
range = record { lower = int64 1; upper = int64 9; rows = int64 2 }

abbrev behind : Observation
behind = record { chunk = range; source = new_rows; shadow = old_rows; lsn = 50 }

abbrev caught_up : Observation
caught_up = record { chunk = range; source = new_rows; shadow = new_rows; lsn = 60 }

abbrev turn : Turn
turn = record { confirmed = λ i. 55; sleep_fails = λ i. false; reread = some caught_up }

settle-Ends_example : Ends 3 300 (λ n. turn) 3 0 behind (settle 3 3 300 (λ n. turn) 0 behind)
settle-Ends_example =
    settle-Ends 3 3 300 (λ n. turn) 3 0 behind (omega arith) (omega arith) (omega arith)
      (omega arith)

abbrev options : LiveOptions
options = record {
  has_confirmed = true;
  has_flushes = true;
  attempts = zero64;
  settle_wait = zero64;
  poll = zero64;
}

abbrev report : Report
report = record {
  through = new_watermark (int64 9);
  chunks = 1;
  rows = int64 2;
  mismatches = [];
  settled = 0;
  unsettled = 0;
}

abbrev pass : Pass
pass = record {
  running = false;
  sweep = some (report, behind ∷ []);
  turns = λ p n. turn;
  lost = false;
  recopied = none;
  repair_turns = λ m n. turn;
}

proved : carries_proof (check_live abort options (new_watermark (int64 9)) pass) ≡ true
unfolding check_live pg_sprite.Checksum.Pass.policy_fails pg_sprite.Checksum.Pass.validate
    with_defaults new_watermark pg_sprite.Checksum.Live.conclude
    pg_sprite.Checksum.Live.sweep_and_settle pg_sprite.Checksum.Live.settle_all
    pg_sprite.Checksum.Live.settle_chunk settle pg_sprite.Checksum.Settle.after_wait
    pg_sprite.Checksum.Settle.await_confirmed pg_sprite.Checksum.Settle.judge
    pg_sprite.Checksum.Settle.digest_eq pg_sprite.Checksum.Pass.is_clean
    pg_sprite.Checksum.Live.prove
proved = refl

check_live-Vouched_example :
    Vouched (with_defaults options) pass (check_live abort options (new_watermark (int64 9)) pass)
check_live-Vouched_example = check_live-Vouched abort options (new_watermark (int64 9)) pass proved

abbrev mismatch : Mismatch
mismatch = record { chunk = range; source = new_rows; shadow = old_rows }

repaired : repair_live options (λ m n. turn) (some 52) (mismatch ∷ []) ≡ (1, none)
unfolding repair_live pg_sprite.Checksum.Repair.settle_repairs
    pg_sprite.Checksum.Repair.settle_repair pg_sprite.Checksum.Settle.await_confirmed
    pg_sprite.Checksum.Repair.repair_reread pg_sprite.Checksum.Settle.digest_eq
repaired = refl
