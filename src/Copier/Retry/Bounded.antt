-- ===== src/Copier/Retry/Bounded.antt =====
-- The passes over a chunk end.
use Prim.Native.Nat.{zero}
use pg_sprite.Prelude.Int64.{Int64, zero64, add64}
use pg_sprite.Copier.Retry.{
  deadlocked, earns_another_pass, rerun_whole, PassError, Passes, settle_refused, wait_ended,
  Copied, false, landed, suc, inr, stopped, outlasted, waits_before, copy_around, copy_until_clear,
  unfinished, is_nil, is_none, refuses_skipping,
}
use pg_sprite.Prelude.{
  ℕ, ◌≤◌, ◌≡◌, false, true, arith, refl, ◌+◌, inl, ◌⊎◌, Option, List, [], if◌then◌else◌, not, Bool,
  leb, none, ◌∷◌, ◌&&◌, some, ◌==◌,
}

-- How they ended, from a count of collisions: the chunk landed on a pass that left nothing behind, or its
-- passes ran out on an error that earns another one, or it stopped on an error that is no deadlock. No pass
-- was numbered above the attempts, and no more collisions were counted than attempts.
abbrev pub Ends : ℕ → Passes → ℕ → Copied → Type 0
Ends attempts ps base (landed rows, m) =
    (base ≤ m)
    × (m ≤ base + attempts)
    × (((p : ℕ) × (p ≤ attempts) × (r : Int64) × (ps.whole p ≡ inl r))
        ⊎ ((p : ℕ) × (p ≤ attempts)
            × (pending : Option (List Int64)) × (r : Int64) × (ps.around p pending ≡ inl (r, []))))
Ends attempts ps base (stopped e, m) = (deadlocked e ≡ false) × (base ≤ m) × (m ≤ base + attempts)
Ends attempts ps base (outlasted pending e, m) =
    (earns_another_pass e ≡ true) × (base ≤ m) × (m ≤ base + attempts)
Ends attempts ps base (unfinished, m) = ⊥

earns_not : (e : PassError) → earns_another_pass e ≡ false → deadlocked e ≡ false
unfolding earns_another_pass
earns_not e h = ground (arith, h)

deadlock_earns : (e : PassError) → deadlocked e ≡ true → earns_another_pass e ≡ true
unfolding earns_another_pass
deadlock_earns e h = ground (arith, h)

wait_ended_plain : deadlocked wait_ended ≡ false
unfolding deadlocked
wait_ended_plain = refl

settle_refused_plain : deadlocked settle_refused ≡ false
unfolding deadlocked
settle_refused_plain = refl

-- The branch of a pass that failed.
earned-Ends :
    (attempts : ℕ) (ps : Passes) (base n : ℕ) (d : PassError) (next : Copied)
    → base ≤ n
    → n ≤ base + attempts
    → (earns_another_pass d ≡ true → Ends attempts ps base next)
    → Ends attempts ps base (if not (earns_another_pass d) then (stopped d, n) else next)
earned-Ends attempts ps base n d next b m g = go (earns_another_pass d) refl
  where
    go :
        (x : Bool)
        → earns_another_pass d ≡ x
        → Ends attempts ps base (if not x then (stopped d, n) else next)
    go false h = (earns_not d h, b, m)
    go true h = g h

rerun-Ends :
    (fuel attempts : ℕ) (ps : Passes) (base pass : ℕ) (collision : PassError) (n : ℕ)
    → attempts + 2 ≤ pass + fuel
    → base ≤ n
    → n + 1 ≤ base + pass
    → pass ≤ attempts + 1
    → earns_another_pass collision ≡ true
    → Ends attempts ps base (rerun_whole fuel attempts ps pass collision n)
unfolding rerun_whole
rerun-Ends zero attempts ps base pass collision n f b c p e = absurd (omega (arith, f, p))
rerun-Ends (suc fuel) attempts ps base pass collision n f b c p e =
    over (leb pass attempts) refl (waits_before ps pass) (λ d to g.
      rerun-Ends fuel attempts ps base (suc pass) d (suc n) (omega (arith, f)) (omega (arith, b))
        (omega (arith, c)) (omega (arith, to)) g)
  where
    few : n ≤ base + attempts
    few = omega (arith, c, p)

    copied :
        (x : Int64 ⊎ PassError)
        → ps.whole pass ≡ x
        → pass ≤ attempts
        → ((d : PassError)
            → pass ≤ attempts
            → earns_another_pass d ≡ true
            → Ends attempts ps base (rerun_whole fuel attempts ps (suc pass) d (suc n)))
        → Ends attempts ps base (elim x [
          | inl rows ↦ (landed rows, n)
          | inr d ↦
              let next = rerun_whole fuel attempts ps (suc pass) d (suc n) in
              if not (earns_another_pass d) then (stopped d, n) else next
        ])
    copied (inl rows) at to later = (b, few, inl (pass, to, rows, at))
    copied (inr d) at to later =
        earned-Ends attempts ps base n d (rerun_whole fuel attempts ps (suc pass) d (suc n)) b few
          (λ g. later d to g)

    over :
        (l : Bool)
        → leb pass attempts ≡ l
        → (w : Bool)
        → ((d : PassError)
            → pass ≤ attempts
            → earns_another_pass d ≡ true
            → Ends attempts ps base (rerun_whole fuel attempts ps (suc pass) d (suc n)))
        → Ends attempts ps base (
            if not l
            then (outlasted none collision, n)
            else (if w then (stopped wait_ended, n) else elim (ps.whole pass) [
              | inl rows ↦ (landed rows, n)
              | inr d ↦
                  let next = rerun_whole fuel attempts ps (suc pass) d (suc n) in
                  if not (earns_another_pass d) then (stopped d, n) else next
            ]))
    over false l w later = (e, b, few)
    over true l true later = (wait_ended_plain, b, few)
    over true l false later = copied (ps.whole pass) refl (ground (arith, l)) later

around-Ends :
    (fuel attempts : ℕ) (ps : Passes) (base pass : ℕ) (pending : Option (List Int64))
    (total : Int64) (collision : PassError) (n : ℕ)
    → attempts + 2 ≤ pass + fuel
    → base ≤ n
    → n + 1 ≤ base + pass
    → pass ≤ attempts + 1
    → earns_another_pass collision ≡ true
    → Ends attempts ps base (copy_around fuel attempts ps pass pending total collision n)
unfolding copy_around
around-Ends zero attempts ps base pass pending total collision n f b c p e =
    absurd (omega (arith, f, p))
around-Ends (suc fuel) attempts ps base pass pending total collision n f b c p e =
    over (pass == attempts + 1) refl (waits_before ps pass) (λ more t d to g.
      around-Ends fuel attempts ps base (suc pass) more t d (suc n) (omega (arith, f))
        (omega (arith, b)) (omega (arith, c)) (omega (arith, to)) g)
  where
    few : n ≤ base + attempts
    few = omega (arith, c, p)

    rerun :
        pass ≤ attempts
        → Ends attempts ps base (rerun_whole fuel attempts ps (suc pass) collision n)
    rerun to =
        rerun-Ends fuel attempts ps base (suc pass) collision n (omega (arith, f)) b
          (omega (arith, c)) (omega (arith, to)) e

    refused :
        (d : PassError)
        → (x : Bool) → deadlocked d ≡ x
        → (y : Bool) → (again : Copied) → pass ≤ attempts
        → (earns_another_pass d ≡ true → Ends attempts ps base again)
        → Ends attempts ps base (
            if x
            then again
            else (if y
                then rerun_whole fuel attempts ps (suc pass) collision n
                else (stopped d, n)))
    refused d true h y again to g = g (deadlock_earns d h)
    refused d false h true again to g = rerun to
    refused d false h false again to g = (h, b, few)

    settled_or :
        (rows : Int64) (held : List Int64)
        → ps.around pass pending ≡ inl (rows, held)
        → (z : Bool) → (next : Copied) → pass ≤ attempts
        → Ends attempts ps base next
        → Ends attempts ps base (
            if is_nil held
            then (landed (add64 total rows), n)
            else (if z then (stopped settle_refused, n) else next))
    settled_or rows [] at z next to g = (b, few, inr (pass, to, pending, rows, at))
    settled_or rows (k ∷ ks) at true next to g = (settle_refused_plain, b, few)
    settled_or rows (k ∷ ks) at false next to g = g

    passed :
        (x : (Int64 × List Int64) ⊎ PassError)
        → ps.around pass pending ≡ x
        → pass ≤ attempts
        → ((more : Option (List Int64)) (t : Int64) (d : PassError)
            → pass ≤ attempts
            → earns_another_pass d ≡ true
            → Ends attempts ps base (copy_around fuel attempts ps (suc pass) more t d (suc n)))
        → Ends attempts ps base (elim x [
          | inr d ↦
              let again = copy_around fuel attempts ps (suc pass) pending total d (suc n) in
              if deadlocked d
              then again
              else (if is_none pending && refuses_skipping d
                  then rerun_whole fuel attempts ps (suc pass) collision n
                  else (stopped d, n))
          | inl (rows, held) ↦
              let next =
                copy_around fuel attempts ps
                  (suc pass)
                  (some held)
                  (add64 total rows)
                  collision
                  (suc n) in
              if is_nil held
              then (landed (add64 total rows), n)
              else (if ps.settle_fails pass then (stopped settle_refused, n) else next)
        ])
    passed (inr d) at to later =
        refused d (deadlocked d) refl (is_none pending && refuses_skipping d)
          (copy_around fuel attempts ps (suc pass) pending total d (suc n)) to
          (λ g. later pending total d to g)
    passed (inl (rows, held)) at to later =
        settled_or rows held at (ps.settle_fails pass)
          (copy_around fuel attempts ps (suc pass) (some held) (add64 total rows) collision (suc n))
          to (later (some held) (add64 total rows) collision to e)

    over :
        (l : Bool)
        → (pass == attempts + 1) ≡ l
        → (w : Bool)
        → ((more : Option (List Int64)) (t : Int64) (d : PassError)
            → pass ≤ attempts
            → earns_another_pass d ≡ true
            → Ends attempts ps base (copy_around fuel attempts ps (suc pass) more t d (suc n)))
        → Ends attempts ps base (
            if l
            then (outlasted pending collision, n)
            else (if w then (stopped wait_ended, n) else elim (ps.around pass pending) [
              | inr d ↦
                  let again = copy_around fuel attempts ps (suc pass) pending total d (suc n) in
                  if deadlocked d
                  then again
                  else (if is_none pending && refuses_skipping d
                      then rerun_whole fuel attempts ps (suc pass) collision n
                      else (stopped d, n))
              | inl (rows, held) ↦
                  let next =
                    copy_around fuel attempts ps
                      (suc pass)
                      (some held)
                      (add64 total rows)
                      collision
                      (suc n) in
                  if is_nil held
                  then (landed (add64 total rows), n)
                  else (if ps.settle_fails pass then (stopped settle_refused, n) else next)
            ]))
    over true l w later = (e, b, few)
    over false l true later = (wait_ended_plain, b, few)
    over false l false later = passed (ps.around pass pending) refl (ground (arith, l, p)) later

-- Under options that allow at least one attempt, the passes over a chunk always come to an end, on as much fuel
-- as there are attempts: the chunk lands only on a pass that inserted the whole range or left no key behind;
-- the copy gives up on a collision or a deadlock only, and stops on a deadlock never; no pass is numbered above
-- the attempts, and no more collisions are counted than attempts.
pub copy_until_clear-Ends :
    (attempts : ℕ) (ps : Passes) (n : ℕ)
    → 1 ≤ attempts
    → Ends attempts ps n (copy_until_clear attempts ps n)
unfolding copy_until_clear
copy_until_clear-Ends attempts ps n one = first (ps.whole 1) refl
  where
    first :
        (x : Int64 ⊎ PassError)
        → ps.whole 1 ≡ x
        → Ends attempts ps n (elim x [
          | inl rows ↦ (landed rows, n)
          | inr e ↦
              let around = copy_around attempts attempts ps 2 none zero64 e (suc n) in
              if not (earns_another_pass e) then (stopped e, n) else around
        ])
    first (inl rows) at = (omega arith, omega arith, inl (1, one, rows, at))
    first (inr e) at =
        earned-Ends attempts ps n n e (copy_around attempts attempts ps 2 none zero64 e (suc n))
          (omega arith) (omega arith)
          (λ g.
            around-Ends attempts attempts ps n 2 none zero64 e (suc n) (omega arith) (omega arith)
              (omega arith) (omega (arith, one)) g)
