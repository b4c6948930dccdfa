-- ===== src/Copier/Position/Search.antt =====
-- The binary search finds a key exactly when an ascending list holds it.
use pg_sprite.Prelude.{
  ℕ, zero, suc, ◌+◌, ◌/◌, ◌≤◌, ◌<◌, ◌≡◌, ◌↔◌, true, ◌&&◌, List, arith, ltb, ◌==◌, length, get_or,
  Bool-cases, inl, inr, tests, ltb→lt,
}
use pg_sprite.Prelude.Int64.{Int64}
use pg_sprite.Copier.Position.{search_loop, binary_search}

abbrev pub IsAscending : List Int64 → Type 0
IsAscending xs = (i j : ℕ) → i ≤ j → j < length xs → get_or xs i 0 ≤ get_or xs j 0

-- The key stands in the list, at some index.
abbrev pub Holds : List Int64 → Int64 → Type 0
Holds xs key = (m : ℕ) × (m < length xs) × (get_or xs m 0 ≡ key)

module _ (xs : List Int64) (t : Int64) (asc : IsAscending xs) where
  -- What the loop keeps: elements before the range are below the target, those after are not.
  record Around (i j : ℕ) : Type 0 where
    ordered : i ≤ j
    inside : j ≤ length xs
    before : (m : ℕ) → m < i → get_or xs m 0 < t
    after : (m : ℕ) → j ≤ m → m < length xs → t ≤ get_or xs m 0

  go_high :
      (i j : ℕ) → i < j → Around i j → get_or xs ((i + j) / 2) 0 < t → Around ((i + j) / 2 + 1) j
  go_high i j h a low = record {
    ordered = omega arith;
    inside = a.inside;
    before = λ m hm. omega (arith, asc m ((i + j) / 2) (omega arith) (omega (arith, a.inside)));
    after = a.after;
  }

  go_low : (i j : ℕ) → i < j → Around i j → t ≤ get_or xs ((i + j) / 2) 0 → Around i ((i + j) / 2)
  go_low i j h a high = record {
    ordered = omega arith;
    inside = omega (arith, a.inside);
    before = a.before;
    after = λ m hm hl. omega (arith, asc ((i + j) / 2) m hm hl);
  }

  -- With fuel for the range the loop ends at one index.
  search_loop-Around :
      (fuel i j : ℕ)
      → j ≤ i + fuel
      → Around i j
      → Around (search_loop fuel xs t i j) (search_loop fuel xs t i j)
  unfolding search_loop
  search_loop-Around zero i j h a = record {
    ordered = omega arith;
    inside = omega (arith, a.inside, a.ordered);
    before = a.before;
    after = λ m hm hl. a.after m (omega arith) hl;
  }
  search_loop-Around (suc fuel) i j h a = elim (Bool-cases (ltb i j)) [
    | inl more ↦ elim (Bool-cases (ltb (get_or xs ((i + j) / 2) 0) t)) [
      | inl low ↦
          rw (more, low)
            (search_loop-Around fuel ((i + j) / 2 + 1) j (omega (tests, more))
              (go_high i j (ltb→lt i j more) a (ltb→lt _ _ low)))
      | inr high ↦
          rw (more, high)
            (search_loop-Around fuel i ((i + j) / 2) (omega (tests, more))
              (go_low i j (ltb→lt i j more) a (ground arith)))
    ]
    | inr done ↦ rw done (record {
      ordered = omega arith;
      inside = omega (arith, a.inside, a.ordered);
      before = a.before;
      after = λ m hm hl. a.after m (ground (arith, a.ordered)) hl;
    })
  ]

  found_at : (i : ℕ) → Around i i → (ltb i (length xs) && get_or xs i 0 == t) ≡ true → Holds xs t
  found_at i a e = (i, ground arith, ground arith)

  Holds-at : (i : ℕ) → Around i i → Holds xs t → (ltb i (length xs) && get_or xs i 0 == t) ≡ true
  Holds-at i a (m, inside, here) =
      let after_i : i ≤ m = elim (Bool-cases (ltb m i)) [
        | inl early ↦ absurd (omega (arith, a.before m (ltb→lt m i early)))
        | inr late ↦ ground arith
      ] in
      let low : get_or xs i 0 ≤ t = omega (arith, asc i m after_i inside) in
      let high : t ≤ get_or xs i 0 = a.after i (omega arith) (omega arith) in ground arith

  -- Over an ascending list the search answers as a membership test does.
  pub binary_search_iff : (binary_search xs t ≡ true) ↔ Holds xs t
  unfolding binary_search
  binary_search_iff =
      let start : Around 0 (length xs) = record {
        ordered = omega arith;
        inside = omega arith;
        before = λ m hm. elim hm [ ];
        after = λ m hm hl. absurd (omega arith);
      } in
      let ended = search_loop-Around (length xs) 0 (length xs) (omega arith) start in
      (found_at _ ended, Holds-at _ ended)
