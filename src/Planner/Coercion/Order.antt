-- ===== src/Planner/Coercion/Order.antt =====
-- The relabelling type changes, described by the families of the two types.
use pg_sprite.Prelude.Int64.{Int64}
use pg_sprite.Planner.Coercion.{
  int32s_equal, numeric_widens, varchar_widens, List, Int64, binary_coercible,
}
use pg_sprite.Prelude.{
  [], ◌∷◌, true, false, refl, List, ◌≡◌, arith, ==_iff, str_eq, eq_iff, ◌↔◌, ◌⊎◌, String, subst, ap,
  inl, ◌≢◌, ◌≤◌, inr,
}
use pg_sprite.Planner.Types.{TypeShape}

-- Equal modifiers are the same for every rule.
mods_same : (xs ys : List Int64) → int32s_equal xs ys ≡ true → xs ≡ ys
unfolding int32s_equal
mods_same [] [] h = refl
mods_same [] (y ∷ ys) h = absurd (ground arith)
mods_same (x ∷ xs) [] h = absurd (ground arith)
mods_same (x ∷ xs) (y ∷ ys) h =
    let head : x ≡ y = (==_iff x y).0 (ground arith) in
    let tail : xs ≡ ys = mods_same xs ys (ground arith) in λ i. head i ∷ tail i

mods_refl : (xs : List Int64) → int32s_equal xs xs ≡ true
unfolding int32s_equal
mods_refl [] = refl
mods_refl (x ∷ xs) = ground (arith, mods_refl xs)

-- The bound on a varchar's length is dropped, or set where there was one and not smaller.
abbrev pub Lengthens : List Int64 → List Int64 → Type 0
Lengthens old next =
    (next ≡ []) ⊎ ((n : Int64) × (m : Int64) × (old ≡ n ∷ []) × (next ≡ m ∷ []) × (n ≤ m))

-- The bounds on a numeric are dropped, or the precision is not smaller and the scale the same.
abbrev pub Refines : List Int64 → List Int64 → Type 0
Refines old next =
    (next ≡ [])
    ⊎ ((p : Int64) × (q : Int64) × (scale : Int64) × (old ≡ p ∷ scale ∷ [])
        × (next ≡ q ∷ scale ∷ [])
        × (p ≤ q))

varchar_of : (old next : List Int64) → varchar_widens old next ≡ true → Lengthens old next
unfolding varchar_widens
varchar_of old [] h = inl refl
varchar_of (n ∷ []) (m ∷ []) h = inr (n, m, refl, refl, ground (arith, h))
varchar_of [] (m ∷ ms) h = absurd (ground (arith, h))
varchar_of (n ∷ []) (m ∷ l ∷ ms) h = absurd (ground (arith, h))
varchar_of (n ∷ k ∷ ns) (m ∷ ms) h = absurd (ground (arith, h))

of_Lengthens : (old next : List Int64) → Lengthens old next → varchar_widens old next ≡ true
unfolding varchar_widens
of_Lengthens old next (inl e) = rw e
of_Lengthens old next (inr (n, m, e, f, h)) = rw (e, f) (ground (arith, h))

numeric_of : (old next : List Int64) → numeric_widens old next ≡ true → Refines old next
unfolding numeric_widens
numeric_of old [] h = inl refl
numeric_of (p ∷ s ∷ []) (q ∷ r ∷ []) h =
    let same : r ≡ s = (==_iff r s).0 (ground (arith, h)) in
    inr (p, q, s, refl, (λ i. q ∷ same i ∷ []), ground (arith, h))
numeric_of [] (q ∷ ms) h = absurd (ground (arith, h))
numeric_of (p ∷ []) (q ∷ ms) h = absurd (ground (arith, h))
numeric_of (p ∷ s ∷ []) (q ∷ []) h = absurd (ground (arith, h))
numeric_of (p ∷ s ∷ []) (q ∷ r ∷ m ∷ ms) h = absurd (ground (arith, h))
numeric_of (p ∷ s ∷ n ∷ ns) (q ∷ ms) h = absurd (ground (arith, h))

of_Refines : (old next : List Int64) → Refines old next → numeric_widens old next ≡ true
unfolding numeric_widens
of_Refines old next (inl e) = rw e
of_Refines old next (inr (p, q, s, e, f, h)) = rw (e, f) (ground (arith, h, (==_iff s s).1 refl))

-- The types are named, and are both arrays or both not; and they have one name and the same modifiers, or are no
-- arrays and a varchar that becomes a text, a varchar whose bound grows or goes, or a numeric whose precision does.
abbrev pub Relabels : TypeShape → TypeShape → Type 0
Relabels old next =
    (old.name ≢ "")
    × (next.name ≢ "")
    × (old.array ≡ next.array)
    × (((old.name ≡ next.name) × (old.mods ≡ next.mods))
        ⊎ ((old.array ≡ false)
            × (((old.name ≡ "varchar") × (next.name ≡ "text"))
                ⊎ (((old.name ≡ "varchar") × (next.name ≡ "varchar") × Lengthens old.mods next.mods)
                    ⊎ ((old.name ≡ "numeric")
                        × (next.name ≡ "numeric")
                        × Refines old.mods next.mods)))))

same_mods : (xs ys : List Int64) → xs ≡ ys → int32s_equal xs ys ≡ true
same_mods xs ys e = subst (λ zs. int32s_equal xs zs ≡ true) e (mods_refl xs)

not_varchar : (n : String) → n ≡ "numeric" → str_eq n "varchar" ≡ false
not_varchar n e = ap (λ m. str_eq m "varchar") e

not_text : (n : String) → n ≡ "varchar" → str_eq n "text" ≡ false
not_text n e = ap (λ m. str_eq m "text") e

-- The same by the planner's own tests on the modifiers.
abbrev Passes : TypeShape → TypeShape → Type 0
Passes old next =
    (str_eq old.name "" ≡ false)
    × (str_eq next.name "" ≡ false)
    × (old.array ≡ next.array)
    × (((old.name ≡ next.name) × (old.mods ≡ next.mods))
        ⊎ ((old.array ≡ false)
            × (((old.name ≡ "varchar") × (next.name ≡ "text"))
                ⊎ (((old.name ≡ "varchar")
                      × (next.name ≡ "varchar")
                      × (varchar_widens old.mods next.mods ≡ true))
                    ⊎ ((old.name ≡ "numeric")
                        × (next.name ≡ "numeric")
                        × (numeric_widens old.mods next.mods ≡ true))))))

named_of : (n : String) → str_eq n "" ≡ false → n ≢ ""
named_of n h e = ground (arith, h, (eq_iff n "").1 e)

of_named : (n : String) → n ≢ "" → str_eq n "" ≡ false
of_named n h = ground (arith, h, eq_iff n "")

Relabels-Passes : (old next : TypeShape) → Passes old next → Relabels old next
Relabels-Passes old next (a, b, c, d) = (
  named_of old.name a,
  named_of next.name b,
  c,
  elim d [
    | inl same ↦ inl same
    | inr (e, inl f) ↦ inr (e, inl f)
    | inr (e, inr (inl (f, g, h))) ↦ inr (e, inr (inl (f, g, varchar_of old.mods next.mods h)))
    | inr (e, inr (inr (f, g, h))) ↦ inr (e, inr (inr (f, g, numeric_of old.mods next.mods h)))
  ],
)

Passes-Relabels : (old next : TypeShape) → Relabels old next → Passes old next
Passes-Relabels old next (a, b, c, d) = (
  of_named old.name a,
  of_named next.name b,
  c,
  elim d [
    | inl same ↦ inl same
    | inr (e, inl f) ↦ inr (e, inl f)
    | inr (e, inr (inl (f, g, h))) ↦ inr (e, inr (inl (f, g, of_Lengthens old.mods next.mods h)))
    | inr (e, inr (inr (f, g, h))) ↦ inr (e, inr (inr (f, g, of_Refines old.mods next.mods h)))
  ],
)

coercible_of : (old next : TypeShape) → binary_coercible old next ≡ true → Passes old next
unfolding binary_coercible
coercible_of old next h = ground (
  arith,
  eq_iff old.name next.name,
  eq_iff old.name "varchar",
  eq_iff next.name "text",
  eq_iff next.name "varchar",
  eq_iff old.name "numeric",
  eq_iff next.name "numeric",
  mods_same old.mods next.mods,
)

of_Passes : (old next : TypeShape) → Passes old next → binary_coercible old next ≡ true
unfolding binary_coercible
of_Passes old next h = ground (
  arith,
  eq_iff old.name next.name,
  eq_iff old.name "varchar",
  eq_iff next.name "text",
  eq_iff next.name "varchar",
  eq_iff old.name "numeric",
  eq_iff next.name "numeric",
  same_mods old.mods next.mods,
  not_varchar old.name,
  not_text next.name,
)

-- The planner takes a type change for a relabelling exactly where both types are named and both are arrays or
-- neither is, and they are the same with the same modifiers, or are no arrays and a varchar that becomes a text, a
-- varchar whose length bound is dropped or not made smaller, or a numeric whose bounds are dropped or whose
-- precision is not made smaller at the same scale.
pub binary_coercible_iff :
    (old next : TypeShape) → (binary_coercible old next ≡ true) ↔ Relabels old next
binary_coercible_iff old next = (
  λ h. Relabels-Passes old next (coercible_of old next h),
  λ h. of_Passes old next (Passes-Relabels old next h),
)
