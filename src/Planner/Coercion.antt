-- ===== src/Planner/Coercion.antt =====
-- Which type changes PostgreSQL makes without a rewrite, by the planner's rules.
pub mod Order
use pg_sprite.Prelude.Int64.{Int64}
use pg_sprite.Prelude.{
  [], ◌∷◌, true, false, Bool, List, if◌then◌else◌, not, leb, str_eq, ◌==◌, ◌&&◌, ◌||◌,
}
use pg_sprite.Planner.Types.{TypeShape}

abbrev pub same_bool : Bool → Bool → Bool
same_bool true b = b
same_bool false b = not b

unfoldable pub int32s_equal : List Int64 → List Int64 → Bool
int32s_equal [] [] = true
int32s_equal [] (y ∷ ys) = false
int32s_equal (x ∷ xs) [] = false
int32s_equal (x ∷ xs) (y ∷ ys) = if x == y then int32s_equal xs ys else false

-- A length bound that is dropped or does not shrink.
unfoldable pub varchar_widens : List Int64 → List Int64 → Bool
varchar_widens old [] = true
varchar_widens (x ∷ []) (y ∷ []) = leb x y
varchar_widens old next = false

-- A precision bound that is dropped, or does not shrink at the same scale.
unfoldable pub numeric_widens : List Int64 → List Int64 → Bool
numeric_widens old [] = true
numeric_widens (p ∷ s ∷ []) (q ∷ r ∷ []) = r == s && leb p q
numeric_widens old next = false

unfoldable pub binary_coercible : TypeShape → TypeShape → Bool
binary_coercible old next =
    if str_eq old.name "" || str_eq next.name ""
    then false
    else (if not (same_bool old.array next.array)
        then false
        else (if str_eq old.name next.name && int32s_equal old.mods next.mods
            then true
            else (if old.array
                then false
                else (if str_eq old.name "varchar"
                    then (if str_eq next.name "text"
                        then true
                        else (if not (str_eq next.name "varchar")
                            then false
                            else varchar_widens old.mods next.mods))
                    else (if str_eq old.name "numeric"
                        then (if not (str_eq next.name "numeric")
                            then false
                            else numeric_widens old.mods next.mods)
                        else false)))))
