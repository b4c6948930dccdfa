-- ===== src/Prelude/Digits.antt =====
-- Go's strconv and strings on texts, as lists of character codes: ParseUint, ParseInt, Cut and Split, and
-- the digits that fmt prints.
use pg_sprite.Prelude.{if◌then◌else◌, leb, ltb, ◌==◌, ◌∙◌, Bool-cases, inl, inr, ap}
use Prim.Native.String.{String}
use Prim.Native.Char.{code}
use Prim.Native.Nat.{ℕ, zero, suc, ◌+◌, ◌-◌, ◌*◌, ◌/◌, ◌%◌, ◌^◌, ◌≤◌, ◌<◌}
use mathlib.Core.Path.{◌≡◌, refl}
use mathlib.Core.Bool.{◌&&◌}
use mathlib.Core.Option.{Option, none, some}
use mathlib.Core.List.{List, [], ◌∷◌, ◌++◌}
use native.Mathlib.Omega.{arith}
use pg_sprite.Prelude.Int64.{Int64}

abbrev pub Text : Type 0
Text = List ℕ

pub codes : String → Text
codes String.[] = []
codes (String.◌∷◌ c s) = code c ∷ codes s

-- The value of a digit or letter in a base up to 16.
unfoldable pub digit_value : ℕ → Option ℕ
digit_value c =
    if leb 48 c && leb c 57
    then some (c - 48)
    else (if leb 97 c && leb c 102
        then some (c - 87)
        else (if leb 65 c && leb c 70 then some (c - 55) else none))

abbrev pub next_digit : ℕ → ℕ → Option ℕ → Option ℕ
next_digit base n none = none
next_digit base n (some d) = if ltb d base then some (n * base + d) else none

unfoldable pub digits_from : ℕ → Option ℕ → Text → Option ℕ
unfolding digit_value
digits_from base n [] = n
digits_from base none (c ∷ cs) = none
digits_from base (some n) (c ∷ cs) = digits_from base (next_digit base n (digit_value c)) cs

abbrev pub below_limit : ℕ → Option ℕ → Option ℕ
below_limit limit none = none
below_limit limit (some n) = if ltb n limit then some n else none

-- ParseUint in a base, for values below a limit; none is its error.
unfoldable pub parse_uint : ℕ → ℕ → Text → Option ℕ
parse_uint base limit [] = none
parse_uint base limit (c ∷ cs) = below_limit limit (digits_from base (some 0) (c ∷ cs))

abbrev pub negated : Option ℕ → Option Int64
negated none = none
negated (some n) = some (2 ^ 63 - n)

abbrev pub lifted : Option ℕ → Option Int64
lifted none = none
lifted (some n) = some (2 ^ 63 + n)

-- ParseInt(s, 10, 64)
unfoldable pub parse_int64 : Text → Option Int64
unfolding parse_uint
parse_int64 [] = none
parse_int64 (c ∷ cs) =
    if c == 45
    then negated (parse_uint 10 (2 ^ 63 + 1) cs)
    else (if c == 43
        then lifted (parse_uint 10 (2 ^ 63) cs)
        else lifted (parse_uint 10 (2 ^ 63) (c ∷ cs)))

-- Cut: the parts before and after the first separator.
unfoldable pub cut_at : ℕ → Text → Option (Text × Text)
cut_at sep [] = none
cut_at sep (c ∷ cs) =
    if c == sep
    then some ([], cs)
    else elim (cut_at sep cs) [ none ↦ none | some p ↦ some (c ∷ p.0, p.1) ]

-- The digit that fmt prints for a value below 16, in upper case.
unfoldable pub digit_code : ℕ → ℕ
digit_code d = if ltb d 10 then 48 + d else 55 + d

-- The digits of a number, on fuel.
unfoldable pub print_digits : ℕ → ℕ → ℕ → Text
unfolding digit_code
print_digits base zero n = digit_code (n % base) ∷ []
print_digits base (suc fuel) n =
    let rest = print_digits base fuel (n / base) in
    if ltb n base then digit_code n ∷ [] else rest ++ digit_code (n % base) ∷ []

pub digits-append :
    (base : ℕ) (n : Option ℕ) (xs ys : Text)
    → digits_from base n (xs ++ ys) ≡ digits_from base (digits_from base n xs) ys
unfolding digits_from
digits-append base none [] ys = refl
digits-append base (some n) [] ys = refl
digits-append base none (x ∷ xs) [] = refl
digits-append base none (x ∷ xs) (y ∷ ys) = refl
digits-append base (some n) (x ∷ xs) ys =
    digits-append base (next_digit base n (digit_value x)) xs ys

digit_value-code : (d : ℕ) → d < 16 → digit_value (digit_code d) ≡ some d
unfolding digit_value digit_code
digit_value-code d h = ground arith

one_digit :
    (base n d : ℕ)
    → base ≤ 16
    → d < base
    → digits_from base (some n) (digit_code d ∷ []) ≡ some (n * base + d)
unfolding digits_from
one_digit base n d b h = ground (arith, digit_value-code d (omega (arith, b, h)))

pow_suc : (k : ℕ) → 16 ^ suc k ≡ 16 * 16 ^ k
pow_suc k = omega arith

-- The hexadecimal digits of a number read back as the number, where the fuel covers them.
pub digits-print :
    (fuel n : ℕ) → n < 16 ^ suc fuel → digits_from 16 (some 0) (print_digits 16 fuel n) ≡ some n
unfolding print_digits
digits-print zero n h = one_digit 16 0 (n % 16) (omega arith) (omega arith) ∙ ground (arith, h)
digits-print (suc fuel) n h = elim (Bool-cases (ltb n 16)) [
  | inl small ↦ rw small (one_digit 16 0 n (omega arith) (ground arith) ∙ ap some (omega arith))
  | inr large ↦ rw large (
      digits-append 16 (some 0) (print_digits 16 fuel (n / 16)) (digit_code (n % 16) ∷ [])
      ∙ ap (λ m. digits_from 16 m (digit_code (n % 16) ∷ []))
          (digits-print fuel (n / 16) (omega (arith, h, pow_suc (suc fuel), pow_suc fuel)))
      ∙ one_digit 16 (n / 16) (n % 16) (omega arith) (omega arith)
      ∙ ap some (omega arith))
]
