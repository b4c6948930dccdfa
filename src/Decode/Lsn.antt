-- ===== src/Decode/Lsn.antt =====
-- pkg/decode/types.go: the text form of a log sequence number, X/Y in hexadecimal. A number is a natural
-- number below 2 ^ 64.
use pg_sprite.Prelude.Digits.{
  Text, cut_at, digit_code, print_digits, parse_uint, digits-print, digits_from,
}
use pg_sprite.Prelude.{
  zero, suc, refl, inl, inr, [], ◌∷◌, none, some, false, Option, ℕ, ◌%◌, ◌*◌, ◌++◌, ◌/◌, ◌<◌, ◌==◌,
  ◌≢◌, Bool-cases, arith, ◌^◌, ◌≡◌, ltb, ◌+◌,
}

abbrev halves : Option ℕ → Option ℕ → Option ℕ
halves (some high) (some low) = some (high * 2 ^ 32 + low)
halves none low = none
halves (some high) none = none

-- ParseLSN
unfoldable pub parse_lsn : Text → Option ℕ
parse_lsn s = elim (cut_at 47 s) [
  | none ↦ none
  | some p ↦ halves (parse_uint 16 (2 ^ 32) p.0) (parse_uint 16 (2 ^ 32) p.1)
]

-- LSN.String: the two halves, without leading zeros
unfoldable pub print_lsn : ℕ → Text
print_lsn l = print_digits 16 7 (l / 2 ^ 32) ++ 47 ∷ print_digits 16 7 (l % 2 ^ 32)

-- No text holds the code.
abbrev Lacks : ℕ → Text → Type 0
Lacks c [] = Unit {0}
Lacks c (d ∷ ds) = ((d == c) ≡ false) × Lacks c ds

append-Lacks : (c : ℕ) (xs ys : Text) → Lacks c xs → Lacks c ys → Lacks c (xs ++ ys)
append-Lacks c [] ys h g = g
append-Lacks c (x ∷ xs) ys h g = (h.0, append-Lacks c xs ys h.1 g)

code-slash : (d : ℕ) → (digit_code d == 47) ≡ false
unfolding digit_code
code-slash d = ground arith

print-Lacks : (fuel n : ℕ) → Lacks 47 (print_digits 16 fuel n)
unfolding print_digits
print-Lacks zero n = (code-slash (n % 16), tt)
print-Lacks (suc fuel) n = elim (Bool-cases (ltb n 16)) [
  | inl small ↦ rw small (code-slash n, tt)
  | inr large ↦ rw large (
      append-Lacks 47 (print_digits 16 fuel (n / 16)) (digit_code (n % 16) ∷ [])
        (print-Lacks fuel (n / 16)) (code-slash (n % 16), tt))
]

cut-append : (xs ys : Text) → Lacks 47 xs → cut_at 47 (xs ++ 47 ∷ ys) ≡ some (xs, ys)
unfolding cut_at
cut-append [] ys h = refl
cut-append (x ∷ xs) ys h = ground (arith, h.0, cut-append xs ys h.1)

snoc_given : (xs : Text) (d : ℕ) → (xs ++ d ∷ []) ≢ []
snoc_given [] d e = ground arith
snoc_given (x ∷ xs) d e = ground arith

-- A printed number is not empty.
digits_given : (fuel n : ℕ) → print_digits 16 fuel n ≢ []
unfolding print_digits
digits_given zero n e = ground arith
digits_given (suc fuel) n e =
    ground (arith, snoc_given (print_digits 16 fuel (n / 16)) (digit_code (n % 16)))

given_half :
    (xs : Text) (n : ℕ)
    → n < 2 ^ 32
    → xs ≢ []
    → digits_from 16 (some 0) xs ≡ some n
    → parse_uint 16 (2 ^ 32) xs ≡ some n
unfolding parse_uint
given_half [] n h given e = absurd (given refl)
given_half (x ∷ xs) n h given e = ground (arith, e)

half : (n : ℕ) → n < 2 ^ 32 → parse_uint 16 (2 ^ 32) (print_digits 16 7 n) ≡ some n
half n h =
    given_half (print_digits 16 7 n) n h (digits_given 7 n) (digits-print 7 n (omega (arith, h)))

-- Every position is read back from its text form.
pub parse-print_lsn : (l : ℕ) → l < 2 ^ 64 → parse_lsn (print_lsn l) ≡ some l
unfolding parse_lsn print_lsn
parse-print_lsn l h = ground (
  arith,
  cut-append (print_digits 16 7 (l / 2 ^ 32)) (print_digits 16 7 (l % 2 ^ 32))
      (print-Lacks 7 (l / 2 ^ 32)),
  half (l / 2 ^ 32) (omega (arith, h)),
  half (l % 2 ^ 32) (omega arith),
)
