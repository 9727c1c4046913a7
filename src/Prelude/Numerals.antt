-- ===== src/Prelude/Numerals.antt =====
-- Numerals, read and written. `parseInt(s, 10)`: white space, a sign, then the longest run of digits; `none` is NaN.
use Prim.Native.Nat.{ℕ, zero, suc, ◌+◌, ◌-◌, ◌*◌, ◌/◌, ◌%◌, ◌^◌, ◌<◌}
use native.Mathlib.Omega.{arith}
use mathlib.Core.Path.{◌≡◌, refl, sym, ap, ◌∙◌}
use mathlib.Core.Bool.{Bool, true, ◌&&◌, not}
use mathlib.Core.List.{[], ◌∷◌}
use mathlib.Core.Option
use mathlib.Core.Option.{Option, none, some}
use feature_flag_system.Prelude.Tests.{leb, ltb, ◌==◌, if◌then◌else◌, Bool-cases}
use mathlib.Core.Logic.{inl, inr}
use feature_flag_system.Prelude.Lists.{every}
use feature_flag_system.Prelude.Texts.{Text, codes, is_space, is_empty}
use feature_flag_system.Prelude.Ints.{ℤ, pos, negsuc}

abbrev pub is_digit : ℕ → Bool
is_digit c = leb 48 c && leb c 57

digits_from : ℕ → Text → ℕ
digits_from acc [] = acc
digits_from acc (c ∷ s) =
    let rest = digits_from (acc * 10 + (c - 48)) s in if is_digit c then rest else acc

parse_digits : Text → Option ℕ
unfolding digits_from
parse_digits [] = none
parse_digits (c ∷ s) = if is_digit c then some (digits_from 0 (c ∷ s)) else none

abbrev negate : ℕ → ℤ
negate zero = pos 0
negate (suc n) = negsuc n

unfoldable pub parse_int : Text → Option ℤ
unfolding parse_digits
parse_int [] = none
parse_int (c ∷ s) =
    let rest = parse_int s in
    if is_space c
    then rest
    else if c == b'-'
    then Option.map negate (parse_digits s)
    else if c == b'+'
    then Option.map pos (parse_digits s)
    else Option.map pos (parse_digits (c ∷ s))

-- Go's `strconv.ParseInt(s, 10, 64)`: a sign or none, digits and nothing else, within 64 bits.
whole_digits : Text → Option ℕ
unfolding digits_from
whole_digits s = if not (is_empty s) && every is_digit s then some (digits_from 0 s) else none

abbrev within : ℕ → (ℕ → ℤ) → Option ℕ → Option ℤ
within most f none = none
within most f (some n) = if leb n most then some (f n) else none

unfoldable pub parse_int64 : Text → Option ℤ
unfolding whole_digits
parse_int64 [] = none
parse_int64 (c ∷ s) =
    if c == b'-'
    then within (2 ^ 63) negate (whole_digits s)
    else if c == b'+'
    then within (2 ^ 63 - 1) pos (whole_digits s)
    else within (2 ^ 63 - 1) pos (whole_digits (c ∷ s))

-- A number in decimal digits. Fuel as large as the number is more than its digits.
decimal_from : ℕ → ℕ → Text → Text
decimal_from zero n done = done
decimal_from (suc fuel) n done =
    let digits = (48 + n % 10) ∷ done in
    let rest = decimal_from fuel (n / 10) digits in if ltb n 10 then digits else rest

unfoldable pub decimal : ℕ → Text
unfolding decimal_from
decimal n = decimal_from (suc n) n []

decimal_tests : (decimal 0 ≡ codes "0") × (decimal 2254 ≡ codes "2254")
unfolding decimal
decimal_tests = (refl, refl)

parse_int_tests :
    (parse_int (codes "2254") ≡ some (pos 2254))
    × (parse_int (codes " -7x") ≡ some (negsuc 6))
    × (parse_int (codes "") ≡ none)
    × (parse_int (codes "v12") ≡ none)
unfolding parse_int
parse_int_tests = (refl, refl, refl, refl)

parse_int64_tests :
    (parse_int64 (codes "2254") ≡ some (pos 2254))
    × (parse_int64 (codes "-7") ≡ some (negsuc 6))
    × (parse_int64 (codes "9223372036854775808") ≡ none)
    × (parse_int64 (codes "12 ") ≡ none)
unfolding parse_int64
parse_int64_tests = (refl, refl, refl, refl)

-- What has been read by the time the digits of `n` are over.
digits_from-decimal_from :
    (fuel n : ℕ) (done : Text)
    → n < fuel
    → digits_from 0 (decimal_from fuel n done) ≡ digits_from n done
unfolding digits_from decimal_from
digits_from-decimal_from zero n done h = absurd (omega arith)
digits_from-decimal_from (suc fuel) n done h = elim (Bool-cases (ltb n 10)) [
  | inl last ↦ ground arith
  | inr more ↦
      let next = digits_from-decimal_from fuel (n / 10) ((48 + n % 10) ∷ done) (ground arith) in
      ground arith
]

every_digit :
    (fuel n : ℕ) (done : Text)
    → every is_digit done ≡ true
    → every is_digit (decimal_from fuel n done) ≡ true
unfolding decimal_from
every_digit zero n done h = h
every_digit (suc fuel) n done h =
    let next : every is_digit ((48 + n % 10) ∷ done) ≡ true = ground arith in
    elim (Bool-cases (ltb n 10)) [
      | inl last ↦ rw last next
      | inr more ↦ rw more (every_digit fuel (n / 10) ((48 + n % 10) ∷ done) next)
    ]

-- A numeral starts with a digit.
decimal-head :
    (fuel n : ℕ) (done : Text)
    → (d : ℕ) × (s : Text) × (decimal_from (suc fuel) n done ≡ (48 + d) ∷ s) × (d < 10)
unfolding decimal_from
decimal-head zero n done = (n % 10, done, ground arith, omega arith)
decimal-head (suc fuel) n done = elim (Bool-cases (ltb n 10)) [
  | inl last ↦ (n % 10, done, rw last refl, omega arith)
  | inr more ↦ rw more (decimal-head fuel (n / 10) ((48 + n % 10) ∷ done))
]

decimal-read :
    (n : ℕ)
    → (d : ℕ) × (s : Text) × (decimal n ≡ (48 + d) ∷ s)
      × (d < 10)
      × (digits_from 0 ((48 + d) ∷ s) ≡ n)
unfolding decimal digits_from
decimal-read n =
    let (d, s, e, small) = decimal-head n n [] in
    let read = digits_from-decimal_from (suc n) n [] (omega arith) in
    (d, s, e, small, ap (digits_from 0) (sym e) ∙ read)

pub decimal-digits :
    (n : ℕ) → (c : ℕ) × (s : Text) × (decimal n ≡ c ∷ s) × (every is_digit (c ∷ s) ≡ true)
unfolding decimal
decimal-digits n =
    let (d, s, e, small) = decimal-head n n [] in
    (48 + d, s, e, ap (every is_digit) (sym e) ∙ every_digit (suc n) n [] refl)

-- The numeral of a number is read as that number.
pub parse_int-decimal : (n : ℕ) → parse_int (decimal n) ≡ some (pos n)
unfolding parse_int
parse_int-decimal n =
    let (d, s, e, small, read) = decimal-read n in rw (e, parse_int) (ground arith)

pub parse_int64-decimal : (n : ℕ) → n < 2 ^ 63 → parse_int64 (decimal n) ≡ some (pos n)
unfolding parse_int64 decimal
parse_int64-decimal n h =
    let (d, s, e, small, read) = decimal-read n in
    let whole : every is_digit ((48 + d) ∷ s) ≡ true =
      ap (every is_digit) (sym e) ∙ every_digit (suc n) n [] refl in
    rw (e, parse_int64) (ground arith)
