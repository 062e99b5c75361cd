-- ===== src/Prelude/Numerals.antt =====
-- Numbers as Go prints and parses them: `%d` of a natural number, `strconv.Atoi` and `strconv.ParseInt(s, 10, 64)`: a sign, and decimal digits whose value fits 64
-- bits. The messages leave the quoted input out.
use Prim.Native.Nat.{ℕ, zero, suc, ◌+◌, ◌-◌, ◌*◌, ◌/◌, ◌%◌}
use Prim.Native.Char.{code}
use Prim.Native.String.{String, [], ◌∷◌, ◌++◌}
use mathlib.Core.Bool.{Bool, ◌&&◌}
use mathlib.Core.Option.{Option, none, some}
use cluster_registry.Prelude.Tests.{ltb, leb, eqb, if◌then◌else◌}
use cluster_registry.Prelude.Ints.{ℤ, pos, negsuc, half_range}
use cluster_registry.Prelude.Results.{Result, ok, err}

abbrev is_digit : ℕ → Bool
is_digit c = leb b'0' c && leb c b'9'

-- The value of the digits behind those that are read.
digits_from : ℕ → String → Option ℕ
digits_from acc [] = some acc
digits_from acc (c ∷ s) =
    let rest = digits_from (acc * 10 + (code c - b'0')) s in
    if is_digit (code c) then rest else none

-- At least one digit.
digits : String → Option ℕ
unfolding digits_from
digits [] = none
digits (c ∷ s) = digits_from 0 (c ∷ s)

abbrev syntax_error {ℓ} : {A : Type ℓ} → String → Result A
syntax_error f = err (f ++ ": invalid syntax")

abbrev range_error {ℓ} : {A : Type ℓ} → String → Result A
range_error f = err (f ++ ": value out of range")

abbrev positive : String → Option ℕ → Result ℤ
positive f none = syntax_error f
positive f (some n) = if ltb n half_range then ok (pos n) else range_error f

abbrev negative : String → Option ℕ → Result ℤ
negative f none = syntax_error f
negative f (some n) =
    if eqb n 0 then ok (pos 0) else if leb n half_range then ok (negsuc (n - 1)) else range_error f

-- The first argument names the function for its messages.
unfoldable pub parse_int : String → String → Result ℤ
unfolding digits
parse_int f [] = syntax_error f
parse_int f (c ∷ s) =
    if eqb (code c) b'-'
    then negative f (digits s)
    else if eqb (code c) b'+'
    then positive f (digits s)
    else positive f (digits (c ∷ s))

abbrev digit : ℕ → String
digit n =
    if eqb n 0
    then "0"
    else if eqb n 1
    then "1"
    else if eqb n 2
    then "2"
    else if eqb n 3
    then "3"
    else if eqb n 4
    then "4"
    else if eqb n 5
    then "5"
    else if eqb n 6
    then "6"
    else if eqb n 7
    then "7"
    else if eqb n 8
    then "8"
    else "9"

decimal_digits : ℕ → ℕ → String → String
decimal_digits zero n behind = behind
decimal_digits (suc fuel) n behind =
    let rest = decimal_digits fuel (n / 10) (digit (n % 10) ++ behind) in
    if ltb n 10 then digit n ++ behind else rest

-- `%d`. A number has at most as many digits as its successor counts.
unfoldable pub decimal : ℕ → String
unfolding decimal_digits
decimal n = decimal_digits (suc n) n ""
