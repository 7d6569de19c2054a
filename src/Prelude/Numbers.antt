-- ===== src/Prelude/Numbers.antt =====
-- Signed numbers, and the decimal texts of Go's `strconv.Atoi` and `%d`.
use Prim.Native.Nat.{ℕ, zero, suc, ◌+◌, ◌-◌, ◌*◌, ◌/◌, ◌%◌, ◌^◌}
use Prim.Native.Char.{code}
use Prim.Native.String.{String, [], ◌∷◌, ◌++◌, char_at}
use mathlib.Core.Path.{◌≡◌, refl}
use mathlib.Core.Bool.{Bool, true, false, ◌&&◌}
use mathlib.Core.Option.{Option, none, some}
use docker_swarm_cluster_con.Prelude.Tests.{leb, ltb, ◌=?◌, if◌then◌else◌}

-- A Go `int`; `negsuc n` is -(n + 1).
pub data ℤ : Type 0 where
  pos : ℕ → ℤ
  negsuc : ℕ → ℤ

-- a - b, as an integer
abbrev pub sub_ℕ : ℕ → ℕ → ℤ
sub_ℕ a b = if leb b a then pos (a - b) else negsuc (b - a - 1)

abbrev pub is_zero : ℤ → Bool
is_zero (pos n) = n =? 0
is_zero (negsuc n) = false

abbrev pub is_positive : ℤ → Bool
is_positive (pos n) = ltb 0 n
is_positive (negsuc n) = false

-- The decimal digits of a number, in front of `out`; `fuel` above the number is enough.
show_from : (fuel n : ℕ) → String → String
show_from zero n out = out
show_from (suc fuel) n out =
    let out' = char_at "0123456789" (n % 10) ∷ out in
    elim (ltb n 10) [ true ↦ out' | false ↦ show_from fuel (n / 10) out' ]

unfoldable pub show_nat : ℕ → String
unfolding show_from
show_nat n = show_from (suc n) n ""

-- `%d`
unfoldable pub show_int : ℤ → String
unfolding show_nat
show_int (pos n) = show_nat n
show_int (negsuc n) = "-" ++ show_nat (suc n)

-- Digits only, at least one of them having been read if `acc` is there.
read_digits : ℕ → String → Option ℕ
read_digits acc [] = some acc
read_digits acc (c ∷ s) =
    let rest = read_digits (acc * 10 + (code c - 48)) s in
    if leb 48 (code c) && leb (code c) 57 then rest else none

read_nat : String → Option ℕ
unfolding read_digits
read_nat [] = none
read_nat (c ∷ s) = read_digits 0 (c ∷ s)

-- the range of an `int` of 64 bits
positive : Option ℕ → Option ℤ
positive none = none
positive (some n) = if ltb n (2 ^ 63) then some (pos n) else none

negative : Option ℕ → Option ℤ
negative none = none
negative (some zero) = some (pos 0)
negative (some (suc n)) = if ltb n (2 ^ 63) then some (negsuc n) else none

-- strconv.Atoi: an optional sign and digits, within the range of an `int`.
unfoldable pub atoi : String → Option ℤ
unfolding positive negative read_nat
atoi [] = none
atoi (c ∷ s) =
    if code c =? b'-'
    then negative (read_nat s)
    else if code c =? b'+'
    then positive (read_nat s)
    else positive (read_nat (c ∷ s))

number_tests :
    (show_int (pos 2377) ≡ "2377")
    × (show_int (negsuc 9) ≡ "-10")
    × (atoi "-12" ≡ some (negsuc 11))
    × (atoi "+7" ≡ some (pos 7))
    × (atoi "9223372036854775808" ≡ none)
    × (atoi "1x" ≡ none)
unfolding show_int atoi
number_tests = (refl, refl, refl, refl, refl, refl)
