-- ===== src/Prelude/Decimal.antt =====
-- The decimal text of a number, as a template literal prints it.
use Prim.Native.Nat.{ℕ, zero, suc, ◌/◌, ◌%◌}
use Prim.Native.String.{String, ◌++◌ as text_append}
use mathlib.Core.Bool.{true, false}
use mathlib.Core.Path.{◌≡◌, refl}
use anchr.Prelude.Tests.{if◌then◌else◌, nat_eq, ltb}

digit_text : ℕ → String
digit_text d =
    if nat_eq d 0
    then "0"
    else if nat_eq d 1
    then "1"
    else if nat_eq d 2
    then "2"
    else if nat_eq d 3
    then "3"
    else if nat_eq d 4
    then "4"
    else if nat_eq d 5
    then "5"
    else if nat_eq d 6
    then "6"
    else if nat_eq d 7
    then "7"
    else if nat_eq d 8
    then "8"
    else "9"

-- The digits of `n` before `acc`. A number has fewer digits than its successor, the fuel given.
decimal_loop : ℕ → ℕ → String → String
unfolding digit_text
decimal_loop zero n acc = acc
decimal_loop (suc fuel) n acc =
    let shown = text_append (digit_text (n % 10)) acc in
    elim (ltb n 10) [ true ↦ shown | false ↦ decimal_loop fuel (n / 10) shown ]

unfoldable pub decimal : ℕ → String
unfolding decimal_loop
decimal n = decimal_loop (suc n) n ""

decimal_test : decimal 60010 ≡ "60010"
unfolding decimal
decimal_test = refl
