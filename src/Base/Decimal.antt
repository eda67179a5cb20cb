-- ===== src/Base/Decimal.antt =====
-- printf's `%d`: a number in decimal digits.
use Prim.Native.Nat.{ℕ, zero, suc, ◌/◌, ◌%◌}
use Prim.Native.String.{String}
use rauc_hawkbit_updater.Base.Tests.{ltb, ◌==◌, if◌then◌else◌, ◌<+>◌}
use rauc_hawkbit_updater.Base.Int.{ℤ, pos, negsuc}

digit : ℕ → String
digit d =
    if d == 0
    then "0"
    else if d == 1
    then "1"
    else if d == 2
    then "2"
    else if d == 3
    then "3"
    else if d == 4
    then "4"
    else if d == 5
    then "5"
    else if d == 6
    then "6"
    else if d == 7
    then "7"
    else if d == 8
    then "8"
    else "9"

-- A number has fewer digits than it is large, so `n` rounds and one are enough.
decimal_fuel : ℕ → ℕ → String
decimal_fuel zero n = ""
decimal_fuel (suc fuel) n =
    let front = decimal_fuel fuel (n / 10) <+> digit (n % 10) in if ltb n 10 then digit n else front

unfoldable pub decimal : ℕ → String
unfolding digit decimal_fuel
decimal n = decimal_fuel (suc n) n

unfoldable pub decimal_ℤ : ℤ → String
unfolding decimal
decimal_ℤ (pos n) = decimal n
decimal_ℤ (negsuc n) = "-" <+> decimal (suc n)
