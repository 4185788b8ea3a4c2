-- ===== src/Base/Decimal.antt =====
-- Decimal numbers as Go's `%d` prints and `strconv.Atoi` reads them, over the codes of the bytes.
use Prim.Native.Nat.{ℕ, zero, suc, ◌+◌, ◌-◌, ◌*◌, ◌/◌, ◌%◌, ◌^◌}
use mathlib.Core.Bool.{Bool, ◌&&◌}
use mathlib.Core.List.{List, [], ◌∷◌}
use mathlib.Core.Option
use mathlib.Core.Option.{Option, none, some}
use ratelimiter.Base.Tests.{ltb, leb, ◌==◌, if◌then◌else◌}
use ratelimiter.Base.Int.{ℤ, pos, negsuc}

-- The digits of a number, the last one first found; `fuel` bounds how many there are.
unfoldable pub digits : ℕ → ℕ → List ℕ → List ℕ
digits zero n after = after
digits (suc fuel) n after =
    let rest = digits fuel (n / 10) ((b'0' + n % 10) ∷ after) in
    if ltb n 10 then (b'0' + n) ∷ after else rest

-- `%d`, for a number of at most twenty digits.
unfoldable pub decimal : ℕ → List ℕ
unfolding digits
decimal n = digits 20 n []

abbrev pub is_digit : ℕ → Bool
is_digit c = leb b'0' c && leb c b'9'

-- The value of decimal digits, from what was read before; `none` at any other character.
unfoldable pub read_digits : ℕ → List ℕ → Option ℕ
read_digits n [] = some n
read_digits n (c ∷ cs) =
    let rest = read_digits (n * 10 + (c - b'0')) cs in if is_digit c then rest else none

-- At least one digit.
unfoldable pub read_unsigned : List ℕ → Option ℕ
unfolding read_digits
read_unsigned [] = none
read_unsigned (c ∷ cs) = read_digits 0 (c ∷ cs)

abbrev negated : ℕ → ℤ
negated zero = pos 0
negated (suc n) = negsuc n

-- An `int` has 64 bits: a number out of its range is an error.
abbrev bounded : Option ℕ → ℕ → Option ℕ
bounded none bound = none
bounded (some n) bound = if leb n bound then some n else none

-- `strconv.Atoi`: an optional sign and decimal digits.
unfoldable pub atoi : List ℕ → Option ℤ
unfolding read_unsigned
atoi [] = none
atoi (c ∷ cs) =
    if c == b'-'
    then Option.map negated (bounded (read_unsigned cs) (2 ^ 63))
    else if c == b'+'
    then Option.map pos (bounded (read_unsigned cs) (2 ^ 63 - 1))
    else Option.map pos (bounded (read_unsigned (c ∷ cs)) (2 ^ 63 - 1))
