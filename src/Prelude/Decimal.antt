-- ===== src/Prelude/Decimal.antt =====
-- Numbers as text: `to_string` and `{}` of an unsigned integer, and `parse`.
pub mod RoundTrip
use filewall.Prelude.Data.{Text}
use filewall.Prelude.Tests.{ltb, leb, ◌==◌, if◌then◌else◌}
use mathlib.Core.Bool.{◌&&◌}
use mathlib.Core.List.{[], ◌∷◌}
use mathlib.Core.Option.{Option, none, some}
use Prim.Native.Nat.{ℕ, zero, suc, ◌+◌, ◌-◌, ◌*◌, ◌/◌, ◌%◌}

-- The digits in front of `rest`; one round for each digit, and a number has fewer digits than itself
-- and one more.
unfoldable pub digits_onto : ℕ → ℕ → Text → Text
digits_onto zero n rest = rest
digits_onto (suc fuel) n rest =
    let d = (b'0' + n % 10) ∷ rest in
    let more = digits_onto fuel (n / 10) d in if n / 10 == 0 then d else more

unfoldable pub decimal : ℕ → Text
unfolding digits_onto
decimal n = digits_onto (suc n) n []

-- A whole number in decimal digits, after an accumulator; `none` at any other character.
unfoldable pub digits : ℕ → Text → Option ℕ
digits acc [] = some acc
digits acc (c ∷ cs) =
    let rest = digits (acc * 10 + (c - b'0')) cs in if leb b'0' c && leb c b'9' then rest else none

unfoldable pub unsigned : Text → Option ℕ
unfolding digits
unsigned [] = none
unsigned (c ∷ cs) = digits 0 (c ∷ cs)

below : ℕ → Option ℕ → Option ℕ
below top none = none
below top (some n) = if ltb n top then some n else none

-- `str::parse` of an unsigned integer with so many values: a `+` may stand in front.
unfoldable pub parse_unsigned : ℕ → Text → Option ℕ
unfolding unsigned below
parse_unsigned top [] = none
parse_unsigned top (c ∷ cs) = below top (if c == b'+' then unsigned cs else unsigned (c ∷ cs))
