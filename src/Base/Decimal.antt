-- ===== src/Base/Decimal.antt =====
-- strconv.ParseInt for base 10 and 32 bits, on the code points of a text.
pub mod RoundTrip
use Prim.Native.Char.{code}
use Prim.Native.String.{String}
use Prim.Native.String
use Prim.Native.Nat.{ℕ, zero, suc, ◌+◌, ◌-◌, ◌*◌}
use mathlib.Core.Bool.{Bool, ◌&&◌}
use mathlib.Core.List.{List, [], ◌∷◌}
use mathlib.Core.Option.{Option, none, some}
use subscription_reconciler.Base.Int.{ℤ, pos, negsuc}
use subscription_reconciler.Base.Tests.{ltb, leb, eqb, if◌then◌else◌}

-- The code points of a text.
abbrev pub codes : String → List ℕ
codes String.[] = []
codes (String.◌∷◌ c s) = code c ∷ codes s

abbrev pub is_digit : ℕ → Bool
is_digit c = leb b'0' c && leb c b'9'

-- The number that the digits spell after `n`; `none` at any other character.
abbrev pub scan : ℕ → List ℕ → Option ℕ
scan n [] = some n
scan n (c ∷ cs) = if is_digit c then scan (n * 10 + (c - b'0')) cs else none

abbrev pub magnitude : List ℕ → Option ℕ
magnitude [] = none
magnitude (c ∷ cs) = scan 0 (c ∷ cs)

abbrev pub in_int32 : Option ℕ → Option ℤ
in_int32 none = none
in_int32 (some n) = if ltb n 2_147_483_648 then some (pos n) else none

abbrev pub negated : ℕ → ℤ
negated zero = pos 0
negated (suc n) = negsuc n

abbrev pub in_int32_negative : Option ℕ → Option ℤ
in_int32_negative none = none
in_int32_negative (some n) = if leb n 2_147_483_648 then some (negated n) else none

-- `strconv.ParseInt(s, 10, 32)`: `none` for a syntax error or a value out of range.
abbrev pub parse_int32 : List ℕ → Option ℤ
parse_int32 [] = none
parse_int32 (c ∷ cs) =
    if eqb c b'-'
    then in_int32_negative (magnitude cs)
    else if eqb c b'+'
    then in_int32 (magnitude cs)
    else in_int32 (magnitude (c ∷ cs))
