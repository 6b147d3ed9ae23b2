-- ===== src/Common/Number.antt =====
-- JavaScript's `trim`, and `parseInt` without a radix, on ASCII text: `none` is NaN. A `0x` prefix makes it read
-- hexadecimal digits; what follows the last digit is not read.
use Prim.Native.Nat.{ℕ, zero, suc, ◌+◌, ◌-◌, ◌*◌}
use Prim.Native.Char.{code}
use Prim.Native.String.{String}
use mathlib.Core.Bool.{Bool, true, false, ◌&&◌, ◌||◌}
use mathlib.Core.Option.{Option, none, some}
use mathlib.Core.List.{List, [], ◌∷◌}
use text.Mathlib.Text.{◌==◌}
use judge_self.Common.Tests.{leb, eqb, if◌then◌else◌}
use judge_self.Common.Int.{ℤ, pos, negsuc}

abbrev pub codes : String → List ℕ
codes String.[] = []
codes (String.◌∷◌ c s) = code c ∷ codes s

unfoldable pub is_space : ℕ → Bool
is_space c = (leb 9 c && leb c 13) || eqb c 32

pub is_digit : ℕ → Bool
is_digit c = leb 48 c && leb c 57

-- The value of a digit in radix 16, in either case.
digit_value : ℕ → Option ℕ
unfolding is_digit
digit_value c =
    if is_digit c
    then some (c - 48)
    else if leb 97 c && leb c 102
    then some (c - 87)
    else if leb 65 c && leb c 70
    then some (c - 55)
    else none

skip_spaces : List ℕ → List ℕ
unfolding is_space
skip_spaces [] = []
skip_spaces (c ∷ cs) = if is_space c then skip_spaces cs else c ∷ cs

-- The digits of the radix, after those that give `acc`.
read_digits : ℕ → List ℕ → Option ℕ → Option ℕ
unfolding digit_value
read_digits radix [] acc = acc
read_digits radix (c ∷ cs) acc = elim (digit_value c) [
  | none ↦ acc
  | some d ↦
      if leb radix d
      then acc
      else read_digits radix cs (some (elim acc [ none ↦ d | some n ↦ n * radix + d ]))
]

abbrev read_magnitude : List ℕ → Option ℕ
read_magnitude (c ∷ x ∷ cs) =
    if eqb c 48 && (eqb x 120 || eqb x 88)
    then read_digits 16 cs none
    else read_digits 10 (c ∷ x ∷ cs) none
read_magnitude cs = read_digits 10 cs none

abbrev negated : ℕ → ℤ
negated zero = pos 0
negated (suc n) = negsuc n

abbrev signed : Bool → Option ℕ → Option ℤ
signed minus none = none
signed false (some n) = some (pos n)
signed true (some n) = some (negated n)

abbrev read_sign : List ℕ → Option ℤ
read_sign [] = none
read_sign (c ∷ cs) =
    if eqb c 45
    then signed true (read_magnitude cs)
    else if eqb c 43
    then signed false (read_magnitude cs)
    else signed false (read_magnitude (c ∷ cs))

unfoldable pub parse_int : String → Option ℤ
unfolding skip_spaces read_digits
parse_int s = read_sign (skip_spaces (codes s))

-- `parseInt(s) || n`: a NaN and a 0 are replaced.
abbrev pub or_default : ℤ → Option ℤ → ℤ
or_default n none = n
or_default n (some (pos zero)) = n
or_default n (some k) = k

unfoldable pub trim_start : String → String
unfolding is_space
trim_start String.[] = String.[]
trim_start (String.◌∷◌ c s) =
    let rest = trim_start s in if is_space (code c) then rest else String.◌∷◌ c s

unfoldable pub trim_end : String → String
unfolding is_space
trim_end String.[] = String.[]
trim_end (String.◌∷◌ c s) =
    let rest = trim_end s in if rest == "" && is_space (code c) then "" else String.◌∷◌ c rest

-- `s.trim()`, for the white space of ASCII
abbrev pub trim : String → String
trim s = trim_end (trim_start s)
