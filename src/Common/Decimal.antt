-- ===== src/Common/Decimal.antt =====
-- `String(n)` of a natural number, and `padStart`.
pub mod Laws
use Prim.Native.Nat.{ℕ, zero, suc, ◌+◌, ◌-◌, ◌/◌, ◌%◌}
use Prim.Native.Char.{Char}
use Prim.Native.String.{String, char_at, count}
use mathlib.Core.Bool.{Bool, true, false}
use judge_self.Common.Tests.{ltb, if◌then◌else◌}

unfoldable pub digit : ℕ → Char
digit d = char_at "0123456789" d

-- The digits of `n` in front of those that are written; each round divides by ten, so `n + 1` rounds
-- are enough.
unfoldable pub digits : ℕ → ℕ → String → String
unfolding digit
digits zero n out = out
digits (suc rounds) n out =
    let now = String.◌∷◌ (digit (n % 10)) out in
    let rest = digits rounds (n / 10) now in if ltb n 10 then now else rest

-- `String(n)`
unfoldable pub to_string : ℕ → String
unfolding digits
to_string n = digits (suc n) n ""

-- `n` zeros in front of the text
unfoldable pub zeros : ℕ → String → String
zeros zero s = s
zeros (suc n) s = String.◌∷◌ "0" (zeros n s)

-- `s.padStart(width, '0')` of an ASCII text
abbrev pub pad_start : ℕ → String → String
pad_start width s = zeros (width - count s) s
