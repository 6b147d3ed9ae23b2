-- ===== src/Common/Decimal/Laws.antt =====
-- A padded decimal numeral says which number it is of.
use Prim.Native.Nat.{ℕ, zero, suc, ◌+◌, ◌-◌, ◌*◌, ◌/◌, ◌%◌, ◌<◌}
use Prim.Native.Char.{code}
use Prim.Native.String.{String, ◌++◌, count}
use mathlib.Core.Path.{◌≡◌, refl, sym, ap, ◌∙◌}
use mathlib.Core.Bool.{Bool, true, false, ◌||◌}
use mathlib.Core.Logic.{inl, inr}
use text.Mathlib.TextLemmas.{nil-append, cons-append}
use native.Mathlib.Omega.{arith}
use judge_self.Common.Tests.{ltb, eqb, Bool-cases}
use judge_self.Common.Decimal.{digit, digits, to_string, zeros, pad_start}

-- The number that the characters stand for when they are read as digits, after the number `n`.
unfoldable pub value : ℕ → String → ℕ
value n String.[] = n
value n (String.◌∷◌ c s) = value (10 * n + (code c - 48)) s

code-digit : (d : ℕ) → d < 10 → code (digit d) ≡ 48 + d
unfolding digit
code-digit zero h = refl
code-digit (suc zero) h = refl
code-digit (suc (suc zero)) h = refl
code-digit (suc (suc (suc zero))) h = refl
code-digit (suc (suc (suc (suc zero)))) h = refl
code-digit (suc (suc (suc (suc (suc zero))))) h = refl
code-digit (suc (suc (suc (suc (suc (suc zero)))))) h = refl
code-digit (suc (suc (suc (suc (suc (suc (suc zero))))))) h = refl
code-digit (suc (suc (suc (suc (suc (suc (suc (suc zero)))))))) h = refl
code-digit (suc (suc (suc (suc (suc (suc (suc (suc (suc zero))))))))) h = refl
code-digit (suc (suc (suc (suc (suc (suc (suc (suc (suc (suc d)))))))))) h = absurd (omega arith)

-- The last digit of `n` after the digits before it.
value_last : (n : ℕ) (out : String) → value (n / 10) (String.◌∷◌ (digit (n % 10)) out) ≡ value n out
unfolding value
value_last n out = ap (λ k. value k out) (omega (arith, code-digit (n % 10) (omega arith)))

value-digits :
    (rounds n : ℕ) (out : String) → n < rounds → value 0 (digits rounds n out) ≡ value n out
unfolding digits
value-digits zero n out h = absurd (omega arith)
value-digits (suc rounds) n out h = elim (Bool-cases (ltb n 10)) [
  | inl e ↦
      let small : n / 10 ≡ 0 = ground arith in
      rw e (ap (λ k. value k (String.◌∷◌ (digit (n % 10)) out)) (sym small) ∙ value_last n out)
  | inr e ↦ rw e (
      value-digits rounds (n / 10) (String.◌∷◌ (digit (n % 10)) out) (ground arith)
      ∙ value_last n out)
]

value-to_string : (n : ℕ) → value 0 (to_string n) ≡ n
unfolding to_string value
value-to_string n = value-digits (suc n) n "" (omega arith)

value-zeros : (n : ℕ) (s : String) → value 0 (zeros n s) ≡ value 0 s
unfolding zeros value
value-zeros zero s = refl
value-zeros (suc n) s = value-zeros n s

pub value-pad_start : (width n : ℕ) → value 0 (pad_start width (to_string n)) ≡ n
value-pad_start width n =
    value-zeros (width - count (to_string n)) (to_string n) ∙ value-to_string n

-- The text with `.a` after it.
pub value-append : (n : ℕ) (s t : String) → value n (s ++ t) ≡ value (value n s) t
unfolding value
value-append n String.[] t = rw (nil-append t) refl
value-append n (String.◌∷◌ c s) t =
    rw (cons-append c s t) (value-append (10 * n + (code c - 48)) s t)

-- A character of the text is a full stop.
unfoldable pub has_dot : String → Bool
has_dot String.[] = false
has_dot (String.◌∷◌ c s) = eqb (code c) 46 || has_dot s

has_dot-digits :
    (rounds n : ℕ) (out : String) → has_dot out ≡ false → has_dot (digits rounds n out) ≡ false
unfolding digits has_dot
has_dot-digits zero n out h = h
has_dot-digits (suc rounds) n out h =
    let now : has_dot (String.◌∷◌ (digit (n % 10)) out) ≡ false =
      ground (arith, code-digit (n % 10) (omega arith)) in
    elim (Bool-cases (ltb n 10)) [
      | inl e ↦ rw e now
      | inr e ↦ rw e (has_dot-digits rounds (n / 10) _ now)
    ]

has_dot-zeros : (n : ℕ) (s : String) → has_dot s ≡ false → has_dot (zeros n s) ≡ false
unfolding zeros has_dot
has_dot-zeros zero s h = h
has_dot-zeros (suc n) s h = has_dot-zeros n s h

pub has_dot-pad_start : (width n : ℕ) → has_dot (pad_start width (to_string n)) ≡ false
unfolding to_string has_dot
has_dot-pad_start width n =
    has_dot-zeros (width - count (to_string n)) _ (has_dot-digits (suc n) n "" refl)

pub has_dot-append : (s : String) → has_dot (s ++ ".a") ≡ true
unfolding has_dot
has_dot-append String.[] = refl
has_dot-append (String.◌∷◌ c s) = rw (cons-append c s ".a") (ground (arith, has_dot-append s))

p12 : pad_start 3 (to_string 12) ≡ "012"
unfolding to_string digits digit zeros
p12 = refl
