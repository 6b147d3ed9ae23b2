-- ===== src/Polygon/TestCases/Names.antt =====
-- The names that the files of a package's tests have to have (services/polygon/polygon-tests.service.ts).
use Prim.Native.String.{◌++◌}
use judge_self.Common.{
  ℕ, zero, suc, ◌+◌, ◌*◌, ◌<◌, String, ◌≡◌, ◌≢◌, refl, sym, ap, ◌∙◌, inl, inr, true, false, List,
  [], ◌∷◌, ◌==◌, length, arith, eq_iff, Bool-cases,
}
use judge_self.Common.Decimal.Laws.{
  value, value-append, value-pad_start, has_dot, has_dot-pad_start, has_dot-append,
}
use judge_self.Common.Distinct.{occurs, IsDistinct}
use judge_self.Polygon.TestCases.{file_name}

module _ (width : ℕ) where
  -- The input and the output of each of the `rest` tests from `i` on.
  unfoldable pub expected : ℕ → ℕ → List String
  expected i zero = []
  expected i (suc rest) = file_name width i ∷ (file_name width i ++ ".a") ∷ expected (suc i) rest

  pub length-expected : (i rest : ℕ) → length (expected i rest) ≡ rest * 2
  unfolding expected
  length-expected i zero = refl
  length-expected i (suc rest) = omega (arith, length-expected (suc i) rest)

  same_number : (i j : ℕ) → file_name width i ≡ file_name width j → i ≡ j
  unfolding file_name
  same_number i j e = sym (value-pad_start width i) ∙ ap (value 0) e ∙ value-pad_start width j

  input_value : (i : ℕ) → value 0 (file_name width i ++ ".a") ≡ 10 * (10 * i) + 49
  unfolding file_name value
  input_value i =
      value-append 0 (file_name width i) ".a" ∙ (rw (value-pad_start width i) (omega arith))

  input-ne-input : (i j : ℕ) → i < j → (file_name width j == file_name width i) ≡ false
  input-ne-input i j h = elim (Bool-cases (file_name width j == file_name width i)) [
    | inl e ↦
        absurd
          (omega (arith, same_number j i ((eq_iff (file_name width j) (file_name width i)).0 e)))
    | inr e ↦ e
  ]

  output-ne-output :
      (i j : ℕ) → i < j → ((file_name width j ++ ".a") == (file_name width i ++ ".a")) ≡ false
  output-ne-output i j h =
      elim (Bool-cases ((file_name width j ++ ".a") == (file_name width i ++ ".a"))) [
        | inl e ↦
            let same =
              ap (value 0) ((eq_iff (file_name width j ++ ".a") (file_name width i ++ ".a")).0 e) in
            absurd (omega (arith, same, input_value i, input_value j))
        | inr e ↦ e
      ]

  dots_differ :
      (s t : String)
      → has_dot s ≡ true
      → has_dot t ≡ false
      → ((s == t) ≡ false) × ((t == s) ≡ false)
  dots_differ s t d n = (
    elim (Bool-cases (s == t)) [ inl e ↦ absurd (differ ((eq_iff s t).0 e)) | inr e ↦ e ],
    elim (Bool-cases (t == s)) [ inl e ↦ absurd (differ (sym ((eq_iff t s).0 e))) | inr e ↦ e ],
  )
    where
      differ : s ≢ t
      differ e = cc (d, n, ap has_dot e)

  output-ne-input : (i j : ℕ) → ((file_name width i ++ ".a") == file_name width j) ≡ false
  unfolding file_name
  output-ne-input i j =
      (dots_differ (file_name width i ++ ".a") (file_name width j)
        (has_dot-append (file_name width i)) (has_dot-pad_start width j)).0

  input-ne-output : (i j : ℕ) → (file_name width j == (file_name width i ++ ".a")) ≡ false
  unfolding file_name
  input-ne-output i j =
      (dots_differ (file_name width i ++ ".a") (file_name width j)
        (has_dot-append (file_name width i)) (has_dot-pad_start width j)).1

  occurs-expected :
      (j i rest : ℕ)
      → j < i
      → (occurs (file_name width j) (expected i rest) ≡ false)
        × (occurs (file_name width j ++ ".a") (expected i rest) ≡ false)
  unfolding expected
  occurs-expected j i zero h = (refl, refl)
  occurs-expected j i (suc rest) h =
      let (a, b) = occurs-expected j (suc i) rest (omega arith) in
      (
        rw (input-ne-input j i h, output-ne-input i j) a,
        rw (input-ne-output j i, output-ne-output j i h) b,
      )

  pub expected-IsDistinct : (i rest : ℕ) → IsDistinct (expected i rest)
  unfolding expected
  expected-IsDistinct i zero = tt
  expected-IsDistinct i (suc rest) =
      let (a, b) = occurs-expected i (suc i) rest (omega arith) in
      (rw (output-ne-input i i) a, (b, expected-IsDistinct (suc i) rest))

  input_not_empty : (i : ℕ) → 0 < i → (file_name width i == "") ≡ false
  unfolding file_name value
  input_not_empty i h = elim (Bool-cases (file_name width i == "")) [
    | inl e ↦
        let zero_value = ap (value 0) ((eq_iff (file_name width i) "").0 e) in
        absurd (omega (arith, zero_value, value-pad_start width i))
    | inr e ↦ e
  ]

  output_not_empty : (i : ℕ) → ((file_name width i ++ ".a") == "") ≡ false
  unfolding has_dot
  output_not_empty i =
      (dots_differ (file_name width i ++ ".a") "" (has_dot-append (file_name width i)) refl).0

  -- None of them is empty.
  pub occurs-empty : (i rest : ℕ) → 0 < i → occurs "" (expected i rest) ≡ false
  unfolding expected
  occurs-empty i zero h = refl
  occurs-empty i (suc rest) h =
      rw (input_not_empty i h, output_not_empty i) (occurs-empty (suc i) rest (omega arith))
