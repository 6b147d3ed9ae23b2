-- ===== src/Polygon/TestCases/Complete.antt =====
-- What validateTestCases ensures of the directory with the tests
-- (services/polygon/polygon-tests.service.ts).
use Prim.Native.String.{◌++◌}
use mathlib.Core.Path.{subst}
use mathlib.Core.List.{Perm}
use judge_self.Common.{
  ℕ, zero, suc, ◌*◌, String, ◌≡◌, refl, sym, ◌∙◌, Bool, true, false, not, Option, none, some, List,
  [], ◌∷◌, ◌==◌, All, any, any-map, map, length, length-map, eqb, arith, if◌then◌else◌,
}
use judge_self.Common.Int.{ℤ, pos, negsuc}
use judge_self.Common.Distinct.{occurs, occurs-Perm}
use judge_self.Polygon.Xml.{Extracted, extracted, thrown, and_then}
use judge_self.Polygon.TestCases.{
  Entry, is_file, has_name, width_of, file_name, check_names, check_files, check_entries,
  validate_test_cases,
}
use judge_self.Polygon.TestCases.Names.{expected, length-expected, expected-IsDistinct}

abbrev pub names_of : List Entry → List String
names_of entries = map (λ e. e.name) entries

-- The names for that many tests.
abbrev pub expected_names : ℕ → List String
expected_names n = expected (width_of (some (pos n))) 1 n

-- The entries are files, and their names are those that the tests have to have, each once.
abbrev pub IsComplete : ℕ → List Entry → Type 0
IsComplete n entries =
    All (λ e. is_file e ≡ true) entries × Perm (names_of entries) (expected_names n)

pub any-occurs :
    (name : String) (entries : List Entry)
    → any (has_name name) entries ≡ occurs name (names_of entries)
any-occurs name entries = sym (any-map (λ y. y == name) (λ e. e.name) entries)

thrown-ne : {A : Type 0} {m : String} {a : A} → thrown m ≡ extracted a → ⊥
thrown-ne h = cc

equal-of_eqb : (a b : ℕ) → eqb a b ≡ true → a ≡ b
equal-of_eqb a b h = ground arith

-- A test that was passed.
passed :
    {A : Type 0} (b : Bool) (m : String) (x : Extracted A) (a : A)
    → (if b then x else thrown m) ≡ extracted a
    → (b ≡ true) × (x ≡ extracted a)
passed true m x a h = (refl, h)
passed false m x a h = absurd (thrown-ne h)

not_refused :
    {A : Type 0} (b : Bool) (m : String) (x : Extracted A) (a : A)
    → (if not b then thrown m else x) ≡ extracted a
    → (b ≡ true) × (x ≡ extracted a)
not_refused true m x a h = (refl, h)
not_refused false m x a h = absurd (thrown-ne h)

check_names-returned :
    (entries dir : List Entry) (width i rest : ℕ)
    → check_names entries width i rest ≡ extracted dir
    → (entries ≡ dir) × All (λ x. occurs x (names_of entries) ≡ true) (expected width i rest)
unfolding check_names expected
check_names-returned entries dir width i zero h = (cc, tt)
check_names-returned entries dir width i (suc rest) h =
    let name = file_name width i in
    let (e, g) = not_refused (any (has_name name) entries) _ _ dir h in
    let (f, k) = not_refused (any (has_name (name ++ ".a")) entries) _ _ dir g in
    let (same, all) = check_names-returned entries dir width (suc i) rest k in
    let input = sym (any-occurs name entries) ∙ e in
    let output = sym (any-occurs (name ++ ".a") entries) ∙ f in (same, (input, (output, all)))

module _ (join : String → String → String) where
  check_files-returned :
      (tests_dir : String) (es dir : List Entry) (later : Extracted (List Entry))
      → check_files join tests_dir es later ≡ extracted dir
      → (later ≡ extracted dir) × All (λ e. is_file e ≡ true) es
  unfolding check_files
  check_files-returned tests_dir [] dir later h = (h, tt)
  check_files-returned tests_dir (x ∷ es) dir later h =
      let (e, g) = passed (is_file x) _ _ dir h in
      let (l, all) = check_files-returned tests_dir es dir later g in (l, (e, all))

  abbrev pub HasTests : Option ℤ → List Entry → Type 0
  HasTests test_count dir = (n : ℕ) × (test_count ≡ some (pos n)) × IsComplete n dir

  check_entries-returned :
      (tests_dir : String) (test_count : Option ℤ) (entries dir : List Entry)
      → check_entries join tests_dir test_count entries ≡ extracted dir
      → HasTests test_count dir
  unfolding check_entries
  check_entries-returned tests_dir none entries dir h = absurd (thrown-ne h)
  check_entries-returned tests_dir (some (negsuc k)) entries dir h = absurd (thrown-ne h)
  check_entries-returned tests_dir (some (pos n)) entries dir h =
      let width = width_of (some (pos n)) in
      let (e, g) = passed (eqb (length entries) (n * 2)) _ _ dir h in
      let (found, files) = check_files-returned tests_dir entries dir _ g in
      let (same, all) = check_names-returned entries dir width 1 n found in
      let twice : length entries ≡ n * 2 = equal-of_eqb (length entries) (n * 2) e in
      let size : length (names_of entries) ≡ length (expected width 1 n) =
        length-map (λ e. e.name) entries ∙ twice ∙ sym (length-expected width 1 n) in
      let names : Perm (names_of entries) (expected_names n) =
        occurs-Perm (expected width 1 n) (names_of entries) (expected-IsDistinct width 1 n) all
          size in
      (n, refl, subst (IsComplete n) same (files, names))

  and_then-extracted :
      {A B : Type 0} (m : Extracted A) (k : A → Extracted B) (b : B)
      → and_then m k ≡ extracted b
      → (a : A) × (k a ≡ extracted b)
  and_then-extracted (extracted a) k b h = (a, h)
  and_then-extracted (thrown m) k b h = absurd (thrown-ne h)

  -- When the validation of the tests returns, the number of tests is a natural number, and the directory
  -- holds files only, whose names are those of the inputs and the outputs of the tests from 1 up to that
  -- number, padded to one width, each of them once and no other name.
  pub validate_test_cases-IsComplete :
      (work_dir test_set_name : String) (test_count : Option ℤ) (entries dir : List Entry)
      → validate_test_cases join work_dir test_set_name test_count entries ≡ extracted dir
      → (n : ℕ) × (test_count ≡ some (pos n)) × IsComplete n dir
  unfolding validate_test_cases
  validate_test_cases-IsComplete work_dir test_set_name test_count entries dir h =
      let (fixed, found) =
        and_then-extracted _ (check_entries join (join work_dir test_set_name) test_count) dir h in
      check_entries-returned (join work_dir test_set_name) test_count fixed dir found
