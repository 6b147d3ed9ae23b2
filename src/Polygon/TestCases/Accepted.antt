-- ===== src/Polygon/TestCases/Accepted.antt =====
-- Which directories validateTestCases accepts, and what it leaves in them
-- (services/polygon/polygon-tests.service.ts).
use Prim.Native.String.{◌++◌}
use mathlib.Core.Path.{subst}
use mathlib.Core.List.{Perm}
use judge_self.Common.{
  ℕ, zero, suc, ◌*◌, String, ◌≡◌, refl, sym, ap, ◌∙◌, inl, inr, true, false, some, List, [], ◌∷◌,
  ◌==◌, All, map, length, length-map, eqb, ltb, arith, Bool-cases, if◌then◌else◌,
}
use judge_self.Common.Int.{pos}
use judge_self.Common.Distinct.{
  occurs, IsDistinct, occurs-IsDistinct, any-Perm, length-Perm, occurs_each,
}
use judge_self.Polygon.Xml.{Extracted, extracted}
use judge_self.Polygon.TestCases.{
  Entry, is_file, width_of, file_name, strip_zeros, check_names, check_files, check_entries,
  fix_test_cases, validate_test_cases,
}
use judge_self.Polygon.TestCases.Names.{
  expected, length-expected, expected-IsDistinct, occurs-empty,
}
use judge_self.Polygon.TestCases.Complete.{names_of, expected_names, IsComplete, any-occurs}
use judge_self.Polygon.TestCases.Renamed.{stripped, keys, fix_test_cases-stripped}

-- The entries with the names that they get.
abbrev pub tidied : ℕ → List Entry → List Entry
tidied n entries = if ltb n 10 then map stripped entries else entries

check_names-passes :
    (entries : List Entry) (width i rest : ℕ)
    → All (λ x. occurs x (names_of entries) ≡ true) (expected width i rest)
    → check_names entries width i rest ≡ extracted entries
unfolding check_names expected
check_names-passes entries width i zero h = refl
check_names-passes entries width i (suc rest) (a, (b, h)) =
    rw
      (any-occurs (file_name width i) entries, a, any-occurs (file_name width i ++ ".a") entries, b)
      (check_names-passes entries width (suc i) rest h)

-- The names are those expected, so each of the expected ones occurs.
expected-occur :
    (n : ℕ) (names : List String)
    → Perm names (expected_names n)
    → All (λ x. occurs x names ≡ true) (expected_names n)
expected-occur n names h =
    occurs_each (expected_names n) names (λ x e. any-Perm (λ y. y == x) h ∙ e)

expected-twice :
    (n : ℕ) (names : List String) → Perm names (expected_names n) → length names ≡ n * 2
expected-twice n names h = length-Perm h ∙ length-expected (width_of (some (pos n))) 1 n

names-IsDistinct : (n : ℕ) (names : List String) → Perm names (expected_names n) → IsDistinct names
names-IsDistinct n names h =
    occurs-IsDistinct (expected_names n) names (expected-IsDistinct (width_of (some (pos n))) 1 n)
      (expected-occur n names h) (length-Perm h)

module _ (join : String → String → String) where
  check_files-passes :
      (tests_dir : String) (es : List Entry) (later : Extracted (List Entry))
      → All (λ e. is_file e ≡ true) es
      → check_files join tests_dir es later ≡ later
  unfolding check_files
  check_files-passes tests_dir [] later h = refl
  check_files-passes tests_dir (e ∷ es) later (h, hs) =
      rw h (check_files-passes tests_dir es later hs)

  check_entries-passes :
      (tests_dir : String) (n : ℕ) (entries : List Entry)
      → IsComplete n entries
      → check_entries join tests_dir (some (pos n)) entries ≡ extracted entries
  unfolding check_entries
  check_entries-passes tests_dir n entries (files, names) =
      let size : length entries ≡ n * 2 =
        sym (length-map (λ e. e.name) entries) ∙ expected-twice n (names_of entries) names in
      let same : eqb (length entries) (n * 2) ≡ true = ground arith in
      rw same (
        check_files-passes tests_dir entries _ files
        ∙ check_names-passes entries (width_of (some (pos n))) 1 n
            (expected-occur n (names_of entries) names))

  names-stripped : (entries : List Entry) → names_of (map stripped entries) ≡ keys entries
  names-stripped [] = refl
  names-stripped (e ∷ entries) = ap (◌∷◌ (strip_zeros e.name)) (names-stripped entries)

  stripped-files :
      (entries : List Entry)
      → All (λ e. is_file e ≡ true) entries
      → All (λ e. is_file e ≡ true) (map stripped entries)
  stripped-files [] h = tt
  stripped-files (e ∷ entries) (h, hs) = (h, stripped-files entries hs)

  keys_not_empty :
      (entries : List Entry)
      → occurs "" (keys entries) ≡ false
      → All (λ x. (strip_zeros x.name == "") ≡ false) entries
  keys_not_empty [] h = tt
  keys_not_empty (e ∷ entries) h = (ground arith, keys_not_empty entries (ground arith))

  fixed :
      (n : ℕ) (entries : List Entry)
      → All (λ e. is_file e ≡ true) entries
      → Perm (keys entries) (expected_names n)
      → fix_test_cases entries ≡ extracted (map stripped entries)
  fixed n entries files names =
      let nonempty =
        any-Perm (λ y. y == "") names ∙ occurs-empty (width_of (some (pos n))) 1 n (omega arith) in
      fix_test_cases-stripped entries files (keys_not_empty entries nonempty)
        (names-IsDistinct n (keys entries) names)

  -- A directory of files is accepted when the names that they get are those of the inputs and the outputs of
  -- the tests, each once, in any order: below ten tests the names without their leading zeros, and else
  -- the names as they are. The files are left with these names.
  pub validate_test_cases-tidied :
      (work_dir test_set_name : String) (n : ℕ) (entries : List Entry)
      → All (λ e. is_file e ≡ true) entries
      → Perm (names_of (tidied n entries)) (expected_names n)
      → validate_test_cases join work_dir test_set_name (some (pos n)) entries
        ≡ extracted (tidied n entries)
  unfolding validate_test_cases
  validate_test_cases-tidied work_dir test_set_name n entries files names =
      let dir = join work_dir test_set_name in
      elim (Bool-cases (ltb n 10)) [
        | inl e ↦
            let names' : Perm (names_of (map stripped entries)) (expected_names n) =
              subst
                (λ b.
                  Perm (names_of (if b then map stripped entries else entries)) (expected_names n))
                e names in
            let keyed : Perm (keys entries) (expected_names n) =
              subst (λ ks. Perm ks (expected_names n)) (names-stripped entries) names' in
            rw (e, fixed n entries files keyed)
              (check_entries-passes dir n (map stripped entries)
                (stripped-files entries files, names'))
        | inr e ↦
            let names' : Perm (names_of entries) (expected_names n) =
              subst
                (λ b.
                  Perm (names_of (if b then map stripped entries else entries)) (expected_names n))
                e names in
            rw e (check_entries-passes dir n entries (files, names'))
      ]
