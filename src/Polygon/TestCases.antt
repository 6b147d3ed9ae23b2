-- ===== src/Polygon/TestCases.antt =====
-- polygon-service/src/services/polygon/polygon-tests.service.ts: fixTestCases and validateTestCases, over
-- the entries of the directory with the tests. What the functions leave in the directory is their
-- result. `join` is `path.join`.
pub mod Names
pub mod Complete
pub mod Renamed
pub mod Accepted
use Prim.Native.String.{◌++◌}
use judge_self.Common.{
  ℕ, zero, suc, ◌+◌, ◌*◌, String, Bool, true, false, not, Option, none, some, List, [], ◌∷◌, ◌==◌,
  ◌&&◌, ◌||◌, any, keep, map, length, eqb, ltb, if◌then◌else◌,
}
use judge_self.Common.Int.{ℤ, pos, negsuc}
use judge_self.Common.Decimal.{to_string, pad_start}
use judge_self.Polygon.Xml.{Extracted, extracted, thrown, and_then}

pub data Kind : Type 0 where
  file : Kind
  directory : Kind
  -- such as a symbolic link
  other : Kind

-- `Dirent`, and what the file holds, which stays with it when it gets another name.
pub record Entry : Type 0 where
  pub name : String
  pub kind : Kind
  pub content : String

abbrev pub file_kind : Kind → Bool
file_kind file = true
file_kind _ = false

abbrev pub directory_kind : Kind → Bool
directory_kind directory = true
directory_kind _ = false

abbrev pub is_file : Entry → Bool
is_file e = file_kind e.kind

abbrev pub is_directory : Entry → Bool
is_directory e = directory_kind e.kind

abbrev pub has_name : String → Entry → Bool
has_name name e = e.name == name

-- `name.replace(/^0+/, '')`
unfoldable pub strip_zeros : String → String
strip_zeros String.[] = String.[]
strip_zeros (String.◌∷◌ c s) =
    let rest = strip_zeros s in if String.◌∷◌ c String.[] == "0" then rest else String.◌∷◌ c s

abbrev pub set_name : String → String → Entry → Entry
set_name old new e = if e.name == old then record e { name = new } else e

-- `fs.rename` of a file to another name in its directory: what has the name is replaced, unless it is a
-- directory, as the empty name is that of the directory itself. The text of the error is shortened.
unfoldable pub rename : String → String → List Entry → Extracted (List Entry)
rename old new entries =
    if new == "" || any (λ e. has_name new e && is_directory e) entries
    then thrown "EISDIR"
    else if any (has_name old) entries
    then extracted (map (set_name old new) (keep (λ e. not (has_name new e)) entries))
    else thrown "ENOENT"

-- The loop of `fixTestCases` over the entries that were read before it.
unfoldable pub fix_all : List Entry → List Entry → Extracted (List Entry)
unfolding strip_zeros rename
fix_all [] now = extracted now
fix_all (e ∷ es) now =
    let skipped = fix_all es now in
    let new_name = strip_zeros e.name in
    if not (is_file e)
    then skipped
    else if new_name == e.name
    then skipped
    else and_then (rename e.name new_name now) (fix_all es)

abbrev pub fix_test_cases : List Entry → Extracted (List Entry)
fix_test_cases entries = fix_all entries entries

-- `String(n)`
abbrev show : Option ℤ → String
show none = "NaN"
show (some (pos n)) = to_string n
show (some (negsuc n)) = "-" ++ to_string (suc n)

abbrev twice : Option ℤ → Option ℤ
twice none = none
twice (some (pos n)) = some (pos (n * 2))
twice (some (negsuc n)) = some (negsuc (n * 2 + 1))

abbrev pub is_below_10 : Option ℤ → Bool
is_below_10 none = false
is_below_10 (some (pos n)) = ltb n 10
is_below_10 (some (negsuc n)) = true

-- `length === testCount * 2`
abbrev pub is_twice : ℕ → Option ℤ → Bool
is_twice length none = false
is_twice length (some (pos n)) = eqb length (n * 2)
is_twice length (some (negsuc n)) = false

-- How often the loop from 1 to the count runs.
abbrev pub rounds : Option ℤ → ℕ
rounds (some (pos n)) = n
rounds _ = 0

abbrev pub width_of : Option ℤ → ℕ
width_of count = Prim.Native.String.count (show count)

unfoldable pub file_name : ℕ → ℕ → String
file_name width i = pad_start width (to_string i)

-- The loop over the tests from `i` on.
unfoldable pub check_names : List Entry → ℕ → ℕ → ℕ → Extracted (List Entry)
unfolding file_name
check_names entries width i zero = extracted entries
check_names entries width i (suc rest) =
    let name = file_name width i in
    let later = check_names entries width (suc i) rest in
    if not (any (has_name name) entries)
    then thrown ("Missing input test file : " ++ name)
    else if not (any (has_name (name ++ ".a")) entries)
    then thrown ("Missing output test file : " ++ (name ++ ".a"))
    else later

module _ (join : String → String → String) where
  unfoldable pub check_files : String → List Entry → Extracted (List Entry) → Extracted (List Entry)
  check_files tests_dir [] later = later
  check_files tests_dir (e ∷ es) later =
      let rest = check_files tests_dir es later in
      if is_file e
      then rest
      else thrown ("Only files are allowed in the test directory: " ++ join tests_dir e.name)

  -- `validateTestCases` after `fixTestCases`.
  unfoldable pub check_entries : String → Option ℤ → List Entry → Extracted (List Entry)
  unfolding check_files check_names
  check_entries tests_dir test_count entries =
      if is_twice (length entries) test_count
      then check_files tests_dir entries
          (check_names entries (width_of test_count) 1 (rounds test_count))
      else thrown (
          "Expected "
          ++ (show (twice test_count)
              ++ (" test files (Total "
                  ++ (show test_count
                      ++ (" tests), but found " ++ (to_string (length entries) ++ "."))))))

  unfoldable pub validate_test_cases :
      String → String → Option ℤ → List Entry → Extracted (List Entry)
  unfolding check_entries fix_all
  validate_test_cases work_dir test_set_name test_count entries =
      let fixed = if is_below_10 test_count then fix_test_cases entries else extracted entries in
      and_then fixed (check_entries (join work_dir test_set_name) test_count)
