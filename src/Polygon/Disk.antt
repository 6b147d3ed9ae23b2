-- ===== src/Polygon/Disk.antt =====
-- What the import of polygon-service/src works on: the files, the bucket and the table of the problems;
-- and its calls in sequence, which may throw. Writing a file does not.
use Prim.Native.String.{◌++◌ as ◌<>◌}
use judge_self.Common.{String, Bool, not, Option, none, some, List, ◌==◌, ◌||◌, keep}
use text.Mathlib.Text.{starts_with}
use judge_self.Common.Assoc.{Assoc, lookup, assign}
use judge_self.Polygon.Xml.{Extracted, extracted, thrown}
use judge_self.Polygon.TestCases.{Entry}
use judge_self.Polygon.Problems.{Row}

-- The contents of the files by their paths, what the directories list, and the files that were made
-- executable.
pub record Disk : Type 0 where
  pub files : Assoc String
  pub listings : Assoc (List Entry)
  pub executable : List String

-- The path is that directory or stands in it.
abbrev pub is_under : String → String → Bool
is_under dir path = path == dir || starts_with path (dir <> "/")

-- `fs.rm` with `recursive` and `force`
unfoldable pub remove : String → Disk → Disk
remove dir d = record {
  files = keep (λ e. not (is_under dir e.0)) d.files;
  listings = keep (λ e. not (is_under dir e.0)) d.listings;
  executable = keep (λ path. not (is_under dir path)) d.executable;
}

abbrev pub write_file : String → String → Disk → Disk
write_file path content d = record d { files = assign path content d.files }

abbrev pub set_listing : String → List Entry → Disk → Disk
set_listing dir entries d = record d { listings = assign dir entries d.listings }

pub record World : Type 0 where
  pub disk : Disk
  -- the objects by their keys
  pub bucket : Assoc String
  pub problems : List Row

-- What a call leaves, and its result.
abbrev pub Task : Type 0 → Type 0
Task A = World → World × Extracted A

module _ {A : Type 0} where
  abbrev pub give : A → Task A
  give a w = (w, extracted a)

  abbrev pub throw : String → Task A
  throw m w = (w, thrown m)

  abbrev pub attempt : Extracted A → Task A
  attempt r w = (w, r)

  abbrev pub found : String → Option A → Task A
  found m none w = (w, thrown m)
  found m (some a) w = (w, extracted a)

abbrev pub continue : {A B : Type 0} → World × Extracted A → (A → Task B) → World × Extracted B
continue (w, extracted a) k = k a w
continue (w, thrown m) k = (w, thrown m)

-- The next call is made if this one returned.
infixl 5 ◌>>=◌ ◌>>◌
unfoldable pub ◌>>=◌ : {A B : Type 0} → Task A → (A → Task B) → Task B
◌>>=◌ m k w = continue (m w) k

abbrev pub ◌>>◌ : {A B : Type 0} → Task A → Task B → Task B
m >> n = m >>= λ _. n

abbrev pub put_disk : String → Option Disk → Task Unit
put_disk m none w = (w, thrown m)
put_disk m (some d) w = (record w { disk = d }, extracted tt)

-- A call that changes the files, or throws.
unfoldable pub on_disk : String → (Disk → Option Disk) → Task Unit
on_disk m f w = put_disk m (f w.disk) w

unfoldable pub change_disk : (Disk → Disk) → Task Unit
change_disk f w = (record w { disk = f w.disk }, extracted tt)

-- `fs.readFile`
unfoldable pub read_file : String → Task String
read_file path w = found "ENOENT" (lookup path w.disk.files) w

-- `fs.readdir`
unfoldable pub read_dir : String → Task (List Entry)
read_dir dir w = found "ENOENT" (lookup dir w.disk.listings) w
