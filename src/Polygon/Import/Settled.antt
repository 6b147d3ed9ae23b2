-- ===== src/Polygon/Import/Settled.antt =====
-- What every outcome of importProblem leaves (services/problem-import.service.ts).
use judge_self.Common.{
  String, ◌≡◌, refl, ap, ◌∙◌, inl, inr, Bool, false, not, Option, List, [], ◌∷◌, ◌++◌, any, keep,
  Bool-cases,
}
use judge_self.Common.Int.{ℤ}
use judge_self.Polygon.Xml.{Extracted, extracted, thrown, ParsedProblemXml}
use judge_self.Polygon.Problems.{Row, ProblemRecord, create_problem_record}
use judge_self.Polygon.Problems.RoundTrip.{create_problem_record-appends}
use judge_self.Polygon.Disk.{Disk, World, Task, remove, is_under, ◌>>=◌, continue}
use judge_self.Polygon.Statement.{StatementData}
use judge_self.Polygon.Import.{
  Outside, inserted, insert_problem, store_package, clean_up, import_problem,
}
use judge_self.Polygon.Import.Keeps.{
  Keeps, zip-Keeps, upload-Keeps, upload_images-Keeps, load_package-Keeps,
}

-- A problem that is returned is the one row that the table got; an error leaves the table as it was.
abbrev pub HasRow : World → World × Extracted Row → Type 0
HasRow w (w', extracted row) = w'.problems ≡ w.problems ++ row ∷ []
HasRow w (w', thrown m) = w'.problems ≡ w.problems

HasRow-of_same :
    (w w' : World) (p : World × Extracted Row) → w'.problems ≡ w.problems → HasRow w' p → HasRow w p
HasRow-of_same w w' (v, extracted row) e h = h ∙ ap (λ t. t ++ row ∷ []) e
HasRow-of_same w w' (v, thrown m) e h = h ∙ e

continue-HasRow :
    {A : Type 0} (p : World × Extracted A) (k : A → Task Row) (w : World)
    → p.0.problems ≡ w.problems
    → ((a : A) (w' : World) → HasRow w' (k a w'))
    → HasRow w (continue p k)
continue-HasRow (w', extracted a) k w e h = HasRow-of_same w w' (k a w') e (h a w')
continue-HasRow (w', thrown m) k w e h = e

bind-HasRow :
    {A : Type 0} {m : Task A} (k : A → Task Row)
    → Keeps m
    → ((a : A) (w : World) → HasRow w (k a w))
    → (w : World) → HasRow w ((m >>= k) w)
unfolding ◌>>=◌
bind-HasRow {m = m} k hm hk w = continue-HasRow (m w) k w (hm.same w) hk

-- Nothing of the directory is left.
abbrev pub IsClean : String → Disk → Type 0
IsClean dir d =
    (any (λ e. is_under dir e.0) d.files ≡ false)
    × (any (λ e. is_under dir e.0) d.listings ≡ false)
    × (any (is_under dir) d.executable ≡ false)

any-keep : {A : Type 0} (p : A → Bool) (xs : List A) → any p (keep (λ x. not (p x)) xs) ≡ false
any-keep p [] = refl
any-keep p (x ∷ xs) = elim (Bool-cases (p x)) [
  | inl e ↦ rw e (any-keep p xs)
  | inr e ↦ rw e (rw e (any-keep p xs))
]

remove-IsClean : (dir : String) (d : Disk) → IsClean dir (remove dir d)
unfolding remove
remove-IsClean dir d = (
  any-keep (λ e. is_under dir e.0) d.files,
  any-keep (λ e. is_under dir e.0) d.listings,
  any-keep (is_under dir) d.executable,
)

module _ (o : Outside) where
  insert-HasRow : (r : ProblemRecord) (w : World) → HasRow w (insert_problem o r w)
  insert-HasRow r w = go (create_problem_record o.has_contest o.now r w.problems) refl
    where
      go :
          (x : Extracted (Row × List Row))
          → create_problem_record o.has_contest o.now r w.problems ≡ x
          → HasRow w (inserted o w x)
      go (extracted (row, table)) e =
          (create_problem_record-appends o.has_contest o.now r w.problems table row e).1
      go (thrown m) e = refl

  store_package-HasRow :
      (problem_id work_dir : String) (contest_id : ℤ) (problem_index : Option String)
      (loaded : ParsedProblemXml × StatementData) (w : World)
      → HasRow w (store_package o problem_id work_dir contest_id problem_index loaded w)
  unfolding store_package
  store_package-HasRow problem_id work_dir contest_id problem_index (parsed, statements) =
      bind-HasRow _ (zip-Keeps o work_dir parsed) (λ _. bind-HasRow _ (upload-Keeps o _ _) (λ _.
        bind-HasRow _ (upload_images-Keeps o problem_id statements.images)
          (λ _ w. insert-HasRow _ w)))

  cleaned :
      (work_dir : String) (w : World) (p : World × Extracted Row)
      → o.remove_fails ≡ false
      → HasRow w p
      → HasRow w (clean_up o work_dir p) × IsClean work_dir (clean_up o work_dir p).0.disk
  cleaned work_dir w (w', extracted row) e h = rw e (h, remove-IsClean work_dir w'.disk)
  cleaned work_dir w (w', thrown m) e h = rw e (h, remove-IsClean work_dir w'.disk)

  -- If the working directory can be removed, then whatever becomes of an import, nothing of its directory is
  -- left, and the table of the problems holds one row more, the row that is returned, or
  -- what it held before when an error is thrown.
  pub import_problem-HasRow :
      (problem_id problem_url : String) (contest_id : ℤ) (problem_index : Option String) (w : World)
      → o.remove_fails ≡ false
      → HasRow w (import_problem o problem_id problem_url contest_id problem_index w)
        × IsClean
            (o.join o.tmp_base_dir problem_id)
            (import_problem o problem_id problem_url contest_id problem_index w).0.disk
  unfolding import_problem
  import_problem-HasRow problem_id problem_url contest_id problem_index w e =
      let work_dir = o.join o.tmp_base_dir problem_id in
      cleaned work_dir w _ e (
        bind-HasRow _ (load_package-Keeps o problem_url work_dir)
          (store_package-HasRow problem_id work_dir contest_id problem_index) w)
