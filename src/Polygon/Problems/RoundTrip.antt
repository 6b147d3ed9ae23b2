-- ===== src/Polygon/Problems/RoundTrip.antt =====
-- A problem that is inserted is found again (repositories/problems.repository.ts).
use mathlib.Core.Path.{subst}
use judge_self.Common.{
  String, ◌≡◌, refl, sym, ap, ◌∙◌, inl, inr, Bool, true, false, some, List, [], ◌∷◌, ◌++◌, ◌==◌,
  ◌||◌, any, find_first, arith, eq_iff, Bool-cases, if◌then◌else◌,
}
use judge_self.Common.Int.{ℤ}
use judge_self.Common.Assoc.{lookup}
use judge_self.Polygon.Xml.{Extracted, extracted, thrown}
use judge_self.Polygon.Problems.{
  text, number, boolean, texts, Row, ProblemRecord, text_or_null, number_or_nan, has_id, stored_row,
  is_refused, collides, row_of, columns, values, create_problem_record, get_problem_by_id,
}

-- The row holds the record, each part of it in the column of its name.
abbrev pub IsRowOf : ProblemRecord → Row → Type 0
IsRowOf r row =
    (lookup "id" row ≡ some (text r.id))
    × (lookup "contest_id" row ≡ some (number r.contest_id))
    × (lookup "problem_index" row ≡ some (text_or_null r.problem_index))
    × (lookup "polygon_id" row ≡ some (text r.polygon_id))
    × (lookup "polygon_version" row ≡ some (number_or_nan r.polygon_version))
    × (lookup "name" row ≡ some (text r.name))
    × (lookup "statement" row ≡ some (text r.statement))
    × (lookup "input_statement" row ≡ some (text r.input_statement))
    × (lookup "output_statement" row ≡ some (text r.output_statement))
    × (lookup "examples" row ≡ some (text r.examples))
    × (lookup "notes" row ≡ some (text r.notes))
    × (lookup "images_key" row ≡ some (texts r.images_key))
    × (lookup "tags" row ≡ some (texts r.tags))
    × (lookup "memory_limit" row ≡ some (number_or_nan r.memory_limit))
    × (lookup "time_limit" row ≡ some (number_or_nan r.time_limit))
    × (lookup "test_count" row ≡ some (number_or_nan r.test_count))
    × (lookup "input_type" row ≡ some (text r.input_type))
    × (lookup "output_type" row ≡ some (text r.output_type))
    × (lookup "author_name" row ≡ some (text r.author_name))
    × (lookup "has_interactor" row ≡ some (boolean r.has_interactor))
    × (lookup "interactor_language" row ≡ some (text_or_null r.interactor_language))
    × (lookup "checker_language" row ≡ some (text_or_null r.checker_language))
    × (lookup "problem_zip_key" row ≡ some (text r.problem_zip_key))

pub stored_row-IsRowOf : (now : String) (r : ProblemRecord) → IsRowOf r (stored_row now r)
unfolding lookup
stored_row-IsRowOf now r = (
  refl, refl, refl, refl, refl, refl, refl, refl, refl, refl, refl, refl, refl, refl, refl, refl,
  refl, refl, refl, refl, refl, refl, refl,
)

find_last :
    (id : String) (table : List Row) (row : Row)
    → has_id id row ≡ true
    → any (has_id id) table ≡ false
    → find_first (has_id id) (table ++ row ∷ []) ≡ some row
find_last id [] row h n = rw h
find_last id (t ∷ table) row h n = ground (arith, find_last id table row h)

find_other :
    (id : String) (table : List Row) (row : Row)
    → has_id id row ≡ false
    → find_first (has_id id) (table ++ row ∷ []) ≡ find_first (has_id id) table
find_other id [] row h = rw h
find_other id (t ∷ table) row h = ground (arith, find_other id table row h)

any_left :
    {A : Type 0} (p q : A → Bool) (xs : List A)
    → any (λ x. p x || q x) xs ≡ false
    → any p xs ≡ false
any_left p q [] h = refl
any_left p q (x ∷ xs) h = ground (arith, any_left p q xs)

-- A guard that throws was not taken.
not_thrown :
    {A : Type 0} (b : Bool) (m : String) (x : Extracted A) (a : A)
    → (if b then thrown m else x) ≡ extracted a
    → (b ≡ false) × (x ≡ extracted a)
not_thrown true m x a h = cc
not_thrown false m x a h = (refl, h)

returned :
    {A : Type 0} (b : Bool) (m : String) (x a : A)
    → (if b then extracted x else thrown m) ≡ extracted a
    → x ≡ a
returned true m x a h = cc
returned false m x a h = cc

find-stored :
    (now : String) (r : ProblemRecord) (table : List Row) (id : String)
    → any (has_id r.id) table ≡ false
    → get_problem_by_id id (table ++ stored_row now r ∷ [])
      ≡ (if r.id == id then some (stored_row now r) else get_problem_by_id id table)
unfolding get_problem_by_id lookup
find-stored now r table id h = elim (Bool-cases (r.id == id)) [
  | inl e ↦ rw e (
      find_last id table (stored_row now r) e
        (subst (λ k. any (has_id k) table ≡ false) ((eq_iff r.id id).0 e) h))
  | inr e ↦ rw e (find_other id table (stored_row now r) e)
]

abbrev with_row : Row → List Row → Row × List Row
with_row row table = (row, table ++ row ∷ [])

-- What the statement did when it returned.
create_steps :
    (has_contest : ℤ → Bool) (now : String) (r : ProblemRecord) (table table' : List Row)
    (row : Row)
    → create_problem_record has_contest now r table ≡ extracted (row, table')
    → (any (has_id r.id) table ≡ false) × (with_row (stored_row now r) table ≡ (row, table'))
unfolding create_problem_record lookup
create_steps has_contest now r table table' row h =
    let new = stored_row now r in
    let (_, g) = not_thrown (any is_refused (row_of columns (values r))) "value" _ _ h in
    let (fresh, k) = not_thrown (any (collides new) table) "unique" _ _ g in
    (any_left (has_id r.id) _ table fresh, returned (has_contest r.contest_id) "reference" _ _ k)

-- The row that is returned is the one that the table gets.
pub create_problem_record-appends :
    (has_contest : ℤ → Bool) (now : String) (r : ProblemRecord) (table table' : List Row)
    (row : Row)
    → create_problem_record has_contest now r table ≡ extracted (row, table')
    → (stored_row now r ≡ row) × (table' ≡ table ++ row ∷ [])
create_problem_record-appends has_contest now r table table' row h =
    let (_, same) = create_steps has_contest now r table table' row h in
    (ap (λ p. p.0) same, sym (ap (λ p. p.1) same) ∙ ap (λ n. table ++ n ∷ []) (ap (λ p. p.0) same))

-- When the record of a problem is created, the row that is returned holds each of its values in the
-- column of its name. It is what the table then gives for the problem's identifier; for
-- any other it gives what it gave before, and the record's identifier was not in use.
pub create_problem_record-get_problem_by_id :
    (has_contest : ℤ → Bool) (now : String) (r : ProblemRecord) (table table' : List Row)
    (row : Row) (id : String)
    → create_problem_record has_contest now r table ≡ extracted (row, table')
    → IsRowOf r row
      × (any (has_id r.id) table ≡ false)
      × (get_problem_by_id id table'
          ≡ (if r.id == id then some row else get_problem_by_id id table))
create_problem_record-get_problem_by_id has_contest now r table table' row id h =
    let (unused, same) = create_steps has_contest now r table table' row h in
    subst
      (λ p.
        IsRowOf r p.0
        × (any (has_id r.id) table ≡ false)
        × (get_problem_by_id id p.1
            ≡ (if r.id == id then some p.0 else get_problem_by_id id table)))
      same (stored_row-IsRowOf now r, unused, find-stored now r table id unused)
