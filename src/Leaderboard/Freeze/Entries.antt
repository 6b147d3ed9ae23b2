-- ===== src/Leaderboard/Freeze/Entries.antt =====
-- What an entry that services/freeze.service.ts collects for a user holds.
use judge_self.Common.{
  String, ◌≡◌, refl, sym, ap, ◌∙◌, Option, none, some, List, [], ◌∷◌, ◌++◌, ◌==◌, keep, map, eq_iff,
  Bool-cases, inl, inr, if◌then◌else◌,
}
use judge_self.Common.Assoc.{lookup, assign, lookup-assign}
use judge_self.Leaderboard.Types.{ProblemState, UserContestMetadata, empty_metadata}
use judge_self.Leaderboard.Live.{or_empty, track}
use judge_self.Leaderboard.Freeze.{RatedRow, push_row, aggregate}
use judge_self.Leaderboard.Freeze.Aggregate.{push_rows, is_row_of, lookup-aggregate}

-- A row as a state of its problem.
abbrev pub state_of_row : RatedRow → ProblemState
state_of_row row = record {
  submission_id = row.id;
  relative_submitted_at = row.submitted_at;
  status = row.status;
}

abbrev pub unless_empty : {A : Type 0} → List A → Option (List A)
unless_empty [] = none
unless_empty (x ∷ xs) = some (x ∷ xs)

-- The states of the rows to a problem, in the order of the rows.
abbrev pub states_for : String → List RatedRow → List ProblemState
states_for p rows = map state_of_row (keep (λ r. r.problem_id == p) rows)

-- The metadata lists the ids of the rows, and for each problem the states of the rows to it, all in their order.
abbrev pub IsMadeOf : List RatedRow → UserContestMetadata → Type 0
IsMadeOf rows m =
    (m.processed_submissions ≡ map (λ r. r.id) rows)
    × ((p : String) → lookup p m.problems ≡ unless_empty (states_for p rows))

-- There is an entry for rows, made of them, and none without rows.
abbrev pub IsEntryOf : List RatedRow → Option UserContestMetadata → Type 0
IsEntryOf [] o = o ≡ none
IsEntryOf (row ∷ rows) o = (m : UserContestMetadata) × (o ≡ some m) × IsMadeOf (row ∷ rows) m

or_empty-unless_empty : (xs : List ProblemState) → or_empty (unless_empty xs) ≡ xs
or_empty-unless_empty [] = refl
or_empty-unless_empty (x ∷ xs) = refl

module _ {A : Type 0} where
  append_assoc : (xs ys zs : List A) → (xs ++ ys) ++ zs ≡ xs ++ (ys ++ zs)
  append_assoc [] ys zs = refl
  append_assoc (x ∷ xs) ys zs = ap (◌∷◌ x) (append_assoc xs ys zs)

  append_nil : (xs : List A) → xs ++ [] ≡ xs
  append_nil [] = refl
  append_nil (x ∷ xs) = ap (◌∷◌ x) (append_nil xs)

  unless_empty-append : (xs : List A) (x : A) → unless_empty (xs ++ x ∷ []) ≡ some (xs ++ x ∷ [])
  unless_empty-append [] x = refl
  unless_empty-append (y ∷ ys) x = refl

ids-append :
    (rows : List RatedRow) (row : RatedRow)
    → map (λ r. r.id) (rows ++ row ∷ []) ≡ map (λ r. r.id) rows ++ row.id ∷ []
ids-append [] row = refl
ids-append (r ∷ rows) row = ap (◌∷◌ r.id) (ids-append rows row)

states_for-append :
    (p : String) (rows : List RatedRow) (row : RatedRow)
    → states_for p (rows ++ row ∷ [])
      ≡ states_for p rows ++ (if row.problem_id == p then state_of_row row ∷ [] else [])
states_for-append p [] row = elim (Bool-cases (row.problem_id == p)) [
  | inl e ↦ rw e refl
  | inr e ↦ rw e refl
]
states_for-append p (r ∷ rows) row = elim (Bool-cases (r.problem_id == p)) [
  | inl e ↦ rw e (ap (◌∷◌ (state_of_row r)) (states_for-append p rows row))
  | inr e ↦ rw e (states_for-append p rows row)
]

push_row-IsMadeOf :
    (rows : List RatedRow) (row : RatedRow) (m : UserContestMetadata)
    → IsMadeOf rows m
    → IsMadeOf (rows ++ row ∷ []) (push_row m row)
unfolding push_row
push_row-IsMadeOf rows row m (ids, states) =
    (ap (λ xs. xs ++ row.id ∷ []) ids ∙ sym (ids-append rows row), λ p. go p)
  where
    pushed : List ProblemState
    pushed = track row.problem_id m.problems ++ state_of_row row ∷ []

    tracked : track row.problem_id m.problems ≡ states_for row.problem_id rows
    tracked = ap or_empty (states row.problem_id) ∙ or_empty-unless_empty _

    go :
        (p : String)
        → lookup p (assign row.problem_id pushed m.problems)
          ≡ unless_empty (states_for p (rows ++ row ∷ []))
    go p = elim (Bool-cases (row.problem_id == p)) [
      | inl e ↦
          lookup-assign row.problem_id p pushed m.problems
          ∙ (rw e (
              ap (λ xs. some (xs ++ state_of_row row ∷ [])) tracked
              ∙ ap (λ q. some (states_for q rows ++ state_of_row row ∷ []))
                  ((eq_iff row.problem_id p).0 e)
              ∙ sym (unless_empty-append (states_for p rows) (state_of_row row))
              ∙ sym (ap unless_empty (states_for-append p rows row ∙ (rw e refl)))))
      | inr e ↦
          lookup-assign row.problem_id p pushed m.problems
          ∙ (rw e (
              states p
              ∙ sym (ap unless_empty (states_for-append p rows row ∙ (rw e (append_nil _))))))
    ]

push_rows-IsMadeOf :
    (before rows : List RatedRow) (m : UserContestMetadata)
    → IsMadeOf before m
    → (m' : UserContestMetadata) × (push_rows (some m) rows ≡ some m')
      × IsMadeOf (before ++ rows) m'
unfolding push_rows
push_rows-IsMadeOf before [] m h = rw (append_nil before) (m, refl, h)
push_rows-IsMadeOf before (row ∷ rows) m h = rw (sym (append_assoc before (row ∷ []) rows)) (
    push_rows-IsMadeOf (before ++ row ∷ []) rows (push_row m row)
      (push_row-IsMadeOf before row m h))

push_rows-IsEntryOf : (rows : List RatedRow) → IsEntryOf rows (push_rows none rows)
unfolding push_rows lookup
push_rows-IsEntryOf [] = refl
push_rows-IsEntryOf (row ∷ rows) =
    push_rows-IsMadeOf (row ∷ []) rows (push_row empty_metadata row)
      (push_row-IsMadeOf [] row empty_metadata (refl, λ p. refl))

-- After the loop over any rows, a user has an entry exactly if a row is the user's, and the entry lists
-- the ids of the user's rows and, for each problem with a row of the user, the states of the user's
-- rows to that problem and no others, all in the order of the rows.
pub aggregate-IsEntryOf :
    (u : String) (rows : List RatedRow)
    → IsEntryOf (keep (is_row_of u) rows) (lookup u (aggregate rows []))
unfolding lookup
aggregate-IsEntryOf u rows =
    rw (lookup-aggregate u rows []) (push_rows-IsEntryOf (keep (is_row_of u) rows))
