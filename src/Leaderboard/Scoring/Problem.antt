-- ===== src/Leaderboard/Scoring/Problem.antt =====
-- What the inner loop of scoring.service.ts finds, described without a sort and without a loop
-- that stops: the earliest accepted submission, and the wrong ones up to it.
use mathlib.Core.List.{foldr}
use judge_self.Common.{
  ℕ, suc, ◌+◌, ◌≤◌, ◌≡◌, refl, ap, Bool, true, false, ◌&&◌, Option, none, some, List, [], ◌∷◌,
  arith, count_if, All, Bool-cases, inl, inr, if◌then◌else◌,
}
use judge_self.Common.Int.{
  ℤ, pos, ◌≤ℤ◌, leb_ℤ, ltb_ℤ, min_ℤ, -ℤ_parts, eq_of_parts, min_ℤ_comm, min_ℤ_left_comm,
}
use judge_self.Common.Sort.{sort}
use judge_self.Common.Sort.Laws.{Le, IsSorted, IsOrder, fold-sort, count_if-sort, sort-IsSorted}
use judge_self.Leaderboard.Types.{ProblemState}
use judge_self.Leaderboard.Scoring.{
  Tally, by_time, is_accepted, is_wrong, tally, problem_tally, empty_tally,
}

abbrev pub earlier : ℤ → Option ℤ → Option ℤ
earlier t none = some t
earlier t (some a) = some (min_ℤ t a)

abbrev pub step : ProblemState → Option ℤ → Option ℤ
step sub acc = if is_accepted sub then earlier sub.relative_submitted_at acc else acc

-- The least time of an accepted submission.
abbrev pub earliest_accepted : List ProblemState → Option ℤ
earliest_accepted = foldr step none

abbrev is_wrong_before : ℤ → ProblemState → Bool
is_wrong_before t sub = is_wrong sub && ltb_ℤ sub.relative_submitted_at t

abbrev is_wrong_upto : ℤ → ProblemState → Bool
is_wrong_upto t sub = is_wrong sub && leb_ℤ sub.relative_submitted_at t

abbrev pub wrong_before : ℤ → List ProblemState → ℕ
wrong_before t = count_if (is_wrong_before t)

abbrev pub wrong_upto : ℤ → List ProblemState → ℕ
wrong_upto t = count_if (is_wrong_upto t)

-- The tally of the submissions `subs`, given the time of the earliest accepted one.
abbrev pub Fits : List ProblemState → Option ℤ → Tally → Type 0
Fits subs none t =
    (t.is_solved ≡ false)
    × (t.score_time ≡ pos 0)
    × (t.wrong_attempts_before_ac ≡ count_if is_wrong subs)
Fits subs (some a) t =
    (t.is_solved ≡ true)
    × (t.score_time ≡ a)
    × (wrong_before a subs ≤ t.wrong_attempts_before_ac)
    × (t.wrong_attempts_before_ac ≤ wrong_upto a subs)

earlier_comm : (s t : ℤ) (b : Option ℤ) → earlier s (earlier t b) ≡ earlier t (earlier s b)
earlier_comm s t none = ap some (min_ℤ_comm s t)
earlier_comm s t (some a) = ap some (min_ℤ_left_comm s t a)

step_comm : (x y : ProblemState) (b : Option ℤ) → step x (step y b) ≡ step y (step x b)
step_comm x y b = ground (arith, earlier_comm x.relative_submitted_at y.relative_submitted_at b)

by_time_le :
    (x y : ProblemState) → Le by_time x y → x.relative_submitted_at ≤ℤ y.relative_submitted_at
unfolding by_time
by_time_le x y h = omega (arith, -ℤ_parts x.relative_submitted_at y.relative_submitted_at)

pub by_time-IsOrder : IsOrder by_time
unfolding by_time
by_time-IsOrder = record {
  total = λ x y. omega (
    arith,
    -ℤ_parts x.relative_submitted_at y.relative_submitted_at,
    -ℤ_parts y.relative_submitted_at x.relative_submitted_at,
  );
  trans = λ x y z p q. omega (
    arith,
    -ℤ_parts x.relative_submitted_at y.relative_submitted_at,
    -ℤ_parts y.relative_submitted_at z.relative_submitted_at,
    -ℤ_parts x.relative_submitted_at z.relative_submitted_at,
  );
}

abbrev NotAfter : ℤ → Option ℤ → Type 0
NotAfter t none = Unit
NotAfter t (some a) = t ≤ℤ a

-- An item that stands before all of a list is not after the earliest accepted one.
earliest_accepted-lower :
    (x : ProblemState) (ys : List ProblemState)
    → All (Le by_time x) ys
    → NotAfter x.relative_submitted_at (earliest_accepted ys)
earliest_accepted-lower x [] h = tt
earliest_accepted-lower x (y ∷ ys) (p, h) =
    go (earliest_accepted ys) (by_time_le x y p) (earliest_accepted-lower x ys h)
  where
    go :
        (o : Option ℤ)
        → x.relative_submitted_at ≤ℤ y.relative_submitted_at
        → NotAfter x.relative_submitted_at o
        → NotAfter x.relative_submitted_at (step y o)
    go none p q = ground arith
    go (some a) p q = ground arith

earliest_accepted-head : (t : ℤ) (o : Option ℤ) → NotAfter t o → earlier t o ≡ some t
earliest_accepted-head t none h = refl
earliest_accepted-head t (some a) h = ground (arith, eq_of_parts t a)

-- Nothing in a list of later items is wrong before its head.
wrong_before-head :
    (x : ProblemState) (ys : List ProblemState)
    → All (Le by_time x) ys
    → wrong_before x.relative_submitted_at ys ≡ 0
wrong_before-head x [] h = refl
wrong_before-head x (y ∷ ys) (p, h) = ground (arith, by_time_le x y p, wrong_before-head x ys h)

abbrev from : ℕ → Tally
from w = record { wrong_attempts_before_ac = w; is_solved = false; score_time = pos 0 }

-- What the loop returns when it has counted `w` wrong attempts before the list.
abbrev FitsFrom : ℕ → List ProblemState → Option ℤ → Tally → Type 0
FitsFrom w subs none t =
    (t.is_solved ≡ false)
    × (t.score_time ≡ pos 0)
    × (t.wrong_attempts_before_ac ≡ w + count_if is_wrong subs)
FitsFrom w subs (some a) t =
    (t.is_solved ≡ true)
    × (t.score_time ≡ a)
    × (w + wrong_before a subs ≤ t.wrong_attempts_before_ac)
    × (t.wrong_attempts_before_ac ≤ w + wrong_upto a subs)

FitsFrom-skip :
    (w : ℕ) (x : ProblemState) (ys : List ProblemState) (o : Option ℤ) (t : Tally)
    → NotAfter x.relative_submitted_at o
    → FitsFrom (if is_wrong x then suc w else w) ys o t
    → FitsFrom w (x ∷ ys) o t
FitsFrom-skip w x ys none t h f = ground arith
FitsFrom-skip w x ys (some a) t h f = ground arith

tally-FitsFrom :
    (w : ℕ) (ys : List ProblemState)
    → IsSorted by_time ys
    → FitsFrom w ys (earliest_accepted ys) (tally ys (from w))
unfolding tally
tally-FitsFrom w [] h = ground arith
tally-FitsFrom w (x ∷ ys) (p, h) = elim (Bool-cases (is_accepted x)) [
  | inl e ↦
      rw
        (
          e,
          earliest_accepted-head x.relative_submitted_at (earliest_accepted ys)
              (earliest_accepted-lower x ys p),
        )
        (ground (arith, wrong_before-head x ys p))
  | inr e ↦ rw e (
      FitsFrom-skip w x ys (earliest_accepted ys)
        (tally ys (from (if is_wrong x then suc w else w))) (earliest_accepted-lower x ys p)
        (tally-FitsFrom (if is_wrong x then suc w else w) ys h))
]

Fits-of_FitsFrom :
    (xs ys : List ProblemState) (o : Option ℤ) (t : Tally)
    → ((p : ProblemState → Bool) → count_if p ys ≡ count_if p xs)
    → FitsFrom 0 ys o t
    → Fits xs o t
Fits-of_FitsFrom xs ys none t same f = ground (arith, same is_wrong)
Fits-of_FitsFrom xs ys (some a) t same f =
    ground (arith, same (is_wrong_before a), same (is_wrong_upto a))

-- The inner loop solves a problem exactly if some submission is accepted, at the earliest such
-- time. It counts every wrong attempt before that time, and none after it; where no submission is
-- accepted it counts all wrong ones and leaves the time at 0.
pub problem_tally-Fits :
    (subs : List ProblemState) → Fits subs (earliest_accepted subs) (problem_tally subs)
unfolding problem_tally
problem_tally-Fits subs =
    Fits-of_FitsFrom subs (sort by_time subs) (earliest_accepted subs)
      (tally (sort by_time subs) empty_tally) (λ p. count_if-sort by_time p subs)
      (rw (fold-sort by_time step step_comm none subs) at
        (tally-FitsFrom 0 (sort by_time subs) (sort-IsSorted by_time by_time-IsOrder subs)))
