-- ===== src/Leaderboard/Scoring/Sums.antt =====
-- The outer loop of scoring.service.ts as sums over the problems, and what the score does not
-- depend on.
use mathlib.Core.List.{foldr}
use judge_self.Common.{
  ℕ, suc, ◌+◌, ◌*◌, String, ◌≡◌, refl, sym, ◌∙◌, Bool, true, false, Option, none, some, List, [],
  ◌∷◌, arith, any, Bool-cases, inl, inr, if◌then◌else◌,
}
use judge_self.Common.Int.{ℤ, pos, ◌+ℤ◌, ◌-ℤ◌, +ℤ_assoc, zero-+ℤ, +ℤ_parts, eq_of_parts}
use judge_self.Common.Assoc.{Assoc}
use judge_self.Leaderboard.Types.{ProblemState, UserContestMetadata, penalty_offset}
use judge_self.Leaderboard.Scoring.{
  Tally, Totals, is_accepted, problem_tally, empty_totals, penalty_for_problem, add_problem, totals,
  compute_user_scores,
}
use judge_self.Leaderboard.Scoring.Problem.{earliest_accepted, step, Fits, problem_tally-Fits}

abbrev pub Entry : Type 0
Entry = String × List ProblemState

-- Some submission to the problem was accepted.
abbrev pub is_solved_entry : Entry → Bool
is_solved_entry (prob_id, subs) = any is_accepted subs

-- What a problem adds to the penalty.
abbrev pub entry_penalty : Entry → ℤ
entry_penalty (prob_id, subs) =
    if any is_accepted subs then penalty_for_problem (problem_tally subs) else pos 0

abbrev pub add_penalty : Entry → ℤ → ℤ
add_penalty e b = entry_penalty e +ℤ b

abbrev pub penalty_sum : Assoc (List ProblemState) → ℤ
penalty_sum = foldr add_penalty (pos 0)

abbrev pub add_solved : Entry → ℕ → ℕ
add_solved e n = if is_solved_entry e then suc n else n

abbrev pub solved_sum : Assoc (List ProblemState) → ℕ
solved_sum = foldr add_solved 0

-- Whether there is an earliest one.
abbrev IsFound : Option ℤ → Bool → Type 0
IsFound none b = b ≡ false
IsFound (some a) b = b ≡ true

IsFound-step :
    (x : ProblemState) (o : Option ℤ) (b : Bool)
    → IsFound o b
    → IsFound (step x o) (if is_accepted x then true else b)
IsFound-step x none b h = elim (Bool-cases (is_accepted x)) [ inl e ↦ rw e | inr e ↦ rw e h ]
IsFound-step x (some a) b h = elim (Bool-cases (is_accepted x)) [ inl e ↦ rw e | inr e ↦ rw e h ]

earliest_accepted-IsFound :
    (subs : List ProblemState) → IsFound (earliest_accepted subs) (any is_accepted subs)
earliest_accepted-IsFound [] = refl
earliest_accepted-IsFound (x ∷ xs) =
    IsFound-step x (earliest_accepted xs) (any is_accepted xs) (earliest_accepted-IsFound xs)

Fits-is_solved :
    (subs : List ProblemState) (o : Option ℤ) (t : Tally) (b : Bool)
    → Fits subs o t
    → IsFound o b
    → t.is_solved ≡ b
Fits-is_solved subs none t b f h = f.0 ∙ sym h
Fits-is_solved subs (some a) t b f h = f.0 ∙ sym h

-- A problem counts as solved exactly if some submission to it is accepted.
pub is_solved-any :
    (subs : List ProblemState) → (problem_tally subs).is_solved ≡ any is_accepted subs
is_solved-any subs =
    Fits-is_solved subs (earliest_accepted subs) (problem_tally subs) (any is_accepted subs)
      (problem_tally-Fits subs) (earliest_accepted-IsFound subs)

totals-sums :
    (ps : Assoc (List ProblemState)) (s : Totals)
    → ((totals ps s).solved_count ≡ s.solved_count + solved_sum ps)
      × ((totals ps s).total_penalty ≡ s.total_penalty +ℤ penalty_sum ps)
unfolding totals
totals-sums [] s = (omega arith, omega (arith, +ℤ_parts s.total_penalty (pos 0), eq_of_parts))
totals-sums ((k, subs) ∷ ps) s =
    let (c, p) = totals-sums ps (add_problem k subs s) in
    elim (Bool-cases (any is_accepted subs)) [
      | inl e ↦ (
        rw e (c ∙ rw (is_solved-any subs, e) (omega arith)),
        rw e (
            p
            ∙ rw (is_solved-any subs, e)
                (+ℤ_assoc s.total_penalty (penalty_for_problem (problem_tally subs))
                  (penalty_sum ps))),
      )
      | inr e ↦ (
        rw e (c ∙ rw (is_solved-any subs, e)),
        rw e (p ∙ rw (is_solved-any subs, e, zero-+ℤ (penalty_sum ps))),
      )
    ]

-- The score is made of two sums over the problems: the number of those with an accepted submission,
-- times the offset, less their penalties.
pub compute_user_scores-sums :
    (m : UserContestMetadata)
    → ((compute_user_scores m).solved ≡ solved_sum m.problems)
      × ((compute_user_scores m).penalty ≡ penalty_sum m.problems)
      × ((compute_user_scores m).score
          ≡ pos (solved_sum m.problems * penalty_offset) -ℤ penalty_sum m.problems)
unfolding compute_user_scores
compute_user_scores-sums m =
    let (c, p) = totals-sums m.problems empty_totals in
    let p' : (totals m.problems empty_totals).total_penalty ≡ penalty_sum m.problems =
      p ∙ zero-+ℤ (penalty_sum m.problems) in
    let c' : (totals m.problems empty_totals).solved_count ≡ solved_sum m.problems =
      c ∙ omega arith in
    (c', p', rw (c', p'))
