-- ===== src/Leaderboard/Tests/Scoring.antt =====
-- Runs of the scoring.

use judge_self.Common.{◌≡◌, refl, ◌↔◌, [], ◌∷◌, ◌*◌, arith}
use judge_self.Common.Int.{pos, ◌<ℤ◌, ◌-ℤ◌, ◌+ℤ◌}
use judge_self.Common.Sort.{sort}
use judge_self.Leaderboard.Types.{UserContestMetadata, penalty_offset}
use judge_self.Leaderboard.Scoring.{
  compute_user_scores, totals, problem_tally, tally, is_accepted, is_wrong, by_time,
}
use judge_self.Leaderboard.Scoring.Problem.{Fits, earliest_accepted, problem_tally-Fits}
use judge_self.Leaderboard.Scoring.Sums.{solved_sum, penalty_sum, compute_user_scores-sums}
use judge_self.Leaderboard.Scoring.Ranking.{IsOutranked, score-lt_iff}
use judge_self.Leaderboard.Tests.Data.{state, tries, ann, bob}

ann_penalty : (compute_user_scores ann).penalty ≡ pos 1320
unfolding compute_user_scores totals problem_tally tally sort is_accepted is_wrong by_time ◌-ℤ◌ ◌+ℤ◌
ann_penalty = refl

problem_tally-Fits_example : Fits tries (earliest_accepted tries) (problem_tally tries)
problem_tally-Fits_example = problem_tally-Fits tries

score-lt_iff_example :
    ((compute_user_scores ann).score <ℤ (compute_user_scores bob).score)
    ↔ IsOutranked (compute_user_scores ann) (compute_user_scores bob)
unfolding compute_user_scores totals problem_tally tally sort is_accepted is_wrong by_time ◌-ℤ◌ ◌+ℤ◌
score-lt_iff_example = score-lt_iff ann bob (omega arith, omega arith) (omega arith, omega arith)

compute_user_scores-sums_example :
    ((compute_user_scores ann).solved ≡ solved_sum ann.problems)
    × ((compute_user_scores ann).penalty ≡ penalty_sum ann.problems)
    × ((compute_user_scores ann).score
        ≡ pos (solved_sum ann.problems * penalty_offset) -ℤ penalty_sum ann.problems)
compute_user_scores-sums_example = compute_user_scores-sums ann

abbrev ann_listed_otherwise : UserContestMetadata
ann_listed_otherwise = record ann { problems = ("b", state "s6" 30 "TLE" ∷ []) ∷ ("a", tries) ∷ [] }
