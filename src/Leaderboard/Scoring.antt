-- ===== src/Leaderboard/Scoring.antt =====
-- leaderboard-service/src/services/scoring.service.ts: the ICPC score of one user.
pub mod Problem
pub mod Sums
pub mod Ranking
use judge_self.Common.{
  ℕ, suc, ◌+◌, ◌*◌, String, Bool, true, false, ◌||◌, List, [], ◌∷◌, ◌==◌, if◌then◌else◌,
}
use judge_self.Common.Int.{ℤ, pos, ◌+ℤ◌, ◌-ℤ◌}
use judge_self.Common.Assoc.{Assoc, assign}
use judge_self.Common.Sort.{sort}
use judge_self.Leaderboard.Types.{
  ProblemState, UserContestMetadata, ProblemDetail, UserScore, penalty_offset,
}

-- The comparison of the sort: `a.relativeSubmittedAt - b.relativeSubmittedAt`.
unfoldable pub by_time : ProblemState → ProblemState → ℤ
by_time a b = a.relative_submitted_at -ℤ b.relative_submitted_at

unfoldable pub is_accepted : ProblemState → Bool
is_accepted sub = sub.status == "AC"

-- `['WA', 'TLE', 'MLE', 'RE'].includes(sub.status)`
unfoldable pub is_wrong : ProblemState → Bool
is_wrong sub =
    sub.status == "WA" || sub.status == "TLE" || sub.status == "MLE" || sub.status == "RE"

-- The variables of the inner loop.
pub record Tally : Type 0 where
  pub wrong_attempts_before_ac : ℕ
  pub is_solved : Bool
  pub score_time : ℤ

abbrev pub empty_tally : Tally
empty_tally = record { wrong_attempts_before_ac = 0; is_solved = false; score_time = pos 0 }

abbrev pub count_wrong : Bool → Tally → Tally
count_wrong b t = record t {
  wrong_attempts_before_ac =
      if b then suc t.wrong_attempts_before_ac else t.wrong_attempts_before_ac;
}

-- The inner loop, which breaks at the first accepted submission.
unfoldable pub tally : List ProblemState → Tally → Tally
tally [] t = t
tally (sub ∷ rest) t =
    let later = tally rest (count_wrong (is_wrong sub) t) in
    if is_accepted sub
    then record t { is_solved = true; score_time = sub.relative_submitted_at }
    else later

unfoldable pub problem_tally : List ProblemState → Tally
problem_tally submissions = tally (sort by_time submissions) empty_tally

-- Twenty minutes for each wrong attempt before the accepted one.
abbrev pub penalty_for_problem : Tally → ℤ
penalty_for_problem t = t.score_time +ℤ pos (t.wrong_attempts_before_ac * 20 * 60)

abbrev pub detail_of : List ProblemState → ProblemDetail
detail_of submissions = record {
  solved = (problem_tally submissions).is_solved;
  wrong_attempts_before_ac = (problem_tally submissions).wrong_attempts_before_ac;
  score_time = (problem_tally submissions).score_time;
  submissions = sort by_time submissions;
}

-- The variables of the outer loop.
pub record Totals : Type 0 where
  pub solved_count : ℕ
  pub total_penalty : ℤ
  pub details : Assoc ProblemDetail

abbrev pub empty_totals : Totals
empty_totals = record { solved_count = 0; total_penalty = pos 0; details = [] }

abbrev pub add_problem : String → List ProblemState → Totals → Totals
add_problem prob_id submissions s = record {
  solved_count =
      if (problem_tally submissions).is_solved then suc s.solved_count else s.solved_count;
  total_penalty =
      if (problem_tally submissions).is_solved
      then s.total_penalty +ℤ penalty_for_problem (problem_tally submissions)
      else s.total_penalty;
  details = assign prob_id (detail_of submissions) s.details;
}

unfoldable pub totals : Assoc (List ProblemState) → Totals → Totals
totals [] s = s
totals ((prob_id, submissions) ∷ rest) s = totals rest (add_problem prob_id submissions s)

unfoldable pub compute_user_scores : UserContestMetadata → UserScore
compute_user_scores metadata =
    let s = totals metadata.problems empty_totals in
    record {
      score = pos (s.solved_count * penalty_offset) -ℤ s.total_penalty;
      solved = s.solved_count;
      penalty = s.total_penalty;
      details = s.details;
    }
