-- ===== src/Leaderboard/Scoring/Ranking.antt =====
-- What the score of scoring.service.ts ranks users by, and what it does not depend on.
use mathlib.Core.List.{Perm}
use mathlib.Core.List.Perm
use native.Mathlib.Nat.{ℕ_set}
use native.Mathlib.Decide.{ℕ_discrete}
use judge_self.Common.{
  ℕ, ◌*◌, ◌<◌, ◌≡◌, refl, sym, ap, ◌∙◌, Bool, true, ◌||◌, List, [], ◌∷◌, arith, keep, ◌⊎◌, ◌↔◌,
}
use judge_self.Common.Int.{ℤ, pos, ◌+ℤ◌, ◌-ℤ◌, ◌<ℤ◌, ◌≤ℤ◌, +ℤ_comm, +ℤ_assoc, -ℤ_parts}
use judge_self.Common.Sort.{sort}
use judge_self.Common.Sort.Filter.{keep-sort}
use judge_self.Leaderboard.Types.{ProblemState, UserContestMetadata, UserScore, penalty_offset}
use judge_self.Leaderboard.Scoring.{
  Tally, by_time, is_accepted, is_wrong, tally, problem_tally, empty_tally, count_wrong,
  compute_user_scores,
}
use judge_self.Leaderboard.Scoring.Problem.{by_time-IsOrder}
use judge_self.Leaderboard.Scoring.Sums.{
  Entry, entry_penalty, add_penalty, add_solved, compute_user_scores-sums,
}

ℤ-set : IsSet ℤ
ℤ-set = hlevel ℕ_discrete

-- The order in which a rank compares two scores: more problems solved first, then less penalty.
abbrev pub IsOutranked : UserScore → UserScore → Type 0
IsOutranked a b = (a.solved < b.solved) ⊎ ((a.solved ≡ b.solved) × (b.penalty <ℤ a.penalty))

-- The penalty is nonnegative and below the offset.
abbrev pub IsInOffset : UserScore → Type 0
IsInOffset a = (pos 0 ≤ℤ a.penalty) × (a.penalty <ℤ pos penalty_offset)

score_lem :
    (m : UserContestMetadata)
    → (compute_user_scores m).score
      ≡ pos ((compute_user_scores m).solved * penalty_offset) -ℤ (compute_user_scores m).penalty
score_lem m = let (c, p, s) = compute_user_scores-sums m in s ∙ rw (c, p)

order_lem :
    (c d : ℕ) (p q : ℤ)
    → (pos 0 ≤ℤ p) × (p <ℤ pos penalty_offset)
    → (pos 0 ≤ℤ q) × (q <ℤ pos penalty_offset)
    → ((pos (c * penalty_offset) -ℤ p) <ℤ (pos (d * penalty_offset) -ℤ q))
      ↔ ((c < d) ⊎ ((c ≡ d) × (q <ℤ p)))
order_lem c d p q h k = (
  λ lt.
      ground (arith, -ℤ_parts (pos (c * penalty_offset)) p, -ℤ_parts (pos (d * penalty_offset)) q),
  λ o. ground (arith, -ℤ_parts (pos (c * penalty_offset)) p, -ℤ_parts (pos (d * penalty_offset)) q),
)

-- As long as the penalties of two users are nonnegative and below the offset, comparing their
-- scores is comparing the number of solved problems first and the penalties second.
pub score-lt_iff :
    (m n : UserContestMetadata)
    → IsInOffset (compute_user_scores m)
    → IsInOffset (compute_user_scores n)
    → ((compute_user_scores m).score <ℤ (compute_user_scores n).score)
      ↔ IsOutranked (compute_user_scores m) (compute_user_scores n)
score-lt_iff m n h k =
    rw (score_lem m, score_lem n)
      (order_lem (compute_user_scores m).solved (compute_user_scores n).solved
        (compute_user_scores m).penalty (compute_user_scores n).penalty h k)

add_solved_comm :
    (x y : Entry) (b : ℕ) → add_solved x (add_solved y b) ≡ add_solved y (add_solved x b)
add_solved_comm x y b = ground arith

add_penalty_comm :
    (x y : Entry) (b : ℤ) → add_penalty x (add_penalty y b) ≡ add_penalty y (add_penalty x b)
add_penalty_comm x y b =
    sym (+ℤ_assoc (entry_penalty x) (entry_penalty y) b)
    ∙ ap (λ c. c +ℤ b) (+ℤ_comm (entry_penalty x) (entry_penalty y))
    ∙ +ℤ_assoc (entry_penalty y) (entry_penalty x) b

-- The score, the number of solved problems and the penalty do not depend on the order in which a
-- user's problems are listed.
compute_user_scores-perm :
    (m n : UserContestMetadata)
    → Perm m.problems n.problems
    → ((compute_user_scores m).score ≡ (compute_user_scores n).score)
      × ((compute_user_scores m).solved ≡ (compute_user_scores n).solved)
      × ((compute_user_scores m).penalty ≡ (compute_user_scores n).penalty)
compute_user_scores-perm m n h =
    let (cm, pm, sm) = compute_user_scores-sums m in
    let (cn, pn, sn) = compute_user_scores-sums n in
    let c = Perm.foldr-eq ℕ_set add_solved add_solved_comm h 0 in
    let p = Perm.foldr-eq ℤ-set add_penalty add_penalty_comm h (pos 0) in
    (sm ∙ (rw (c, p) (sym sn)), cm ∙ c ∙ sym cn, pm ∙ p ∙ sym pn)

-- A submission that counts: accepted, or wrong. 'CE' is neither, nor is a status without verdict.
abbrev is_relevant : ProblemState → Bool
is_relevant sub = is_accepted sub || is_wrong sub

tally-relevant :
    (subs : List ProblemState) (t : Tally) → tally (keep is_relevant subs) t ≡ tally subs t
unfolding tally
tally-relevant [] t = refl
tally-relevant (x ∷ xs) t =
    ground (arith, tally-relevant xs t, tally-relevant xs (count_wrong true t))

-- What a problem counts for is unchanged when the submissions that are neither accepted nor wrong
-- are left out, such as those that did not compile.
problem_tally-relevant :
    (subs : List ProblemState) → problem_tally (keep is_relevant subs) ≡ problem_tally subs
unfolding problem_tally
problem_tally-relevant subs =
    ap (λ s. tally s empty_tally) (sym (keep-sort by_time by_time-IsOrder is_relevant subs))
    ∙ tally-relevant (sort by_time subs) empty_tally
