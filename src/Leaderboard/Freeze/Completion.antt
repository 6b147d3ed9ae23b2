-- ===== src/Leaderboard/Freeze/Completion.antt =====
-- services/freeze.service.ts returns whenever none of its calls fails: the loop over the standings
-- ends.
use judge_self.Common.{ℕ, suc, String, ◌≡◌, refl, Bool, true, false, List, [], ◌∷◌}
use judge_self.Common.Int.{ℤ}
use judge_self.Redis.{Redis}
use judge_self.Leaderboard.Types.{UserContestMetadata}
use judge_self.Leaderboard.Freeze.{RatedRow, Standing, standings, rated_rows}
use judge_self.Leaderboard.Freeze.Transaction.{
  Stage, World, Action, proceed, call, query, insert_all, write_results, freeze_body, catch,
  execute_contest_hard_freeze,
}

module _ {S : Type 0} (fails : Stage → Bool) (works : (stage : Stage) → fails stage ≡ false) where
  insert_all-returns :
      (contest_id : String) (i : ℕ) (es : List Standing) (w : World S)
      → (insert_all fails contest_id i es w).0 ≡ true
  unfolding insert_all query call
  insert_all-returns c i [] w = refl
  insert_all-returns c i (e ∷ es) w =
      rw (works (Stage.insert i)) (insert_all-returns c (suc i) es _)

  proceed-returns :
      (r : Bool × World S) (k : Action S)
      → r.0 ≡ true
      → ((w : World S) → (k w).0 ≡ true)
      → (proceed r k).0 ≡ true
  proceed-returns (true, w) k h all = all w
  proceed-returns (false, w) k h all = cc

  write_results-returns :
      (contest_id : String) (rows : List RatedRow) (w : World S)
      → (write_results fails contest_id rows w).0 ≡ true
  unfolding write_results query call
  write_results-returns c rows w = rw (works Stage.delete) (
      proceed-returns (insert_all fails c 0 (standings rows) _) _
        (insert_all-returns c 0 (standings rows) _) (λ v. rw (works Stage.update)))

  -- A freeze with no failing call returns.
  pub execute_contest_hard_freeze-returns :
      (redis : Redis UserContestMetadata S) (seconds_between : ℤ → ℤ → ℤ) (contest_id : String)
      (w : World S)
      → (execute_contest_hard_freeze redis seconds_between fails contest_id w).0 ≡ true
  unfolding execute_contest_hard_freeze freeze_body call
  execute_contest_hard_freeze-returns redis seconds_between c w = rw (works Stage.connect) (
      go (freeze_body redis seconds_between fails c w) (
        rw (works Stage.begin, works Stage.select)
          (proceed-returns
            (write_results fails c (rated_rows seconds_between w.committed c)
              (record w { working = w.committed }))
            _
            (write_results-returns c (rated_rows seconds_between w.committed c)
              (record w { working = w.committed }))
            (λ v. rw (works Stage.commit, works Stage.unlink)))))
    where
      go : (r : Bool × World S) → r.0 ≡ true → (catch redis seconds_between fails r).0 ≡ true
      go (true, v) h = refl
      go (false, v) h = h
