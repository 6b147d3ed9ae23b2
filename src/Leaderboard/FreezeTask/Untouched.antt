-- ===== src/Leaderboard/FreezeTask/Untouched.antt =====
-- The check of tasks/freeze.task.ts leaves a contest alone that is not over, is frozen, or waits for
-- a verdict.
use judge_self.Common.{
  ℕ, suc, String, ◌≡◌, refl, ◌∙◌, ◌⊎◌, inl, inr, Bool, true, false, not, List, [], ◌∷◌, ◌++◌, ◌==◌,
  arith, map, keep, find_first, All, eq_iff, Bool-cases,
}
use judge_self.Common.Int.{ℤ}
use judge_self.Database.{Database, ContestRow, ResultRow, contest_by_id}
use judge_self.Redis.{Redis}
use judge_self.Leaderboard.Types.{UserContestMetadata}
use judge_self.Leaderboard.Freeze.{
  RatedRow, Standing, standings, result_rows, mark_frozen, frozen_database, rated_rows,
}
use judge_self.Leaderboard.Freeze.Transaction.{Stage, World, execute_contest_hard_freeze}
use judge_self.Leaderboard.Freeze.Atomicity.{Visible, execute_contest_hard_freeze-Visible}
use judge_self.Leaderboard.FreezeTask.{
  has_pending_submissions, is_finished, proceed_with, freeze_if_settled, freeze_finished,
  check_for_finished_contests,
}

abbrev pub results_of : String → Database → List ResultRow
results_of c db = keep (λ r. r.contest_id == c) db.contest_results

-- The contest has the row and the results that it had, and the submissions are unchanged.
pub record IsUntouched (c : String) (old new : Database) : Type 0 where
  pub contest : contest_by_id new c ≡ contest_by_id old c
  pub results : results_of c new ≡ results_of c old
  pub submissions : new.submissions ≡ old.submissions
  pub problems : new.problems ≡ old.problems

IsUntouched-refl : (c : String) (db : Database) → IsUntouched c db db
IsUntouched-refl c db = record {
  contest = refl;
  results = refl;
  submissions = refl;
  problems = refl;
}

IsUntouched-trans :
    (c : String) (a b d : Database) → IsUntouched c a b → IsUntouched c b d → IsUntouched c a d
IsUntouched-trans c a b d h k = record {
  contest = k.contest ∙ h.contest;
  results = k.results ∙ h.results;
  submissions = k.submissions ∙ h.submissions;
  problems = k.problems ∙ h.problems;
}

module _ (c d : String) (other : (d == c) ≡ false) where
  find-mark_frozen :
      (cs : List ContestRow)
      → find_first (λ r. r.id == c) (map (mark_frozen d) cs) ≡ find_first (λ r. r.id == c) cs
  find-mark_frozen [] = refl
  find-mark_frozen (r ∷ cs) =
      ground (arith, eq_iff r.id d, eq_iff r.id c, eq_iff d c, find-mark_frozen cs)

  keep-result_rows :
      (i : ℕ) (es : List Standing) → keep (λ r. r.contest_id == c) (result_rows d i es) ≡ []
  unfolding result_rows
  keep-result_rows i [] = refl
  keep-result_rows i (e ∷ es) = rw other (keep-result_rows (suc i) es)

  keep-replaced :
      (olds news : List ResultRow)
      → keep (λ r. r.contest_id == c) news ≡ []
      → keep (λ r. r.contest_id == c) (keep (λ r. not (r.contest_id == d)) olds ++ news)
        ≡ keep (λ r. r.contest_id == c) olds
  keep-replaced [] news h = h
  keep-replaced (r ∷ olds) news h =
      ground
        (arith, eq_iff r.contest_id d, eq_iff r.contest_id c, eq_iff d c, keep-replaced olds news h)

  frozen_database-IsUntouched :
      (rows : List RatedRow) (db : Database) → IsUntouched c db (frozen_database d rows db)
  unfolding frozen_database
  frozen_database-IsUntouched rows db = record {
    contest = find-mark_frozen db.contests;
    results =
        keep-replaced db.contest_results (result_rows d 0 (standings rows))
          (keep-result_rows 0 (standings rows));
    submissions = refl;
    problems = refl;
  }

module _ {S : Type 0} (redis : Redis UserContestMetadata S) (seconds_between : ℤ → ℤ → ℤ)
    (fails : String → Stage → Bool) (c : String) where
  Visible-IsUntouched :
      (d : String) (w : World S) (r : Bool × World S)
      → (d == c) ≡ false
      → Visible redis seconds_between (fails d) d w r
      → IsUntouched c w.committed r.1.committed
  Visible-IsUntouched d w (true, w') ne h =
      rw h.0
        (frozen_database-IsUntouched c d ne (rated_rows seconds_between w.committed d) w.committed)
  Visible-IsUntouched d w (false, w') ne (s, inl e) = rw e (IsUntouched-refl c w.committed)
  Visible-IsUntouched d w (false, w') ne (s, inr (f, e)) =
      rw e
        (frozen_database-IsUntouched c d ne (rated_rows seconds_between w.committed d) w.committed)

  -- The contest is another one, or it waits for a verdict.
  abbrev MaySkip : Database → ContestRow → Type 0
  MaySkip db r = ((r.id == c) ≡ false) ⊎ (has_pending_submissions db r.id ≡ true)

  freeze_if_settled-IsUntouched :
      (r : ContestRow) (w : World S)
      → MaySkip w.committed r
      → IsUntouched c w.committed (freeze_if_settled redis seconds_between fails r w).1.committed
  unfolding freeze_if_settled
  freeze_if_settled-IsUntouched r w h =
      elim (Bool-cases (has_pending_submissions w.committed r.id)) [
        | inl p ↦ rw p (IsUntouched-refl c w.committed)
        | inr p ↦
            let ne : (r.id == c) ≡ false = ground arith in
            rw p (
              Visible-IsUntouched r.id w
                (execute_contest_hard_freeze redis seconds_between (fails r.id) r.id w) ne
                (execute_contest_hard_freeze-Visible redis seconds_between (fails r.id) r.id w))
      ]

  has_pending-same :
      (old new : Database) (d : String)
      → IsUntouched c old new
      → has_pending_submissions new d ≡ has_pending_submissions old d
  unfolding has_pending_submissions
  has_pending-same old new d h = rw (h.submissions, h.problems)

  MaySkip-later :
      (old new : Database) (rs : List ContestRow)
      → IsUntouched c old new
      → All (MaySkip old) rs
      → All (MaySkip new) rs
  MaySkip-later old new [] u h = tt
  MaySkip-later old new (r ∷ rs) u (p, h) =
      (rw (has_pending-same old new r.id u) p, MaySkip-later old new rs u h)

  freeze_finished-IsUntouched :
      (rs : List ContestRow) (w : World S)
      → All (MaySkip w.committed) rs
      → IsUntouched c w.committed (freeze_finished redis seconds_between fails rs w).1.committed
  unfolding freeze_finished
  freeze_finished-IsUntouched [] w h = IsUntouched-refl c w.committed
  freeze_finished-IsUntouched (r ∷ rs) w (p, h) =
      let first = freeze_if_settled redis seconds_between fails r w in
      let u = freeze_if_settled-IsUntouched r w p in
      go first u (
        freeze_finished-IsUntouched rs first.1 (MaySkip-later w.committed first.1.committed rs u h))
    where
      go :
          (x : Bool × World S)
          → IsUntouched c w.committed x.1.committed
          → IsUntouched c x.1.committed
              (freeze_finished redis seconds_between fails rs x.1).1.committed
          → IsUntouched c w.committed
              (proceed_with redis seconds_between fails x
                (freeze_finished redis seconds_between fails rs)).1.committed
      go (true, v) a b = IsUntouched-trans c w.committed v.committed _ a b
      go (false, v) a b = a

  -- Why the check must leave the contest alone.
  abbrev pub IsExempt : ℤ → Database → ContestRow → Type 0
  IsExempt now db r =
      ((r.id == c) ≡ false) ⊎ (is_finished now r ≡ false) ⊎ (has_pending_submissions db r.id ≡ true)

  finished-MaySkip :
      (now : ℤ) (db : Database) (rs : List ContestRow)
      → All (IsExempt now db) rs
      → All (MaySkip db) (keep (is_finished now) rs)
  finished-MaySkip now db [] h = tt
  finished-MaySkip now db (r ∷ rs) (p, h) = elim (Bool-cases (is_finished now r)) [
    | inl e ↦ rw e (ground arith, finished-MaySkip now db rs h)
    | inr e ↦ rw e (finished-MaySkip now db rs h)
  ]

  -- The check keeps the row and the stored results of a contest that is not over, is frozen already, or
  -- has a submission without a verdict, whichever calls fail; and it never changes a submission.
  pub check_for_finished_contests-IsUntouched :
      (now : ℤ) (w : World S)
      → All (IsExempt now w.committed) w.committed.contests
      → IsUntouched c w.committed
          (check_for_finished_contests redis seconds_between fails now w).1.committed
  unfolding check_for_finished_contests
  check_for_finished_contests-IsUntouched now w h =
      freeze_finished-IsUntouched (keep (is_finished now) w.committed.contests) w
        (finished-MaySkip now w.committed w.committed.contests h)
