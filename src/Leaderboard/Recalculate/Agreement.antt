-- ===== src/Leaderboard/Recalculate/Agreement.antt =====
-- The live score that `recalculateLiveUserScore` (services/leaderboard.service.ts) restores is the
-- score that `executeContestHardFreeze` (services/freeze.service.ts) would store.
use judge_self.Common.{
  ◌+◌, ◌≤◌, String, ◌≡◌, ◌≢◌, refl, ap, ◌∙◌, Bool, false, ◌&&◌, Option, none, some, List, [], ◌∷◌,
  ◌++◌, ◌==◌, arith, keep, map, count_if, count_if-append, any-of_count_if, keep-map, keep-keep,
  count_if-keep, count_if-map, eq_refl,
}
use judge_self.Common.Int.{ℤ, -ℤ_parts}
use judge_self.Common.Assoc.{lookup}
use judge_self.Common.Sort.{sort}
use judge_self.Common.Sort.Laws.{IsOrder, count_if-sort}
use judge_self.Common.Sort.Filter.{keep-sort}
use judge_self.Database.{Database, SubmissionRow, ContestRow, contest_by_id}
use judge_self.Redis.{Redis}
use judge_self.Leaderboard.Types.{UserContestMetadata}
use judge_self.Leaderboard.Live.{append_submission, is_processed, process_live_verdict, process_all}
use judge_self.Leaderboard.Live.Keys.{get_contest_leaderboard_key, get_contest_metadata_key}
use judge_self.Leaderboard.Live.Effect.{
  apply_verdict, stored, score_in, metadata, process_live_verdict-stored_self, key_ne,
}
use judge_self.Leaderboard.Live.Consistency.{
  expected_score, IsConsistentAt, process_live_verdict-establishes, process_all-IsConsistentAt,
}
use judge_self.Leaderboard.Freeze.{
  RatedRow, select_rows, by_created_at, is_rated_in, rated_row, push_row, aggregate, rated_rows,
}
use judge_self.Leaderboard.Freeze.Aggregate.{push_rows, is_row_of, lookup-aggregate}
use judge_self.Leaderboard.Recalculate.{
  is_rated_of, message_of, user_rated_rows, recalculate_live_user_score,
}

by_created_at-IsOrder : IsOrder by_created_at
by_created_at-IsOrder = record {
  total =
      λ x y. omega (arith, -ℤ_parts x.created_at y.created_at, -ℤ_parts y.created_at x.created_at);
  trans = λ x y z p q. omega (
    arith,
    -ℤ_parts x.created_at y.created_at,
    -ℤ_parts y.created_at z.created_at,
    -ℤ_parts x.created_at z.created_at,
  );
}

-- The key of `submissions` is unique.
abbrev pub HasKeys : Database → Type 0
HasKeys db = (id : String) → count_if (λ s. s.id == id) db.submissions ≤ 1

abbrev AreFresh : List String → List RatedRow → Type 0
AreFresh seen rows =
    (id : String) → count_if (λ j. j == id) seen + count_if (λ r. r.id == id) rows ≤ 1

select_rows-AreFresh :
    (seconds_between : ℤ → ℤ → ℤ) (p : SubmissionRow → Bool) (subs : List SubmissionRow)
    (contest : Option ContestRow) (id : String)
    → count_if (λ r. r.id == id) (select_rows seconds_between p subs contest)
      ≤ count_if (λ s. s.id == id) subs
unfolding select_rows
select_rows-AreFresh sb p subs none id = omega arith
select_rows-AreFresh sb p subs (some contest) id =
    rw
      (
        count_if-map (λ r. r.id == id) (rated_row sb contest) (sort by_created_at (keep p subs)),
        count_if-sort by_created_at (λ s. s.id == id) (keep p subs),
      )
      (count_if-keep p (λ s. s.id == id) subs)

user_rated_rows-AreFresh :
    (seconds_between : ℤ → ℤ → ℤ) (db : Database) (c u : String)
    → HasKeys db
    → AreFresh [] (user_rated_rows seconds_between db c u)
unfolding user_rated_rows
user_rated_rows-AreFresh sb db c u h id = omega (
  arith,
  h id,
  select_rows-AreFresh sb (is_rated_of db c u) db.submissions (contest_by_id db c) id,
)

select_rows-keep :
    (seconds_between : ℤ → ℤ → ℤ) (p : SubmissionRow → Bool) (subs : List SubmissionRow)
    (contest : Option ContestRow) (u : String)
    → keep (is_row_of u) (select_rows seconds_between p subs contest)
      ≡ select_rows seconds_between (λ s. p s && s.user_id == u) subs contest
unfolding select_rows
select_rows-keep sb p subs none u = refl
select_rows-keep sb p subs (some contest) u =
    keep-map (is_row_of u) (rated_row sb contest) (sort by_created_at (keep p subs))
    ∙ ap (map (rated_row sb contest)) (
        keep-sort by_created_at by_created_at-IsOrder (λ s. s.user_id == u) (keep p subs)
        ∙ ap (sort by_created_at) (keep-keep p (λ s. s.user_id == u) subs))

-- The query for one user selects the rows of the other query that are the user's.
user_rated_rows-keep :
    (seconds_between : ℤ → ℤ → ℤ) (db : Database) (c u : String)
    → keep (is_row_of u) (rated_rows seconds_between db c) ≡ user_rated_rows seconds_between db c u
unfolding user_rated_rows rated_rows
user_rated_rows-keep sb db c u =
    select_rows-keep sb (is_rated_in db c) db.submissions (contest_by_id db c) u

apply_verdict-push_row :
    (m : UserContestMetadata) (c u : String) (row : RatedRow)
    → is_processed row.id m ≡ false
    → apply_verdict m (message_of c u row) ≡ push_row m row
unfolding apply_verdict append_submission push_row
apply_verdict-push_row m c u row h = rw h

processed-push_row :
    (m : UserContestMetadata) (row : RatedRow)
    → (push_row m row).processed_submissions ≡ m.processed_submissions ++ row.id ∷ []
unfolding push_row
processed-push_row m row = refl

module _ {S : Type 0} (redis : Redis UserContestMetadata S) (c u : String) where
  process_all-push_rows :
      (s : S) (rows : List RatedRow)
      → AreFresh (metadata redis s c u).processed_submissions rows
      → stored redis (process_all redis s (map (message_of c u) rows)) c u
        ≡ push_rows (stored redis s c u) rows
  unfolding process_all push_rows
  process_all-push_rows s [] fresh = refl
  process_all-push_rows s (row ∷ rows) fresh =
      let m = metadata redis s c u in
      let new : is_processed row.id m ≡ false =
        any-of_count_if (λ j. j == row.id) m.processed_submissions
          (ground (arith, fresh row.id, eq_refl row.id)) in
      let s' = process_live_verdict redis s (message_of c u row) in
      let now : stored redis s' c u ≡ some (push_row m row) =
        process_live_verdict-stored_self redis s (message_of c u row)
        ∙ ap some (apply_verdict-push_row m c u row new) in
      process_all-push_rows s' rows (λ id.
        rw
          (
            now,
            processed-push_row m row,
            count_if-append (λ j. j == id) m.processed_submissions (row.id ∷ []),
          )
          (ground (arith, fresh id)))
      ∙ (rw now)

  recalculate_start : S → S
  recalculate_start s = redis.hdel s (get_contest_metadata_key c) u

  stored-recalculate_start : (s : S) → stored redis (recalculate_start s) c u ≡ none
  unfolding recalculate_start
  stored-recalculate_start s = rw redis.hget-hdel (simp eq_refl)

  score_in-recalculate_start :
      (s : S) → score_in redis (recalculate_start s) c u ≡ score_in redis s c u
  unfolding recalculate_start
  score_in-recalculate_start s =
      redis.zscore-hdel s (get_contest_metadata_key c) u (get_contest_leaderboard_key c) u
        (key_ne c c)

module _ {S : Type 0} (redis : Redis UserContestMetadata S) (seconds_between : ℤ → ℤ → ℤ)
    (db : Database) (s : S) (c u : String) (keys : HasKeys db) where
  -- The metadata that a freeze at this point would compute for the user.
  abbrev pub frozen_entry : Option UserContestMetadata
  frozen_entry = lookup u (aggregate (rated_rows seconds_between db c) [])

  frozen_entry-push_rows : frozen_entry ≡ push_rows none (user_rated_rows seconds_between db c u)
  unfolding lookup
  frozen_entry-push_rows =
      lookup-aggregate u (rated_rows seconds_between db c) []
      ∙ ap (push_rows none) (user_rated_rows-keep seconds_between db c u)

  -- If no two submissions have the same identifier, recalculating leaves the user the metadata that a
  -- freeze would compute, whatever was stored before.
  recalculate-stored :
      stored redis (recalculate_live_user_score redis seconds_between db s c u) c u ≡ frozen_entry
  unfolding recalculate_live_user_score recalculate_start
  recalculate-stored =
      let start = recalculate_start redis c u s in
      let gone = stored-recalculate_start redis c u s in
      process_all-push_rows redis c u start (user_rated_rows seconds_between db c u)
        (λ id. rw gone (user_rated_rows-AreFresh seconds_between db c u keys id))
      ∙ (rw (gone, frozen_entry-push_rows))

  after_rows :
      (rows : List RatedRow)
      → rows ≢ []
      → IsConsistentAt redis
          (process_all redis (recalculate_start redis c u s) (map (message_of c u) rows))
          c
          u
  unfolding process_all
  after_rows [] h = absurd (h refl)
  after_rows (row ∷ rows) h =
      let start = recalculate_start redis c u s in
      process_all-IsConsistentAt redis (process_live_verdict redis start (message_of c u row))
        (map (message_of c u) rows) c u
        (process_live_verdict-establishes redis start (message_of c u row))

  -- If no two submissions have the same identifier, a user with a rated submission to the contest has
  -- the score afterwards that a freeze at this point would store.
  pub recalculate-score :
      user_rated_rows seconds_between db c u ≢ []
      → score_in redis (recalculate_live_user_score redis seconds_between db s c u) c u
        ≡ expected_score frozen_entry
  unfolding recalculate_live_user_score recalculate_start
  recalculate-score h =
      after_rows (user_rated_rows seconds_between db c u) h ∙ ap expected_score recalculate-stored

module _ {S : Type 0} (redis : Redis UserContestMetadata S) (seconds_between : ℤ → ℤ → ℤ)
    (db : Database) (s : S) (c u : String) where
  -- A user with no rated submission keeps the old score, though the metadata is gone.
  pub recalculate_stale :
      user_rated_rows seconds_between db c u ≡ []
      → (score_in redis (recalculate_live_user_score redis seconds_between db s c u) c u
          ≡ score_in redis s c u)
        × (stored redis (recalculate_live_user_score redis seconds_between db s c u) c u ≡ none)
  unfolding recalculate_live_user_score process_all recalculate_start
  recalculate_stale h =
      (rw h (score_in-recalculate_start redis c u s), rw h (stored-recalculate_start redis c u s))
