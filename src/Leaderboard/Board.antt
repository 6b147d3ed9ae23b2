-- ===== src/Leaderboard/Board.antt =====
-- The reads of leaderboard-service/src/services/leaderboard.service.ts: a user's row and a page of
-- the board, from Redis while a contest runs and from the database after it.
pub mod LivePage
pub mod FrozenPage
pub mod UserRow
use judge_self.Common.{
  ℕ, suc, ◌+◌, ◌*◌, ◌-◌, String, Bool, true, false, ◌&&◌, Option, none, some, List, [], ◌∷◌, ◌==◌,
  eqb, leb, ltb, find_first, keep, length, map, take, count_if, if◌then◌else◌,
}
use judge_self.Common.Int.{ℤ, pos, negsuc, ◌+ℤ◌, ◌-ℤ◌, ltb_ℤ}
use judge_self.Common.Paging.{ceil_div}
use judge_self.Common.Assoc.{Assoc}
use judge_self.Common.Sort.{sort}
use judge_self.Database.{Database, ResultRow, contest_by_id}
use judge_self.Redis.{Redis}
use judge_self.Leaderboard.Types.{UserContestMetadata, ProblemDetail}
use judge_self.Leaderboard.Scoring.{compute_user_scores}
use judge_self.Leaderboard.Live.Keys.{get_contest_leaderboard_key, get_contest_metadata_key}

-- `LeaderboardRow`; `score` is `none` where the source leaves it undefined.
pub record LeaderboardRow : Type 0 where
  pub rank : ℤ
  pub user_id : String
  pub score : Option ℤ
  pub problems_solved : ℕ
  pub penalty : ℤ
  pub problem_details : Assoc ProblemDetail

-- A row as the database returns it: the selected columns, without a score.
pub record SelectedRow : Type 0 where
  pub rank : ℕ
  pub user_id : String
  pub problems_solved : ℕ
  pub penalty : ℤ
  pub problem_details : Assoc ProblemDetail

-- The database's rows are passed on as they are.
pub data Rows : Type 0 where
  live : List LeaderboardRow → Rows
  frozen : List SelectedRow → Rows

pub record Leaderboard : Type 0 where
  pub leaderboard : Rows
  pub current_page : ℤ
  pub total_pages : ℕ
  pub total_participants : ℕ

-- A value, or an exception.
pub data Fetched (A : Type 0) : Type 0 where
  fetched : A → Fetched A
  thrown : Fetched A

pub data Answer : Type 0 where
  found : Leaderboard → Answer
  error : String → Answer

abbrev pub selected : ResultRow → SelectedRow
selected r = record {
  rank = r.rank;
  user_id = r.user_id;
  problems_solved = r.problems_solved;
  penalty = r.penalty;
  problem_details = r.problem_details;
}

abbrev pub row_of : ℤ → String → UserContestMetadata → LeaderboardRow
row_of rank user_id meta = record {
  rank = rank;
  user_id = user_id;
  score = some (compute_user_scores meta).score;
  problems_solved = (compute_user_scores meta).solved;
  penalty = (compute_user_scores meta).penalty;
  problem_details = (compute_user_scores meta).details;
}

abbrev pub is_result_of : String → ResultRow → Bool
is_result_of contest_id r = r.contest_id == contest_id

-- The query for one user and the row that is built from its result.
abbrev pub row_from_result : Option ResultRow → Option LeaderboardRow
row_from_result none = none
row_from_result (some r) = some (record {
  rank = pos r.rank;
  user_id = r.user_id;
  score = none;
  problems_solved = r.problems_solved;
  penalty = r.penalty;
  problem_details = r.problem_details;
})

unfoldable pub user_row_from_db : Database → String → String → Option LeaderboardRow
user_row_from_db db contest_id user_id =
    row_from_result
      (find_first (λ r. is_result_of contest_id r && r.user_id == user_id) db.contest_results)

abbrev pub by_rank : ResultRow → ResultRow → ℤ
by_rank a b = pos a.rank -ℤ pos b.rank

-- `(page - 1) * pageSize`
abbrev pub start_index : ℤ → ℕ → ℤ
start_index (pos n) size = pos (n * size) -ℤ pos size
start_index (negsuc n) size = pos 0 -ℤ pos ((n + 2) * size)

-- WHERE contest_id = $1 AND rank > $2 ORDER BY rank ASC LIMIT $3
unfoldable pub get_leaderboard_page_from_db : Database → String → ℤ → ℕ → List SelectedRow
get_leaderboard_page_from_db db contest_id page page_size = map selected (
    take page_size (
      sort by_rank (
        keep (λ r. is_result_of contest_id r && ltb_ℤ (start_index page page_size) (pos r.rank))
          db.contest_results)))

-- A rank of 0 is as false as a missing one.
abbrev pub rank_is_truthy : Option ℕ → Bool
rank_is_truthy none = false
rank_is_truthy (some n) = if eqb n 0 then false else true

abbrev pub live_row :
    Option ℕ → String → Option UserContestMetadata → Option LeaderboardRow → Option LeaderboardRow
live_row (some rank) user_id (some meta) fallback =
    if rank_is_truthy (some rank) then some (row_of (pos (rank + 1)) user_id meta) else fallback
live_row _ _ _ fallback = fallback

abbrev pub add_row : LeaderboardRow → Fetched (List LeaderboardRow) → Fetched (List LeaderboardRow)
add_row row (fetched rows) = fetched (row ∷ rows)
add_row row thrown = thrown

-- For a missing entry '{}' is parsed, which has no `problems` to list.
abbrev pub row_or_throw :
    ℤ
    → String
    → Option UserContestMetadata
    → Fetched (List LeaderboardRow)
    → Fetched (List LeaderboardRow)
row_or_throw rank user_id none later = thrown
row_or_throw rank user_id (some meta) later = add_row (row_of rank user_id meta) later

abbrev pub rows_or_null :
    List (String × ℤ) → Fetched (List LeaderboardRow) → Fetched (Option (List LeaderboardRow))
rows_or_null [] rows = fetched none
rows_or_null (e ∷ es) (fetched rows) = fetched (some rows)
rows_or_null (e ∷ es) thrown = thrown

abbrev pub answer :
    Fetched (Option (List LeaderboardRow)) → (Rows → Leaderboard) → Fetched Answer → Fetched Answer
answer thrown response from_db = thrown
answer (fetched (some rows)) response from_db = fetched (found (response (live rows)))
answer (fetched none) response from_db = from_db

module _ {S : Type 0} (redis : Redis UserContestMetadata S) where
  unfoldable pub get_user_leaderboard_row : Database → S → String → String → Option LeaderboardRow
  get_user_leaderboard_row db s contest_id user_id =
      live_row (redis.zrev_rank s (get_contest_leaderboard_key contest_id) user_id) user_id
        (redis.hget s (get_contest_metadata_key contest_id) user_id)
        (user_row_from_db db contest_id user_id)

  -- The `map` over the range.
  unfoldable pub live_rows : S → String → ℤ → List (String × ℤ) → Fetched (List LeaderboardRow)
  live_rows s contest_id rank [] = fetched []
  live_rows s contest_id rank ((user_id, score) ∷ rest) =
      let later = live_rows s contest_id (rank +ℤ pos 1) rest in
      row_or_throw rank user_id (redis.hget s (get_contest_metadata_key contest_id) user_id) later

  unfoldable pub get_leaderboard_page_from_redis :
      S → String → ℤ → ℕ → Fetched (Option (List LeaderboardRow))
  unfolding live_rows
  get_leaderboard_page_from_redis s contest_id page page_size =
      let start_idx = start_index page page_size in
      let users =
        redis.zrange_rev s (get_contest_leaderboard_key contest_id) start_idx
          (start_idx +ℤ pos page_size -ℤ pos 1) in
      rows_or_null users (live_rows s contest_id (start_idx +ℤ pos 1) users)

  unfoldable pub get_total_leaderboard_entries : Database → S → String → ℕ
  get_total_leaderboard_entries db s contest_id =
      let total = redis.zcard s (get_contest_leaderboard_key contest_id) in
      if eqb total 0 then count_if (is_result_of contest_id) db.contest_results else total

  unfoldable pub get_leaderboard_page : Database → S → String → ℤ → ℕ → Fetched Answer
  get_leaderboard_page db s contest_id page page_size =
      let total = get_total_leaderboard_entries db s contest_id in
      let response : Rows → Leaderboard = λ rows. record {
        leaderboard = rows;
        current_page = page;
        total_pages = ceil_div total page_size;
        total_participants = total;
      } in
      answer (get_leaderboard_page_from_redis s contest_id page page_size) response
        (elim (contest_by_id db contest_id) [
          | none ↦ fetched (error "Invalid Contest ID")
          | some contest ↦ fetched (
              found (response (frozen (get_leaderboard_page_from_db db contest_id page page_size))))
        ])
