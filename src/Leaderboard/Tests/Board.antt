-- ===== src/Leaderboard/Tests/Board.antt =====
-- Runs of the reads of the board.
use judge_self.Common.{
  Bool-cases, inl, inr, sym, ap, String, List, get_elem?, some, eqb, ◌≡◌, refl, some, [], ◌∷◌, ◌==◌,
  map, arith, if◌then◌else◌,
}
use judge_self.Common.Int.{pos, ◌-ℤ◌, ◌+ℤ◌}
use judge_self.Common.Sort.{sort}
use judge_self.Common.Assoc.{lookup}
use judge_self.Common.Paging.{page}
use judge_self.Redis.Memory.{Memory, entries, without}
use judge_self.Leaderboard.Types.{UserContestMetadata}
use judge_self.Leaderboard.Freeze.{frozen_database, result_rows, standings}
use judge_self.Leaderboard.Live.{process_all}
use judge_self.Common.Assoc.{Assoc}
use judge_self.Leaderboard.Scoring.{
  compute_user_scores, totals, problem_tally, tally, is_accepted, is_wrong, by_time,
}
use judge_self.Leaderboard.Live.Effect.{score_of}
use judge_self.Leaderboard.Live.Keys.{get_contest_leaderboard_key}
use judge_self.Leaderboard.Live.Consistency.{IsConsistentAt, process_all-IsConsistentAt}
use judge_self.Leaderboard.Board.{
  get_leaderboard_page_from_redis, get_leaderboard_page_from_db, get_user_leaderboard_row,
  user_row_from_db, selected, LeaderboardRow, fetched,
}
use judge_self.Leaderboard.Board.LivePage.{Shows, get_leaderboard_page_from_redis-Shows}
use judge_self.Leaderboard.Board.FrozenPage.{get_leaderboard_page_from_db-frozen}
use judge_self.Leaderboard.Board.UserRow.{get_user_leaderboard_row-page}
use judge_self.Leaderboard.Tests.Data.{
  store_of_metadata, empty_store, deliveries, database, rows, ann, bob,
}

abbrev running : Memory UserContestMetadata
running = process_all store_of_metadata empty_store deliveries

running-IsConsistentAt : (u : String) → IsConsistentAt store_of_metadata running "c1" u
unfolding lookup
running-IsConsistentAt u =
    process_all-IsConsistentAt store_of_metadata empty_store deliveries "c1" u refl

get_leaderboard_page_from_redis-Shows_example :
    Shows 1
      (page 50 0 (store_of_metadata.ranking running (get_contest_leaderboard_key "c1")))
      (get_leaderboard_page_from_redis store_of_metadata running "c1" (pos 1) 50)
get_leaderboard_page_from_redis-Shows_example =
    get_leaderboard_page_from_redis-Shows store_of_metadata running "c1" running-IsConsistentAt 0 50
      (omega arith)

get_leaderboard_page_from_db-frozen_example :
    get_leaderboard_page_from_db (frozen_database "c1" rows database) "c1" (pos 2) 1
    ≡ map selected (page 1 1 (result_rows "c1" 0 (standings rows)))
get_leaderboard_page_from_db-frozen_example =
    get_leaderboard_page_from_db-frozen "c1" rows database 1 1

-- Two users, with the scores that their metadata gives.
abbrev metadata : Assoc UserContestMetadata
metadata = ("ann", ann) ∷ ("bob", bob) ∷ []

abbrev ranked : Memory UserContestMetadata
ranked = record {
  hashes = λ k f. lookup f metadata;
  sets = λ k. ("ann", pos 9998680) ∷ ("bob", pos 9999700) ∷ [];
}

score_of-ann : score_of ann ≡ pos 9998680
unfolding compute_user_scores totals problem_tally tally sort is_accepted is_wrong by_time ◌-ℤ◌ ◌+ℤ◌
score_of-ann = refl

score_of-bob : score_of bob ≡ pos 9999700
unfolding compute_user_scores totals problem_tally tally sort is_accepted ◌-ℤ◌ ◌+ℤ◌
score_of-bob = refl

ranked-IsConsistentAt : (u : String) → IsConsistentAt store_of_metadata ranked "c1" u
unfolding lookup
ranked-IsConsistentAt u = elim (Bool-cases ("ann" == u)) [
  | inl e ↦ rw e (ap some (sym score_of-ann))
  | inr e ↦ elim (Bool-cases ("bob" == u)) [
    | inl g ↦ rw (e, g) (ap some (sym score_of-bob))
    | inr g ↦ rw (e, g) refl
  ]
]

-- The second user of the ranking, on a page of one row.
get_user_leaderboard_row-page_example :
    (rows : List LeaderboardRow) × (row : LeaderboardRow) × (get_leaderboard_page_from_redis
        store_of_metadata ranked "c1"
        (pos 2)
        1
      ≡ fetched (some rows))
    × (get_elem? rows 0 ≡ some row)
    × (row.user_id ≡ "ann")
    × (get_user_leaderboard_row store_of_metadata database ranked "c1" "ann"
        ≡ (if eqb 1 0 then user_row_from_db database "c1" "ann" else some row))
unfolding sort entries without ◌-ℤ◌
get_user_leaderboard_row-page_example =
    get_user_leaderboard_row-page store_of_metadata ranked "c1" ranked-IsConsistentAt database "ann"
      1 1 0 1 refl (omega arith) (omega arith)
