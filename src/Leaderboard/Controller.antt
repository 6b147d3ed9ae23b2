-- ===== src/Leaderboard/Controller.antt =====
-- leaderboard-service/src/http/controller.ts: the handlers over the services. The freeze takes the calls that
-- fail as an argument; the commands of Redis and the queries of the reads do not fail, but for a
-- page that is no number, which Redis refuses.
pub mod Frozen
use judge_self.Common.{
  ℕ, String, Bool, true, false, Option, none, some, List, [], ◌∷◌, ◌==◌, if◌then◌else◌,
}
use judge_self.Common.Int.{ℤ}
use judge_self.Common.Number.{parse_int}
use judge_self.Database.{Database}
use judge_self.Redis.{Redis}
use judge_self.Leaderboard.Types.{UserContestMetadata}
use judge_self.Leaderboard.Board.{
  LeaderboardRow, Leaderboard, Fetched, fetched, thrown, Answer, found, error, get_leaderboard_page,
  get_user_leaderboard_row,
}
use judge_self.Leaderboard.Recalculate.{recalculate_live_user_score}
use judge_self.Leaderboard.Freeze.Transaction.{Stage, World, execute_contest_hard_freeze}

-- `string | string[] | undefined`
pub data Param : Type 0 where
  single : String → Param
  several : List String → Param
  undefined : Param

abbrev first_or_empty : List String → String
first_or_empty [] = ""
first_or_empty (s ∷ rest) = s

unfoldable pub first_value : Param → String
first_value (several ss) = first_or_empty ss
first_value (single s) = s
first_value undefined = ""

pub data Body : Type 0 where
  leaderboard : Leaderboard → Body
  result : LeaderboardRow → Body
  success : Body
  failure : String → Body

pub record Reply : Type 0 where
  pub status : ℕ
  pub body : Body

abbrev pub reply : ℕ → Body → Reply
reply status body = record { status = status; body = body }

-- `parseInt(value || '1')`
abbrev pub page_number : String → Option ℤ
page_number value = parse_int (if value == "" then "1" else value)

abbrev pub page_reply : Fetched Answer → Reply
page_reply (fetched (found page)) = reply 200 (leaderboard page)
page_reply (fetched (error text)) = reply 500 (failure text)
page_reply thrown = reply 500 (failure "Failed to build structural response profile")

abbrev pub row_reply : Option LeaderboardRow → Reply
row_reply none = reply 404 (failure "User not found in leaderboard")
row_reply (some row) = reply 200 (result row)

module _ {S : Type 0} (redis : Redis UserContestMetadata S) (seconds_between : ℤ → ℤ → ℤ)
    (fails : Stage → Bool) where
  abbrev page_or_throw : World S → String → Option ℤ → Fetched Answer
  page_or_throw w contest_id none = thrown
  page_or_throw w contest_id (some page) =
      get_leaderboard_page redis w.committed w.store contest_id page 50

  unfoldable pub get_leaderboard : World S → Param → Param → Reply
  unfolding first_value
  get_leaderboard w contest_id page =
      page_reply (page_or_throw w (first_value contest_id) (page_number (first_value page)))

  unfoldable pub get_user_leaderboard_info : World S → Param → Param → Reply
  unfolding first_value
  get_user_leaderboard_info w contest_id user_id =
      if first_value user_id == ""
      then reply 400 (failure "Missing explicit user reference payload")
      else row_reply (
          get_user_leaderboard_row redis w.committed w.store (first_value contest_id)
            (first_value user_id))

  unfoldable pub force_recalculate_user : World S → Param → Param → World S × Reply
  unfolding first_value
  force_recalculate_user w contest_id user_id = (
    record w {
      store =
          recalculate_live_user_score redis seconds_between w.committed w.store
            (first_value contest_id) (first_value user_id);
    },
    reply 200 success,
  )

  abbrev pub freeze_reply : Bool × World S → World S × Reply
  freeze_reply (true, w) = (w, reply 200 success)
  freeze_reply (false, w) = (w, reply 500 (failure "Failed to recalculate contest"))

  unfoldable pub force_recalculate_contest : World S → Param → World S × Reply
  unfolding first_value
  force_recalculate_contest w contest_id =
      freeze_reply
        (execute_contest_hard_freeze redis seconds_between fails (first_value contest_id) w)
