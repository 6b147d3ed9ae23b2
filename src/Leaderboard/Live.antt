-- ===== src/Leaderboard/Live.antt =====
-- leaderboard-service/src/services/redis.service.ts and config/_lua.ts: a verdict from the queue is
-- put into the user's metadata, and the user's score into the sorted set of the contest. The Lua
-- script runs atomically in Redis, so it is one step here. Its result is the JSON text of the
-- metadata, which stands for the metadata.
pub mod Keys
pub mod Effect
pub mod Deliveries
pub mod Consistency
use judge_self.Common.{
  String, Bool, Option, none, some, List, [], ◌∷◌, ◌++◌, ◌==◌, any, if◌then◌else◌,
}
use judge_self.Common.Assoc.{Assoc, lookup, assign}
use judge_self.Redis.{Redis}
use judge_self.Leaderboard.Live.Keys.{get_contest_leaderboard_key, get_contest_metadata_key}
use judge_self.Leaderboard.Types.{ProblemState, UserContestMetadata, empty_metadata, QueueMessage}
use judge_self.Leaderboard.Scoring.{compute_user_scores}

abbrev pub stored_or_empty : Option UserContestMetadata → UserContestMetadata
stored_or_empty none = empty_metadata
stored_or_empty (some m) = m

-- `userData.problems[probId]`, initialised where it is missing
abbrev pub or_empty : Option (List ProblemState) → List ProblemState
or_empty none = []
or_empty (some subs) = subs

abbrev pub track : String → Assoc (List ProblemState) → List ProblemState
track prob_id problems = or_empty (lookup prob_id problems)

-- The loop over `processedSubmissions`.
abbrev pub is_processed : String → UserContestMetadata → Bool
is_processed sub_id m = any (λ id. id == sub_id) m.processed_submissions

abbrev pub state_of : QueueMessage → ProblemState
state_of v = record {
  submission_id = v.submission_id;
  relative_submitted_at = v.relative_submitted_at;
  status = v.status;
}

-- The script from "Initialize problem track" to "Track processed submission ID".
unfoldable pub append_submission : UserContestMetadata → QueueMessage → UserContestMetadata
append_submission m v = record {
  problems = assign v.problem_id (track v.problem_id m.problems ++ state_of v ∷ []) m.problems;
  processed_submissions = m.processed_submissions ++ v.submission_id ∷ [];
}

module _ {S : Type 0} (redis : Redis UserContestMetadata S) where
  -- The script: the new store, and the metadata that it returns.
  unfoldable pub update_user_state : S → String → QueueMessage → S × UserContestMetadata
  update_user_state s metadata_key v =
      let user_data = stored_or_empty (redis.hget s metadata_key v.user_id) in
      if is_processed v.submission_id user_data then (s, user_data) else (
        redis.hset s metadata_key v.user_id (append_submission user_data v),
        append_submission user_data v,
      )

  -- `processLiveVerdict` up to the reply of the script, and from there on.
  abbrev pub run_script : S → QueueMessage → S × UserContestMetadata
  run_script s verdict = update_user_state s (get_contest_metadata_key verdict.contest_id) verdict

  abbrev pub write_score : S → QueueMessage → UserContestMetadata → S
  write_score s verdict metadata =
      redis.zadd s (get_contest_leaderboard_key verdict.contest_id)
        (compute_user_scores metadata).score verdict.user_id

  unfoldable pub process_live_verdict : S → QueueMessage → S
  unfolding update_user_state
  process_live_verdict s verdict =
      let (s', metadata) = run_script s verdict in write_score s' verdict metadata

  -- The queue's consumer, for the messages in the order in which they are delivered.
  unfoldable pub process_all : S → List QueueMessage → S
  process_all s [] = s
  process_all s (v ∷ vs) = process_all (process_live_verdict s v) vs
