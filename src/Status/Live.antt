-- ===== src/Status/Live.antt =====
-- status-service/src/services/status.service.ts: the status messages of the execution engine, kept in
-- a Redis hash. addStatusFromRedis, which asks Redis with numbers, is not modelled.
pub mod Latest
use judge_self.Common.{
  String, Bool, true, false, Option, none, some, List, [], ◌∷◌, ◌==◌, keep, map, if◌then◌else◌,
}
use judge_self.Redis.{Redis}
use judge_self.Status.Repository.{Submission, given}

-- The fields of `StatusMessage` that are read.
pub record StatusMessage : Type 0 where
  pub submission_id : String
  pub running : Bool
  pub status : String

abbrev pub redis_key : String
redis_key = "active_submissions"

module _ {S : Type 0} (redis : Redis String S) where
  -- The callback of the subscription.
  unfoldable pub on_message : S → StatusMessage → S
  on_message s msg =
      if msg.running
      then redis.hset s redis_key msg.submission_id msg.status
      else redis.hdel s redis_key msg.submission_id

  unfoldable pub on_messages : S → List StatusMessage → S
  on_messages s [] = s
  on_messages s (msg ∷ rest) = on_messages (on_message s msg) rest
