-- ===== src/Leaderboard/Consumer/Messages.antt =====
-- The messages that execution-engine/engine/rabbitmqPublisher.go writes are those that
-- tasks/rabbitmq.task.ts reads.
use judge_self.Common.{◌≡◌, refl, some, [], ◌∷◌}
use judge_self.Common.Assoc.{Assoc, lookup}
use judge_self.Leaderboard.Types.{QueueMessage}
use judge_self.Leaderboard.Consumer.{Json, text, number, revive, to_message}

-- `json.Marshal` of the publisher's `QueueMessage`, with its properties in the order of the fields.
unfoldable pub to_json : QueueMessage → Assoc Json
to_json m =
    ("submission_id", text m.submission_id)
    ∷ ("status", text m.status)
    ∷ ("user_id", text m.user_id)
    ∷ ("contest_id", text m.contest_id)
    ∷ ("problem_id", text m.problem_id)
    ∷ ("relative_submission_time", number m.relative_submitted_at)
    ∷ []

-- What the publisher writes for a message, revived property by property, is that message again.
pub to_message-revive : (m : QueueMessage) → to_message (revive (to_json m)) ≡ some m
unfolding to_json to_message revive lookup
to_message-revive m = refl
