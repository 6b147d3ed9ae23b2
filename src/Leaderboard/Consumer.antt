-- ===== src/Leaderboard/Consumer.antt =====
-- leaderboard-service/src/tasks/rabbitmq.task.ts: the messages as JSON, and the queue's consumer with
-- what may go wrong while it runs.
pub mod Messages
pub mod Replies
pub mod Agreement
pub mod Delivery
use judge_self.Common.{
  String, ◌≡◌, Bool, true, false, Option, none, some, List, [], ◌∷◌, ◌++◌, ◌==◌, map, if◌then◌else◌,
}
use judge_self.Common.Int.{ℤ}
use judge_self.Common.Assoc.{Assoc, lookup, assign, erase}
use judge_self.Redis.{Redis}
use judge_self.Leaderboard.Types.{UserContestMetadata, QueueMessage}
use judge_self.Leaderboard.Live.{run_script, write_score}

-- The values of a message's properties.
pub data Json : Type 0 where
  text : String → Json
  number : ℤ → Json

abbrev pub key_map : Assoc String
key_map =
    ("submission_id", "submissionId")
    ∷ ("contest_id", "contestId")
    ∷ ("user_id", "userId")
    ∷ ("problem_id", "problemId")
    ∷ ("status", "status")
    ∷ ("relative_submission_time", "relativeSubmittedAt")
    ∷ []

-- The holder after `JSON.parse` has called the reviver for one of its keys and stored what it returned:
-- a key for which it returns `undefined` is deleted.
abbrev pub rename : String → Option Json → Assoc Json → Option String → Assoc Json
rename key value holder none = holder
rename key none holder (some new) = holder
rename key (some value) holder (some new) =
    if new == key then holder else erase key (assign new value holder)

unfoldable pub reviver : Assoc Json → String → Assoc Json
unfolding lookup assign erase
reviver holder key = rename key (lookup key holder) holder (lookup key key_map)

-- The reviver is called for the keys that the object has at first.
unfoldable pub revive_keys : List String → Assoc Json → Assoc Json
unfolding reviver
revive_keys [] holder = holder
revive_keys (key ∷ keys) holder = revive_keys keys (reviver holder key)

unfoldable pub revive : Assoc Json → Assoc Json
unfolding revive_keys
revive holder = revive_keys (map (λ e. e.0) holder) holder

abbrev pub text_at : String → Assoc Json → (String → Option QueueMessage) → Option QueueMessage
text_at key o k = elim (lookup key o) [ some (text t) ↦ k t | _ ↦ none ]

-- The revived object as the `QueueMessage` that the source takes it for, if it is one.
unfoldable pub to_message : Assoc Json → Option QueueMessage
to_message o = text_at "submissionId" o (λ submission_id. text_at "contestId" o (λ contest_id.
    text_at "userId" o (λ user_id. text_at "problemId" o (λ problem_id.
      text_at "status" o (λ status. elim (lookup "relativeSubmittedAt" o) [
        | some (number n) ↦ some (record {
          submission_id = submission_id;
          contest_id = contest_id;
          user_id = user_id;
          problem_id = problem_id;
          status = status;
          relative_submitted_at = n;
        })
        | _ ↦ none
      ])))))

-- The messages that are not acknowledged yet: those that wait to be delivered (again), in no fixed
-- order, and those whose script has replied and whose score is not written yet, in the order of the
-- replies, which is the order in which the one Redis connection sends what follows them.
pub record Broker (S : Type 0) : Type 0 where
  pub waiting : List QueueMessage
  pub running : List (QueueMessage × UserContestMetadata)
  pub store : S

module _ {S : Type 0} (redis : Redis UserContestMetadata S) where
  -- The script of a waiting message, `v` between `l` and `r`, has replied.
  abbrev pub started : Broker S → List QueueMessage → QueueMessage → List QueueMessage → Broker S
  started st l v r = record {
    waiting = l ++ r;
    running = st.running ++ (v, (run_script redis st.store v).1) ∷ [];
    store = (run_script redis st.store v).0;
  }

  abbrev pub written : Broker S → QueueMessage → UserContestMetadata → S
  written st v metadata = write_score redis st.store v metadata

  -- One step of the queue, the consumer and Redis. An exception, or a connection that is lost, puts a
  -- message back (`nack` with requeue, or a redelivery by the broker).
  pub data Step (st st' : Broker S) : Type 0 where
    publish : (v : QueueMessage) → st' ≡ record st { waiting = st.waiting ++ v ∷ [] } → Step st st'
    script :
        (l : List QueueMessage) (v : QueueMessage) (r : List QueueMessage)
        → st.waiting ≡ l ++ v ∷ r
        → st' ≡ started st l v r
        → Step st st'
    -- The script has run, but its reply is lost.
    reply_lost :
        (l : List QueueMessage) (v : QueueMessage) (r : List QueueMessage)
        → st.waiting ≡ l ++ v ∷ r
        → st' ≡ record st { store = (run_script redis st.store v).0 }
        → Step st st'
    -- The score is written and the message acknowledged.
    ack :
        (v : QueueMessage) (metadata : UserContestMetadata)
        (rest : List (QueueMessage × UserContestMetadata))
        → st.running ≡ (v, metadata) ∷ rest
        → st' ≡ record st { running = rest; store = written st v metadata }
        → Step st st'
    -- The score is not written.
    nack :
        (v : QueueMessage) (metadata : UserContestMetadata)
        (rest : List (QueueMessage × UserContestMetadata))
        → st.running ≡ (v, metadata) ∷ rest
        → st' ≡ record st { waiting = st.waiting ++ v ∷ []; running = rest }
        → Step st st'
    -- The score is written, but the acknowledgement is lost.
    ack_lost :
        (v : QueueMessage) (metadata : UserContestMetadata)
        (rest : List (QueueMessage × UserContestMetadata))
        → st.running ≡ (v, metadata) ∷ rest
        → st'
          ≡ record { waiting = st.waiting ++ v ∷ []; running = rest; store = written st v metadata }
        → Step st st'
    -- The service stops, and everything that was not acknowledged is delivered again.
    crash :
        st' ≡ record st { waiting = st.waiting ++ map (λ e. e.0) st.running; running = [] }
        → Step st st'

  pub data Reach (st : Broker S) : Broker S → Type 0 where
    here : Reach st st
    next : {t u : Broker S} → Reach st t → Step t u → Reach st u
