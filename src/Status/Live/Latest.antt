-- ===== src/Status/Live/Latest.antt =====
-- What the hash of services/status.service.ts holds after any messages.
use judge_self.Common.{
  String, ◌≡◌, refl, ap, ◌∙◌, Option, none, some, List, [], ◌∷◌, ◌==◌, Bool-cases, inl, inr,
  if◌then◌else◌,
}
use judge_self.Redis.{Redis}
use judge_self.Status.Live.{StatusMessage, redis_key, on_message, on_messages}

-- What a message says of its submission.
abbrev pub said : StatusMessage → Option String
said msg = if msg.running then some msg.status else none

-- What the last message about a submission says, or the old status if there is none.
pub latest : String → List StatusMessage → Option String → Option String
latest id [] old = old
latest id (msg ∷ rest) old = latest id rest (if msg.submission_id == id then said msg else old)

module _ {S : Type 0} (redis : Redis String S) where
  hget-on_message :
      (s : S) (msg : StatusMessage) (id : String)
      → redis.hget (on_message redis s msg) redis_key id
        ≡ (if msg.submission_id == id then said msg else redis.hget s redis_key id)
  unfolding on_message
  hget-on_message s msg id = elim (Bool-cases msg.running) [
    | inl e ↦ rw (e, redis.hget-hset)
    | inr e ↦ rw (e, redis.hget-hdel)
  ]

  -- The hash holds the status of a submission exactly if the last message about it said that it is
  -- running, and then the status of that message; without a message it is as it was.
  pub on_messages-latest :
      (s : S) (msgs : List StatusMessage) (id : String)
      → redis.hget (on_messages redis s msgs) redis_key id
        ≡ latest id msgs (redis.hget s redis_key id)
  unfolding on_messages latest
  on_messages-latest s [] id = refl
  on_messages-latest s (msg ∷ rest) id =
      on_messages-latest (on_message redis s msg) rest id
      ∙ ap (latest id rest) (hget-on_message s msg id)
