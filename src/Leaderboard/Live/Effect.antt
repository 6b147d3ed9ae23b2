-- ===== src/Leaderboard/Live/Effect.antt =====
-- The effect of one verdict (services/redis.service.ts) on the metadata and the score of each user
-- of each contest: the facts by which the other modules reason about the store.
use judge_self.Common.{
  String, ◌≡◌, ◌≢◌, refl, sym, ◌∙◌, Bool, true, false, ◌&&◌, Option, none, some, ◌==◌, arith,
  eq_iff, eq_refl, Bool-cases, inl, inr, if◌then◌else◌,
}
use judge_self.Common.Int.{ℤ}
use judge_self.Redis.{Redis}
use judge_self.Leaderboard.Types.{UserContestMetadata, QueueMessage}
use judge_self.Leaderboard.Scoring.{compute_user_scores}
use judge_self.Leaderboard.Live.Keys.{
  get_contest_leaderboard_key, get_contest_metadata_key, leaderboard_key_eq, metadata_key_eq,
  leaderboard_key-ne-metadata_key,
}
use judge_self.Leaderboard.Live.{
  stored_or_empty, is_processed, append_submission, update_user_state, write_score,
  process_live_verdict,
}

-- The script on the metadata alone.
unfoldable pub apply_verdict : UserContestMetadata → QueueMessage → UserContestMetadata
apply_verdict m v = if is_processed v.submission_id m then m else append_submission m v

-- The verdict is about this user in this contest.
abbrev pub is_for : String → String → QueueMessage → Bool
is_for contest_id user_id v = v.contest_id == contest_id && v.user_id == user_id

abbrev pub score_of : UserContestMetadata → ℤ
score_of m = (compute_user_scores m).score

module _ {S : Type 0} (redis : Redis UserContestMetadata S) where
  abbrev pub stored : S → String → String → Option UserContestMetadata
  stored s c u = redis.hget s (get_contest_metadata_key c) u

  abbrev pub score_in : S → String → String → Option ℤ
  score_in s c u = redis.zscore s (get_contest_leaderboard_key c) u

  abbrev pub metadata : S → String → String → UserContestMetadata
  metadata s c u = stored_or_empty (stored s c u)

-- What was processed is stored.
stored-of_is_processed :
    (id : String) (o : Option UserContestMetadata)
    → is_processed id (stored_or_empty o) ≡ true
    → o ≡ some (stored_or_empty o)
stored-of_is_processed id none h = cc
stored-of_is_processed id (some m) h = refl

pub key_ne : (c d : String) → get_contest_metadata_key c ≢ get_contest_leaderboard_key d
key_ne c d e = leaderboard_key-ne-metadata_key d c (sym e)

pub is_for-eq :
    (c u : String) (v : QueueMessage) → is_for c u v ≡ true → (v.contest_id ≡ c) × (v.user_id ≡ u)
is_for-eq c u v h = ground (arith, eq_iff v.contest_id c, eq_iff v.user_id u)

is_for_self : (v : QueueMessage) → is_for v.contest_id v.user_id v ≡ true
is_for_self v = simp eq_refl

module _ {S : Type 0} (redis : Redis UserContestMetadata S) (s : S) (v : QueueMessage)
    (m : UserContestMetadata) (c u : String) where
  -- Writing a score leaves the metadata alone, and the scores of the other users.
  pub write_score-stored : stored redis (write_score redis s v m) c u ≡ stored redis s c u
  write_score-stored =
      redis.hget-zadd s (get_contest_leaderboard_key v.contest_id) (score_of m) v.user_id
        (get_contest_metadata_key c) u (leaderboard_key-ne-metadata_key v.contest_id c)

  pub write_score-score_in :
      score_in redis (write_score redis s v m) c u
      ≡ (if is_for c u v then some (score_of m) else score_in redis s c u)
  write_score-score_in = rw (redis.zscore-zadd, leaderboard_key_eq v.contest_id c)

module _ {S : Type 0} (redis : Redis UserContestMetadata S) (s : S) (v : QueueMessage) where
  abbrev pub after_script : S × UserContestMetadata
  after_script = update_user_state redis s (get_contest_metadata_key v.contest_id) v

  pub script-result : after_script.1 ≡ apply_verdict (metadata redis s v.contest_id v.user_id) v
  unfolding update_user_state apply_verdict
  script-result = ground arith

  pub script-stored_self :
      stored redis after_script.0 v.contest_id v.user_id
      ≡ some (apply_verdict (metadata redis s v.contest_id v.user_id) v)
  unfolding update_user_state apply_verdict
  script-stored_self =
      elim (Bool-cases (is_processed v.submission_id (metadata redis s v.contest_id v.user_id))) [
        | inl e ↦
            rw e (stored-of_is_processed v.submission_id (stored redis s v.contest_id v.user_id) e)
        | inr e ↦ rw (e, redis.hget-hset) (simp eq_refl)
      ]

  pub script-stored_other :
      (c u : String) → is_for c u v ≡ false → stored redis after_script.0 c u ≡ stored redis s c u
  unfolding update_user_state
  script-stored_other c u h =
      elim (Bool-cases (is_processed v.submission_id (metadata redis s v.contest_id v.user_id))) [
        | inl e ↦ rw e
        | inr e ↦ rw (e, redis.hget-hset, metadata_key_eq v.contest_id c) (rw h)
      ]

  pub script-score : (c u : String) → score_in redis after_script.0 c u ≡ score_in redis s c u
  unfolding update_user_state
  script-score c u =
      elim (Bool-cases (is_processed v.submission_id (metadata redis s v.contest_id v.user_id))) [
        | inl e ↦ rw e
        | inr e ↦ rw e (
            redis.zscore-hset s (get_contest_metadata_key v.contest_id) v.user_id _
              (get_contest_leaderboard_key c) u (key_ne v.contest_id c))
      ]

  zadd-stored :
      (c u : String)
      → stored redis (process_live_verdict redis s v) c u ≡ stored redis after_script.0 c u
  unfolding process_live_verdict
  zadd-stored c u = write_score-stored redis after_script.0 v after_script.1 c u

  -- The user of the verdict has the script's metadata afterwards.
  pub process_live_verdict-stored_self :
      stored redis (process_live_verdict redis s v) v.contest_id v.user_id
      ≡ some (apply_verdict (metadata redis s v.contest_id v.user_id) v)
  process_live_verdict-stored_self = zadd-stored v.contest_id v.user_id ∙ script-stored_self

  pub process_live_verdict-stored_other :
      (c u : String)
      → is_for c u v ≡ false
      → stored redis (process_live_verdict redis s v) c u ≡ stored redis s c u
  process_live_verdict-stored_other c u h = zadd-stored c u ∙ script-stored_other c u h

  zadd-score :
      (c u : String)
      → score_in redis (process_live_verdict redis s v) c u ≡ (
          if is_for c u v
          then some (score_of after_script.1)
          else score_in redis after_script.0 c u)
  unfolding process_live_verdict
  zadd-score c u = write_score-score_in redis after_script.0 v after_script.1 c u

  -- And the score of that metadata.
  pub process_live_verdict-score_self :
      score_in redis (process_live_verdict redis s v) v.contest_id v.user_id
      ≡ some (score_of (apply_verdict (metadata redis s v.contest_id v.user_id) v))
  process_live_verdict-score_self =
      zadd-score v.contest_id v.user_id ∙ (rw (is_for_self v, script-result))

  pub process_live_verdict-score_other :
      (c u : String)
      → is_for c u v ≡ false
      → score_in redis (process_live_verdict redis s v) c u ≡ score_in redis s c u
  process_live_verdict-score_other c u h = zadd-score c u ∙ (rw h (script-score c u))
