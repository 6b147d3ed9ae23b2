-- ===== src/Leaderboard/Live/Consistency.antt =====
-- The sorted set and the metadata of a contest agree after every verdict of
-- services/redis.service.ts, and a message that is delivered again changes nothing.
use judge_self.Common.{
  String, ◌≡◌, refl, sym, ap, ◌∙◌, Bool, true, ◌||◌, Option, none, some, List, [], ◌∷◌, ◌++◌, ◌==◌,
  arith, any, eq_refl, Bool-cases, inl, inr,
}
use judge_self.Common.Int.{ℤ}
use judge_self.Redis.{Redis}
use judge_self.Leaderboard.Types.{UserContestMetadata, QueueMessage}
use judge_self.Leaderboard.Live.{
  is_processed, append_submission, process_live_verdict, process_all, stored_or_empty,
}
use judge_self.Leaderboard.Live.Effect.{
  apply_verdict, is_for, is_for-eq, score_of, stored, score_in, metadata,
  process_live_verdict-stored_self, process_live_verdict-stored_other,
  process_live_verdict-score_self, process_live_verdict-score_other,
}

abbrev pub expected_score : Option UserContestMetadata → Option ℤ
expected_score none = none
expected_score (some m) = some (score_of m)

any-append : (p : String → Bool) (xs ys : List String) → any p (xs ++ ys) ≡ any p xs || any p ys
any-append p [] ys = refl
any-append p (x ∷ xs) ys = ground (arith, any-append p xs ys)

-- A submission stays processed.
pub apply_verdict-keeps :
    (id : String) (m : UserContestMetadata) (v : QueueMessage)
    → is_processed id m ≡ true
    → is_processed id (apply_verdict m v) ≡ true
unfolding apply_verdict append_submission
apply_verdict-keeps id m v h = elim (Bool-cases (is_processed v.submission_id m)) [
  | inl e ↦ rw e h
  | inr e ↦ rw e (any-append (λ j. j == id) m.processed_submissions (v.submission_id ∷ []) ∙ (rw h))
]

pub apply_verdict-processes :
    (m : UserContestMetadata) (v : QueueMessage)
    → is_processed v.submission_id (apply_verdict m v) ≡ true
unfolding apply_verdict append_submission
apply_verdict-processes m v = elim (Bool-cases (is_processed v.submission_id m)) [
  | inl e ↦ rw e e
  | inr e ↦ rw e (
      any-append (λ j. j == v.submission_id) m.processed_submissions (v.submission_id ∷ [])
      ∙ (rw (eq_refl v.submission_id, e)))
]

apply_verdict-again :
    (m : UserContestMetadata) (v : QueueMessage)
    → is_processed v.submission_id m ≡ true
    → apply_verdict m v ≡ m
unfolding apply_verdict
apply_verdict-again m v h = rw h

module _ {S : Type 0} (redis : Redis UserContestMetadata S) where
  -- The sorted set has a score for exactly the users with metadata: the score of that metadata.
  abbrev pub IsConsistentAt : S → String → String → Type 0
  IsConsistentAt s c u = score_in redis s c u ≡ expected_score (stored redis s c u)

  pub process_live_verdict-establishes :
      (s : S) (v : QueueMessage)
      → IsConsistentAt (process_live_verdict redis s v) v.contest_id v.user_id
  process_live_verdict-establishes s v =
      process_live_verdict-score_self redis s v
      ∙ ap expected_score (sym (process_live_verdict-stored_self redis s v))

  process_live_verdict-IsConsistentAt :
      (s : S) (v : QueueMessage) (c u : String)
      → IsConsistentAt s c u
      → IsConsistentAt (process_live_verdict redis s v) c u
  process_live_verdict-IsConsistentAt s v c u h = elim (Bool-cases (is_for c u v)) [
    | inl e ↦
        let (ec, eu) = is_for-eq c u v e in rw (← ec, ← eu) (process_live_verdict-establishes s v)
    | inr e ↦
        process_live_verdict-score_other redis s v c u e
        ∙ h
        ∙ ap expected_score (sym (process_live_verdict-stored_other redis s v c u e))
  ]

  -- Every sequence of deliveries keeps the two in agreement, for every user of every contest.
  pub process_all-IsConsistentAt :
      (s : S) (vs : List QueueMessage) (c u : String)
      → IsConsistentAt s c u
      → IsConsistentAt (process_all redis s vs) c u
  unfolding process_all
  process_all-IsConsistentAt s [] c u h = h
  process_all-IsConsistentAt s (v ∷ vs) c u h =
      process_all-IsConsistentAt (process_live_verdict redis s v) vs c u
        (process_live_verdict-IsConsistentAt s v c u h)

  -- What a user has processed in a contest, and that the two agree there.
  abbrev Has : String → String → String → S → Type 0
  Has id c u s = (is_processed id (metadata redis s c u) ≡ true) × IsConsistentAt s c u

  process_live_verdict-Has :
      (id : String) (s : S) (v : QueueMessage) (c u : String)
      → Has id c u s
      → Has id c u (process_live_verdict redis s v)
  process_live_verdict-Has id s v c u (p, h) = (
    elim (Bool-cases (is_for c u v)) [
      | inl e ↦
          let (ec, eu) = is_for-eq c u v e in
          let old : is_processed id (metadata redis s v.contest_id v.user_id) ≡ true =
            rw (ec, eu) p in
          rw (← ec, ← eu, process_live_verdict-stored_self redis s v)
            (apply_verdict-keeps id (metadata redis s v.contest_id v.user_id) v old)
      | inr e ↦ rw (process_live_verdict-stored_other redis s v c u e) p
    ],
    process_live_verdict-IsConsistentAt s v c u h,
  )

  process_all-Has :
      (id : String) (s : S) (vs : List QueueMessage) (c u : String)
      → Has id c u s
      → Has id c u (process_all redis s vs)
  unfolding process_all
  process_all-Has id s [] c u h = h
  process_all-Has id s (v ∷ vs) c u h =
      process_all-Has id (process_live_verdict redis s v) vs c u
        (process_live_verdict-Has id s v c u h)

  first_delivery-Has :
      (s : S) (v : QueueMessage)
      → Has v.submission_id v.contest_id v.user_id (process_live_verdict redis s v)
  first_delivery-Has s v = (
    rw (process_live_verdict-stored_self redis s v)
        (apply_verdict-processes (metadata redis s v.contest_id v.user_id) v),
    process_live_verdict-establishes s v,
  )

  stored_or_empty-some :
      (id : String) (o : Option UserContestMetadata)
      → is_processed id (stored_or_empty o) ≡ true
      → some (stored_or_empty o) ≡ o
  stored_or_empty-some id none h = cc
  stored_or_empty-some id (some m) h = refl

  again_self :
      (s : S) (v : QueueMessage)
      → Has v.submission_id v.contest_id v.user_id s
      → (stored redis (process_live_verdict redis s v) v.contest_id v.user_id
          ≡ stored redis s v.contest_id v.user_id)
        × (score_in redis (process_live_verdict redis s v) v.contest_id v.user_id
            ≡ score_in redis s v.contest_id v.user_id)
  again_self s v (p, h) =
      let m = metadata redis s v.contest_id v.user_id in
      let same : some (apply_verdict m v) ≡ stored redis s v.contest_id v.user_id =
        ap some (apply_verdict-again m v p)
        ∙ stored_or_empty-some v.submission_id (stored redis s v.contest_id v.user_id) p in
      (
        process_live_verdict-stored_self redis s v ∙ same,
        process_live_verdict-score_self redis s v ∙ ap expected_score same ∙ sym h,
      )

  -- A message that was delivered before, with any deliveries in between, changes neither the
  -- metadata nor the score of any user in any contest when it is delivered again.
  pub redelivery :
      (s : S) (v : QueueMessage) (ws : List QueueMessage) (c u : String)
      → (stored redis
            (process_live_verdict redis (process_all redis (process_live_verdict redis s v) ws) v)
            c
            u
          ≡ stored redis (process_all redis (process_live_verdict redis s v) ws) c u)
        × (score_in redis
              (process_live_verdict redis (process_all redis (process_live_verdict redis s v) ws) v)
              c
              u
            ≡ score_in redis (process_all redis (process_live_verdict redis s v) ws) c u)
  redelivery s v ws c u =
      let t = process_all redis (process_live_verdict redis s v) ws in
      let (p, q) = again_self t v (
        process_all-Has v.submission_id (process_live_verdict redis s v) ws v.contest_id v.user_id
          (first_delivery-Has s v)) in
      elim (Bool-cases (is_for c u v)) [
        | inl e ↦ let (ec, eu) = is_for-eq c u v e in rw (← ec, ← eu) (p, q)
        | inr e ↦ (
          process_live_verdict-stored_other redis t v c u e,
          process_live_verdict-score_other redis t v c u e,
        )
      ]
