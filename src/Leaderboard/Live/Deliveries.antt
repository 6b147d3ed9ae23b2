-- ===== src/Leaderboard/Live/Deliveries.antt =====
-- At-least-once delivery: what the consumer of tasks/rabbitmq.task.ts leaves in the store after any
-- sequence of deliveries, redelivered messages included.
use judge_self.Common.{
  String, ◌≡◌, refl, sym, ap, ◌∙◌, Bool, List, [], ◌∷◌, ◌++◌, ◌==◌, any, keep, map, eq_iff,
  Bool-cases, inl, inr, if◌then◌else◌,
}
use mathlib.Core.List.{append-nil, append_assoc}
use judge_self.Common.Assoc.{lookup-assign}
use judge_self.Redis.{Redis}
use judge_self.Leaderboard.Types.{UserContestMetadata, QueueMessage}
use judge_self.Leaderboard.Live.{
  is_processed, track, state_of, append_submission, process_live_verdict, process_all,
  stored_or_empty,
}
use judge_self.Leaderboard.Live.Effect.{
  apply_verdict, is_for, is_for-eq, metadata, process_live_verdict-stored_self,
  process_live_verdict-stored_other,
}

-- The deliveries whose submission was not seen before.
pub first_deliveries : List String → List QueueMessage → List QueueMessage
first_deliveries seen [] = []
first_deliveries seen (v ∷ vs) =
    let old = first_deliveries seen vs in
    let new = v ∷ first_deliveries (seen ++ v.submission_id ∷ []) vs in
    if any (λ id. id == v.submission_id) seen then old else new

apply_all : UserContestMetadata → List QueueMessage → UserContestMetadata
apply_all m [] = m
apply_all m (v ∷ vs) = apply_all (apply_verdict m v) vs

pub append_all : UserContestMetadata → List QueueMessage → UserContestMetadata
append_all m [] = m
append_all m (v ∷ vs) = append_all (append_submission m v) vs

apply_all-append_all :
    (m : UserContestMetadata) (vs : List QueueMessage)
    → apply_all m vs ≡ append_all m (first_deliveries m.processed_submissions vs)
unfolding apply_all append_all first_deliveries apply_verdict append_submission
apply_all-append_all m [] = refl
apply_all-append_all m (v ∷ vs) = elim (Bool-cases (is_processed v.submission_id m)) [
  | inl e ↦ rw e (apply_all-append_all m vs)
  | inr e ↦ rw e (apply_all-append_all (append_submission m v) vs)
]

module _ {S : Type 0} (redis : Redis UserContestMetadata S) where
  process_live_verdict-metadata :
      (s : S) (v : QueueMessage) (c u : String)
      → metadata redis (process_live_verdict redis s v) c u
        ≡ (if is_for c u v then apply_verdict (metadata redis s c u) v else metadata redis s c u)
  process_live_verdict-metadata s v c u = elim (Bool-cases (is_for c u v)) [
    | inl e ↦
        let (ec, eu) = is_for-eq c u v e in
        rw (e, ← ec, ← eu) (ap stored_or_empty (process_live_verdict-stored_self redis s v))
    | inr e ↦ rw e (ap stored_or_empty (process_live_verdict-stored_other redis s v c u e))
  ]

  process_all-apply_all :
      (s : S) (vs : List QueueMessage) (c u : String)
      → metadata redis (process_all redis s vs) c u
        ≡ apply_all (metadata redis s c u) (keep (is_for c u) vs)
  unfolding process_all apply_all
  process_all-apply_all s [] c u = refl
  process_all-apply_all s (v ∷ vs) c u = elim (Bool-cases (is_for c u v)) [
    | inl e ↦ rw e (
        process_all-apply_all (process_live_verdict redis s v) vs c u
        ∙ ap (λ m. apply_all m (keep (is_for c u) vs))
            (process_live_verdict-metadata s v c u ∙ (rw e)))
    | inr e ↦ rw e (
        process_all-apply_all (process_live_verdict redis s v) vs c u
        ∙ ap (λ m. apply_all m (keep (is_for c u) vs))
            (process_live_verdict-metadata s v c u ∙ (rw e)))
  ]

  -- After any deliveries a user's metadata in a contest is that of the first delivery of each of the
  -- user's submissions there, appended in order: redeliveries, and the verdicts of other users and
  -- other contests, leave no trace.
  pub process_all-append_all :
      (s : S) (vs : List QueueMessage) (c u : String)
      → metadata redis (process_all redis s vs) c u
        ≡ append_all
            (metadata redis s c u)
            (first_deliveries (metadata redis s c u).processed_submissions (keep (is_for c u) vs))
  process_all-append_all s vs c u =
      process_all-apply_all s vs c u
      ∙ apply_all-append_all (metadata redis s c u) (keep (is_for c u) vs)

abbrev pub is_about : String → QueueMessage → Bool
is_about p v = v.problem_id == p

track-append_submission :
    (p : String) (m : UserContestMetadata) (v : QueueMessage)
    → track p (append_submission m v).problems
      ≡ track p m.problems ++ map state_of (keep (is_about p) (v ∷ []))
unfolding append_submission
track-append_submission p m v = elim (Bool-cases (v.problem_id == p)) [
  | inl e ↦
      rw
        (
          lookup-assign v.problem_id p (track v.problem_id m.problems ++ state_of v ∷ [])
              m.problems,
          e,
        )
        (rw ((eq_iff v.problem_id p).0 e))
  | inr e ↦
      rw
        (
          lookup-assign v.problem_id p (track v.problem_id m.problems ++ state_of v ∷ [])
              m.problems,
          e,
        )
        (sym (append-nil (track p m.problems)))
]

map-keep-cons :
    (p : String) (v : QueueMessage) (vs : List QueueMessage)
    → map state_of (keep (is_about p) (v ∷ [])) ++ map state_of (keep (is_about p) vs)
      ≡ map state_of (keep (is_about p) (v ∷ vs))
map-keep-cons p v vs = elim (Bool-cases (v.problem_id == p)) [ inl e ↦ rw e | inr e ↦ rw e ]

-- The submissions that are kept for a problem are those it had, and then those appended, in order.
pub track-append_all :
    (p : String) (m : UserContestMetadata) (vs : List QueueMessage)
    → track p (append_all m vs).problems ≡ track p m.problems ++ map state_of (keep (is_about p) vs)
unfolding append_all
track-append_all p m [] = sym (append-nil (track p m.problems))
track-append_all p m (v ∷ vs) =
    track-append_all p (append_submission m v) vs
    ∙ ap (λ l. l ++ map state_of (keep (is_about p) vs)) (track-append_submission p m v)
    ∙ append_assoc (track p m.problems) (map state_of (keep (is_about p) (v ∷ [])))
        (map state_of (keep (is_about p) vs))
    ∙ ap (λ l. track p m.problems ++ l) (map-keep-cons p v vs)
