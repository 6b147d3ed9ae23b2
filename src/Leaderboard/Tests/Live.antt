-- ===== src/Leaderboard/Tests/Live.antt =====
-- Runs of the live updates.
use mathlib.Core.Path.{subst}
use judge_self.Common.{
  String, ◌≡◌, ◌≤◌, ◌==◌, refl, ap, inl, inr, none, [], ◌∷◌, keep, count_if, length, arith, eq_iff,
  Bool-cases,
}
use judge_self.Common.Sort.{sort}
use judge_self.Leaderboard.Freeze.{select_rows}
use judge_self.Leaderboard.Live.{process_all, process_live_verdict}
use judge_self.Leaderboard.Live.Effect.{is_for, stored, score_in, metadata}
use judge_self.Leaderboard.Live.Deliveries.{first_deliveries, append_all, process_all-append_all}
use judge_self.Leaderboard.Live.Consistency.{redelivery, expected_score}
use judge_self.Leaderboard.Recalculate.{recalculate_live_user_score, user_rated_rows}
use judge_self.Leaderboard.Recalculate.Agreement.{
  HasKeys, frozen_entry, recalculate-score, recalculate_stale,
}
use judge_self.Leaderboard.Tests.Data.{
  store_of_metadata, empty_store, deliveries, wrong_a, accepted_a, accepted_b, database, seconds,
}

process_all-append_all_example :
    metadata store_of_metadata (process_all store_of_metadata empty_store deliveries) "c1" "ann"
    ≡ append_all (metadata store_of_metadata empty_store "c1" "ann") (
        first_deliveries
          (metadata store_of_metadata empty_store "c1" "ann").processed_submissions
          (keep (is_for "c1" "ann") deliveries))
process_all-append_all_example =
    process_all-append_all store_of_metadata empty_store deliveries "c1" "ann"

redelivery_example :
    let t =
      process_all store_of_metadata
        (process_live_verdict store_of_metadata empty_store wrong_a)
        (accepted_a ∷ accepted_b ∷ []) in
    (stored store_of_metadata (process_live_verdict store_of_metadata t wrong_a) "c1" "ann"
      ≡ stored store_of_metadata t "c1" "ann")
    × (score_in store_of_metadata (process_live_verdict store_of_metadata t wrong_a) "c1" "ann"
        ≡ score_in store_of_metadata t "c1" "ann")
redelivery_example =
    redelivery store_of_metadata empty_store wrong_a (accepted_a ∷ accepted_b ∷ []) "c1" "ann"

abbrev IsUniqueId : String → Type 0
IsUniqueId id = count_if (λ s. s.id == id) database.submissions ≤ 1

-- The identifiers of the submissions differ.
database-HasKeys : HasKeys database
database-HasKeys id = elim (Bool-cases ("s1" == id)) [
  | inl e ↦ subst IsUniqueId ((eq_iff "s1" id).0 e) (omega arith)
  | inr e ↦ elim (Bool-cases ("s2" == id)) [
    | inl f ↦ subst IsUniqueId ((eq_iff "s2" id).0 f) (omega arith)
    | inr f ↦ rw (e, f) (ground arith)
  ]
]

recalculate-score_example :
    score_in store_of_metadata
      (recalculate_live_user_score store_of_metadata seconds database empty_store "c1" "ann")
      "c1"
      "ann"
    ≡ expected_score
        (frozen_entry store_of_metadata seconds database empty_store "c1" "ann" database-HasKeys)
unfolding user_rated_rows select_rows sort
recalculate-score_example =
    recalculate-score store_of_metadata seconds database empty_store "c1" "ann" database-HasKeys
      (λ e. grind (arith, ap length e))

recalculate_stale_example :
    (score_in store_of_metadata
        (recalculate_live_user_score store_of_metadata seconds database empty_store "c1" "zoe")
        "c1"
        "zoe"
      ≡ score_in store_of_metadata empty_store "c1" "zoe")
    × (stored store_of_metadata
          (recalculate_live_user_score store_of_metadata seconds database empty_store "c1" "zoe")
          "c1"
          "zoe"
        ≡ none)
unfolding user_rated_rows select_rows sort
recalculate_stale_example =
    recalculate_stale store_of_metadata seconds database empty_store "c1" "zoe" refl
