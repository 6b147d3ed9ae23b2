-- ===== src/Leaderboard/Freeze/Aggregate.antt =====
-- What the loop of services/freeze.service.ts has collected for each user.
use judge_self.Common.{
  String, ◌≡◌, refl, ap, ◌∙◌, Bool, Option, some, List, [], ◌∷◌, ◌==◌, keep, eq_iff, Bool-cases,
  inl, inr,
}
use judge_self.Common.Assoc.{Assoc, lookup, assign, lookup-assign}
use judge_self.Leaderboard.Types.{UserContestMetadata}
use judge_self.Leaderboard.Live.{stored_or_empty}
use judge_self.Leaderboard.Freeze.{RatedRow, push_row, aggregate}

-- The rows of one user, pushed one after the other; no entry without a row.
unfoldable pub push_rows : Option UserContestMetadata → List RatedRow → Option UserContestMetadata
push_rows o [] = o
push_rows o (row ∷ rows) = push_rows (some (push_row (stored_or_empty o) row)) rows

abbrev pub is_row_of : String → RatedRow → Bool
is_row_of user_id row = row.user_id == user_id

-- A user's entry is made of exactly the user's rows, in their order.
pub lookup-aggregate :
    (u : String) (rows : List RatedRow) (state : Assoc UserContestMetadata)
    → lookup u (aggregate rows state) ≡ push_rows (lookup u state) (keep (is_row_of u) rows)
unfolding aggregate push_rows
lookup-aggregate u [] state = refl
lookup-aggregate u (row ∷ rows) state =
    let pushed = push_row (stored_or_empty (lookup row.user_id state)) row in
    let ih = lookup-aggregate u rows (assign row.user_id pushed state) in
    elim (Bool-cases (row.user_id == u)) [
      | inl e ↦ rw e (
          ih
          ∙ ap (λ o. push_rows o (keep (is_row_of u) rows))
              (lookup-assign row.user_id u pushed state ∙ (rw (e, (eq_iff row.user_id u).0 e))))
      | inr e ↦ rw e (
          ih
          ∙ ap (λ o. push_rows o (keep (is_row_of u) rows))
              (lookup-assign row.user_id u pushed state ∙ (rw e)))
    ]
