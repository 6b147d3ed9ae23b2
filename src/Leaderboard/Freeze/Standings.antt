-- ===== src/Leaderboard/Freeze/Standings.antt =====
-- The final standings of services/freeze.service.ts: who is in them, and in which order.
use judge_self.Common.{
  ℕ, suc, String, ◌≡◌, refl, ap, ◌∙◌, Option, none, some, List, [], ◌∷◌, ◌==◌, arith, any, keep,
  All, All-implies, map, count_if, count_if-map, eq_iff, Bool-cases, inl, inr, if◌then◌else◌,
}
use judge_self.Common.Int.{ -ℤ_parts, ◌≤ℤ◌}
use judge_self.Common.Assoc.{Assoc, lookup, assign, lookup-assign}
use judge_self.Common.Sort.Laws.{Le, IsSorted, IsOrder, sort-IsSorted, count_if-sort}
use judge_self.Leaderboard.Types.{UserContestMetadata}
use judge_self.Leaderboard.Live.{stored_or_empty}
use judge_self.Leaderboard.Freeze.{
  RatedRow, Standing, standing_of, by_score, standings, push_row, aggregate,
}
use judge_self.Leaderboard.Freeze.Aggregate.{push_rows, is_row_of, lookup-aggregate}

by_score-IsOrder : IsOrder by_score
unfolding by_score
by_score-IsOrder = record {
  total = λ x y.
      omega (arith, -ℤ_parts y.result.score x.result.score, -ℤ_parts x.result.score y.result.score);
  trans = λ x y z p q. omega (
    arith,
    -ℤ_parts y.result.score x.result.score,
    -ℤ_parts z.result.score y.result.score,
    -ℤ_parts z.result.score x.result.score,
  );
}

-- No score is below a later one.
abbrev pub IsDescending : List Standing → Type 0
IsDescending [] = Unit
IsDescending (e ∷ es) = All (λ d. d.result.score ≤ℤ e.result.score) es × IsDescending es

by_score-le : (e d : Standing) → Le by_score e d → d.result.score ≤ℤ e.result.score
unfolding by_score
by_score-le e d h = omega (arith, -ℤ_parts d.result.score e.result.score)

IsDescending-of_sorted : (es : List Standing) → IsSorted by_score es → IsDescending es
IsDescending-of_sorted [] h = tt
IsDescending-of_sorted (e ∷ es) (below, h) =
    (All-implies (by_score-le e) es below, IsDescending-of_sorted es h)

-- The scores of the standings descend: no user stands behind one with a lower score.
pub standings-IsDescending : (rows : List RatedRow) → IsDescending (standings rows)
unfolding standings
standings-IsDescending rows =
    IsDescending-of_sorted (standings rows)
      (sort-IsSorted by_score by_score-IsOrder (map standing_of (aggregate rows [])))

abbrev presence : Option UserContestMetadata → ℕ
presence none = 0
presence (some m) = 1

abbrev HasUniqueKeys : Assoc UserContestMetadata → Type 0
HasUniqueKeys o = (u : String) → count_if (λ e. e.0 == u) o ≡ presence (lookup u o)

count_if-assign :
    (u k : String) (m : UserContestMetadata) (o : Assoc UserContestMetadata)
    → count_if (λ e. e.0 == u) (assign k m o) ≡ (
        if k == u
        then elim (lookup k o) [
          | none ↦ suc (count_if (λ e. e.0 == u) o)
          | some w ↦ count_if (λ e. e.0 == u) o
        ]
        else count_if (λ e. e.0 == u) o)
unfolding assign lookup
count_if-assign u k m [] = refl
count_if-assign u k m ((j, w) ∷ o) =
    ground (arith, eq_iff j k, eq_iff j u, eq_iff k u, count_if-assign u k m o)

HasUniqueKeys-assign :
    (k : String) (m : UserContestMetadata) (o : Assoc UserContestMetadata)
    → HasUniqueKeys o
    → HasUniqueKeys (assign k m o)
HasUniqueKeys-assign k m o h u =
    ground (arith, count_if-assign u k m o, lookup-assign k u m o, h u, eq_iff k u)

HasUniqueKeys-aggregate :
    (rows : List RatedRow) (state : Assoc UserContestMetadata)
    → HasUniqueKeys state
    → HasUniqueKeys (aggregate rows state)
unfolding aggregate
HasUniqueKeys-aggregate [] state h = h
HasUniqueKeys-aggregate (row ∷ rows) state h =
    let pushed = push_row (stored_or_empty (lookup row.user_id state)) row in
    HasUniqueKeys-aggregate rows (assign row.user_id pushed state)
      (HasUniqueKeys-assign row.user_id pushed state h)

presence-push_rows :
    (m : UserContestMetadata) (rows : List RatedRow) → presence (push_rows (some m) rows) ≡ 1
unfolding push_rows
presence-push_rows m [] = refl
presence-push_rows m (row ∷ rows) = presence-push_rows (push_row m row) rows

presence-rows :
    (u : String) (rows : List RatedRow)
    → presence (push_rows none (keep (is_row_of u) rows))
      ≡ (if any (is_row_of u) rows then 1 else 0)
unfolding push_rows
presence-rows u [] = refl
presence-rows u (row ∷ rows) = elim (Bool-cases (row.user_id == u)) [
  | inl e ↦ rw e (presence-push_rows _ (keep (is_row_of u) rows))
  | inr e ↦ rw e (presence-rows u rows)
]

-- A user with a rated submission to the contest has exactly one place, and nobody else has any.
pub count_if-standings :
    (u : String) (rows : List RatedRow)
    → count_if (λ e. e.user_id == u) (standings rows) ≡ (if any (is_row_of u) rows then 1 else 0)
unfolding standings standing_of lookup
count_if-standings u rows =
    count_if-sort by_score (λ e. e.user_id == u) (map standing_of (aggregate rows []))
    ∙ count_if-map (λ e. e.user_id == u) standing_of (aggregate rows [])
    ∙ HasUniqueKeys-aggregate rows [] (λ v. refl) u
    ∙ ap presence (lookup-aggregate u rows [])
    ∙ presence-rows u rows
