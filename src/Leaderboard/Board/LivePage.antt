-- ===== src/Leaderboard/Board/LivePage.antt =====
-- A page that services/leaderboard.service.ts reads from Redis during a contest.
use judge_self.Common.{
  ℕ, zero, suc, ◌+◌, ◌*◌, ◌-◌, ◌<◌, String, ◌≡◌, refl, sym, ap, ◌∙◌, Option, none, some, List, [],
  ◌∷◌, arith, map, All, take, drop,
}
use judge_self.Common.Int.{ℤ, pos, ◌+ℤ◌, ◌-ℤ◌, int_laws}
use judge_self.Common.Paging.{page}
use judge_self.Redis.{Redis}
use judge_self.Leaderboard.Types.{UserContestMetadata}
use judge_self.Leaderboard.Live.Keys.{get_contest_leaderboard_key}
use judge_self.Leaderboard.Live.Effect.{score_of, stored}
use judge_self.Leaderboard.Live.Consistency.{expected_score, IsConsistentAt}
use judge_self.Leaderboard.Board.{
  LeaderboardRow, Fetched, fetched, row_of, start_index, add_row, rows_or_null, live_rows,
  get_leaderboard_page_from_redis,
}

-- What a row shows of the ranking.
abbrev pub Shown : Type 0
Shown = ℤ × String × Option ℤ

abbrev pub shown : LeaderboardRow → Shown
shown r = (r.rank, r.user_id, r.score)

-- The members with their scores, numbered from `i` on.
abbrev pub numbered : ℕ → List (String × ℤ) → List Shown
numbered i [] = []
numbered i ((u, x) ∷ rest) = (pos i, u, some x) ∷ numbered (suc i) rest

-- The page shows the given part of the ranking, or is left to the database if that is empty.
abbrev pub Shows : ℕ → List (String × ℤ) → Fetched (Option (List LeaderboardRow)) → Type 0
Shows i [] r = r ≡ fetched none
Shows i (e ∷ es) r =
    (rows : List LeaderboardRow) × (r ≡ fetched (some rows))
    × (map shown rows ≡ numbered i (e ∷ es))

abbrev IsShownBy : ℕ → List (String × ℤ) → Fetched (List LeaderboardRow) → Type 0
IsShownBy i l r =
    (rows : List LeaderboardRow) × (r ≡ fetched rows) × (map shown rows ≡ numbered i l)

module _ {A : Type 0} (P : A → Type 0) where
  pub All-take : (n : ℕ) (xs : List A) → All P xs → All P (take n xs)
  All-take zero xs h = tt
  All-take (suc n) [] h = tt
  All-take (suc n) (x ∷ xs) (p, h) = (p, All-take n xs h)

  pub All-drop : (n : ℕ) (xs : List A) → All P xs → All P (drop n xs)
  All-drop zero xs h = h
  All-drop (suc n) [] h = tt
  All-drop (suc n) (x ∷ xs) (p, h) = All-drop n xs h

module _ {S : Type 0} (redis : Redis UserContestMetadata S) (s : S) (c : String)
    (consistent : (u : String) → IsConsistentAt redis s c u) where
  pub has_metadata :
      (u : String) (x : ℤ) (o : Option UserContestMetadata)
      → some x ≡ expected_score o
      → (m : UserContestMetadata) × (o ≡ some m) × (score_of m ≡ x)
  has_metadata u x none e = cc
  has_metadata u x (some m) e = (m, refl, cc)

  add_row-IsShownBy :
      (i : ℕ) (u : String) (x : ℤ) (m : UserContestMetadata) (l : List (String × ℤ))
      (r : Fetched (List LeaderboardRow))
      → score_of m ≡ x
      → IsShownBy (suc i) l r
      → IsShownBy i ((u, x) ∷ l) (add_row (row_of (pos i) u m) r)
  add_row-IsShownBy i u x m l r e (rows, p, q) = (row_of (pos i) u m ∷ rows, rw p, rw (e, q))

  pub live_rows-IsShownBy :
      (i : ℕ) (l : List (String × ℤ))
      → All (λ e. redis.zscore s (get_contest_leaderboard_key c) e.0 ≡ some e.1) l
      → IsShownBy i l (live_rows redis s c (pos i) l)
  unfolding live_rows
  live_rows-IsShownBy i [] h = ([], refl, refl)
  live_rows-IsShownBy i ((u, x) ∷ l) (p, h) =
      let (m, e, q) = has_metadata u x (stored redis s c u) (sym p ∙ consistent u) in
      let next : pos i +ℤ pos 1 ≡ pos (suc i) = omega int_laws in
      rw (e, next)
        (add_row-IsShownBy i u x m l (live_rows redis s c (pos (suc i)) l) q
          (live_rows-IsShownBy (suc i) l h))

  rows_or_null-Shows :
      (i : ℕ) (l : List (String × ℤ)) (r : Fetched (List LeaderboardRow))
      → IsShownBy i l r
      → Shows i l (rows_or_null l r)
  rows_or_null-Shows i [] r h = refl
  rows_or_null-Shows i (e ∷ es) r (rows, p, q) = (rows, rw p, q)

  start_index-suc : (k size : ℕ) → start_index (pos (suc k)) size ≡ pos (k * size)
  start_index-suc k size = omega int_laws

  -- The page is made of the rows of its slice of the ranking.
  pub get_leaderboard_page_from_redis_lem :
      (k size : ℕ)
      → 0 < size
      → let l = page size k (redis.ranking s (get_contest_leaderboard_key c)) in
        get_leaderboard_page_from_redis redis s c (pos (suc k)) size
        ≡ rows_or_null l (live_rows redis s c (pos (suc (k * size))) l)
  unfolding get_leaderboard_page_from_redis
  get_leaderboard_page_from_redis_lem k size h =
      let key = get_contest_leaderboard_key c in
      let l = page size k (redis.ranking s key) in
      let stop : pos (k * size) +ℤ pos size -ℤ pos 1 ≡ pos (k * size + (size - 1)) =
        omega int_laws in
      let width : suc (k * size + (size - 1)) - k * size ≡ size = omega arith in
      let first : pos (k * size) +ℤ pos 1 ≡ pos (suc (k * size)) = omega int_laws in
      let users : redis.zrange_rev s key (pos (k * size)) (pos (k * size + (size - 1))) ≡ l =
        redis.zrange_rev-ranking s key (k * size) (k * size + (size - 1))
        ∙ ap (λ n. take n (drop (k * size) (redis.ranking s key))) width in
      rw (start_index-suc k size, stop, first, users) refl

  -- While the sorted set and the metadata agree, page k + 1 of a positive size shows exactly the k-th slice of the
  -- ranking: its users in order, with the ranks that follow from their places and with the scores of
  -- the sorted set. No row is missing, and none throws.
  pub get_leaderboard_page_from_redis-Shows :
      (k size : ℕ)
      → 0 < size
      → Shows
          (suc (k * size))
          (page size k (redis.ranking s (get_contest_leaderboard_key c)))
          (get_leaderboard_page_from_redis redis s c (pos (suc k)) size)
  get_leaderboard_page_from_redis-Shows k size h =
      let key = get_contest_leaderboard_key c in
      let l = page size k (redis.ranking s key) in
      rw (get_leaderboard_page_from_redis_lem k size h) (
        rows_or_null-Shows (suc (k * size)) l (live_rows redis s c (pos (suc (k * size))) l) (
          live_rows-IsShownBy (suc (k * size)) l (
            All-take _ size (drop (k * size) (redis.ranking s key))
              (All-drop _ (k * size) (redis.ranking s key) (redis.ranking-zscore s key)))))
