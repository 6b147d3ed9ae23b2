-- ===== src/Leaderboard/Board/UserRow.antt =====
-- The row of one user, `getUserLeaderboardRow` of services/leaderboard.service.ts, beside the rows of the
-- live pages.
use judge_self.Common.{
  ℕ, zero, suc, ◌+◌, ◌*◌, ◌<◌, String, ◌≡◌, refl, sym, ap, ◌∙◌, ◌⊎◌, inl, inr, Bool, true, false,
  Option, none, some, List, [], ◌∷◌, ◌==◌, eqb, arith, All, take, drop, get_elem?, eq_iff,
  if◌then◌else◌,
}
use mathlib.Core.Option
use judge_self.Common.Int.{ℤ, pos, ◌+ℤ◌, int_laws}
use judge_self.Database.{Database}
use judge_self.Redis.{Redis, index_of}
use judge_self.Leaderboard.Types.{UserContestMetadata}
use judge_self.Leaderboard.Live.Keys.{get_contest_leaderboard_key}
use judge_self.Leaderboard.Live.Effect.{stored}
use judge_self.Leaderboard.Live.Consistency.{IsConsistentAt}
use judge_self.Leaderboard.Board.{
  LeaderboardRow, Fetched, fetched, row_of, live_row, rows_or_null, live_rows, user_row_from_db,
  get_user_leaderboard_row, get_leaderboard_page_from_redis,
}
use judge_self.Leaderboard.Board.LivePage.{
  All-take, All-drop, has_metadata, live_rows-IsShownBy, get_leaderboard_page_from_redis_lem,
}

some-inj : {a b : ℕ} → some a ≡ some b → a ≡ b
some-inj h = cc

-- A member is the first one or stands among the others.
index_of-cases :
    (u v : String) (x : ℤ) (l : List (String × ℤ)) (n : ℕ)
    → index_of u ((v, x) ∷ l) ≡ some n
    → ((v ≡ u) × (n ≡ 0)) ⊎ ((m : ℕ) × (n ≡ suc m) × (index_of u l ≡ some m))
index_of-cases u v x l n h = go (v == u) (index_of u l) refl refl h
  where
    go :
        (b : Bool) (o : Option ℕ)
        → (v == u) ≡ b
        → index_of u l ≡ o
        → (if b then some 0 else Option.map suc o) ≡ some n
        → ((v ≡ u) × (n ≡ 0)) ⊎ ((m : ℕ) × (n ≡ suc m) × (index_of u l ≡ some m))
    go true o e q g = inl ((eq_iff v u).0 e, sym (some-inj g))
    go false none e q g = cc
    go false (some m) e q g = inr (m, sym (some-inj g), q)

index_of-drop :
    (u : String) (d j : ℕ) (l : List (String × ℤ))
    → index_of u l ≡ some (d + j)
    → index_of u (drop d l) ≡ some j
index_of-drop u zero j l h = h ∙ ap some (omega arith)
index_of-drop u (suc d) j [] h = cc
index_of-drop u (suc d) j ((v, x) ∷ l) h = elim (index_of-cases u v x l (suc d + j) h) [
  | inl (same, q) ↦ absurd (omega (arith, q))
  | inr (m, q, g) ↦ index_of-drop u d j l (g ∙ ap some (omega (arith, q)))
]

module _ {S : Type 0} (redis : Redis UserContestMetadata S) (s : S) (c : String)
    (consistent : (u : String) → IsConsistentAt redis s c u) where
  abbrev HasScores : List (String × ℤ) → Type 0
  HasScores l = All (λ e. redis.zscore s (get_contest_leaderboard_key c) e.0 ≡ some e.1) l

  -- The user's row stands at the user's place.
  abbrev HasRowAt : String → ℕ → ℕ → Fetched (List LeaderboardRow) → Type 0
  HasRowAt u i j r =
      (rows : List LeaderboardRow) × (m : UserContestMetadata) × (r ≡ fetched rows)
      × (get_elem? rows j ≡ some (row_of (pos (i + j)) u m))
      × (stored redis s c u ≡ some m)

  live_rows-HasRowAt :
      (u : String) (i size j : ℕ) (l : List (String × ℤ))
      → HasScores l
      → index_of u l ≡ some j
      → j < size
      → HasRowAt u i j (live_rows redis s c (pos i) (take size l))
  unfolding live_rows
  live_rows-HasRowAt u i zero j l h e p = absurd (omega (arith, p))
  live_rows-HasRowAt u i (suc size) j [] h e p = cc
  live_rows-HasRowAt u i (suc size) j ((v, x) ∷ l) (score, h) e p =
      let (m, has, _) =
        has_metadata redis s c consistent v x (stored redis s c v) (sym score ∙ consistent v) in
      let next : pos i +ℤ pos 1 ≡ pos (suc i) = omega int_laws in
      rw (has, next)
        (elim (index_of-cases u v x l j e) [
          | inl (same, q) ↦
              let (rows, shown, _) =
                live_rows-IsShownBy redis s c consistent (suc i) (take size l)
                  (All-take _ size l h) in
              (
                row_of (pos i) v m ∷ rows,
                m,
                rw shown refl,
                ap (get_elem? (row_of (pos i) v m ∷ rows)) q
                    ∙ ap (λ w. some (row_of (pos i) w m)) same
                    ∙ ap (λ n. some (row_of (pos n) u m)) (omega (arith, q)),
                ap (stored redis s c) (sym same) ∙ has,
              )
          | inr (k, q, g) ↦
              let (rows, n, fetches, here, is) =
                live_rows-HasRowAt u (suc i) size k l h g (omega (arith, q, p)) in
              (
                row_of (pos i) v m ∷ rows,
                n,
                rw fetches refl,
                ap (get_elem? (row_of (pos i) v m ∷ rows)) q
                    ∙ here
                    ∙ ap (λ a. some (row_of (pos a) u n)) (omega (arith, q)),
                is,
              )
        ])

  own_row :
      (u : String) (n : ℕ) (m : UserContestMetadata) (fallback : Option LeaderboardRow)
      → live_row (some n) u (some m) fallback
        ≡ (if eqb n 0 then fallback else some (row_of (pos (n + 1)) u m))
  own_row u zero m fallback = refl
  own_row u (suc n) m fallback = ground arith

  -- A slice with a member is not left to the database.
  rows_or_null-member :
      (u : String) (j size : ℕ) (l : List (String × ℤ)) (r : Fetched (List LeaderboardRow))
      (rows : List LeaderboardRow)
      → index_of u l ≡ some j
      → j < size
      → r ≡ fetched rows
      → rows_or_null (take size l) r ≡ fetched (some rows)
  rows_or_null-member u j zero l r rows e p h = absurd (omega (arith, p))
  rows_or_null-member u j (suc size) [] r rows e p h = cc
  rows_or_null-member u j (suc size) (v ∷ l) r rows e p h = rw h refl

  -- While the sorted set and the metadata agree, the own row of a ranked user who is not the first is the row that the
  -- live pages show for the user: on the page of any positive size that the user's place is on, at that place. For the first
  -- the page has a row as well, but the own row is what the database has for the user.
  pub get_user_leaderboard_row-page :
      (db : Database) (u : String) (n k j size : ℕ)
      → index_of u (redis.ranking s (get_contest_leaderboard_key c)) ≡ some n
      → n ≡ k * size + j
      → j < size
      → (rows : List LeaderboardRow) × (row : LeaderboardRow) × (get_leaderboard_page_from_redis
            redis s c
            (pos (suc k))
            size
          ≡ fetched (some rows))
        × (get_elem? rows j ≡ some row)
        × (row.user_id ≡ u)
        × (get_user_leaderboard_row redis db s c u
            ≡ (if eqb n 0 then user_row_from_db db c u else some row))
  unfolding get_user_leaderboard_row
  get_user_leaderboard_row-page db u n k j size e q p =
      let key = get_contest_leaderboard_key c in
      let slice = drop (k * size) (redis.ranking s key) in
      let scores = All-drop _ (k * size) (redis.ranking s key) (redis.ranking-zscore s key) in
      let at : index_of u slice ≡ some j =
        index_of-drop u (k * size) j (redis.ranking s key) (e ∙ ap some q) in
      let (rows, m, fetches, here, is) =
        live_rows-HasRowAt u (suc (k * size)) size j slice scores at p in
      let from_db = user_row_from_db db c u in
      let place : suc (k * size) + j ≡ n + 1 = omega (arith, q) in
      (
        rows,
        row_of (pos (n + 1)) u m,
        get_leaderboard_page_from_redis_lem redis s c consistent k size (omega (arith, p))
            ∙ rows_or_null-member u j size slice _ rows at p fetches,
        here ∙ ap (λ a. some (row_of (pos a) u m)) place,
        refl,
        ap (λ o. live_row o u (stored redis s c u) from_db) (redis.zrev_rank-ranking s key u ∙ e)
            ∙ ap (λ o. live_row (some n) u o from_db) is
            ∙ own_row u n m from_db,
      )
