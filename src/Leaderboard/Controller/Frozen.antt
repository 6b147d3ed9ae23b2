-- ===== src/Leaderboard/Controller/Frozen.antt =====
-- What the leaderboard shows after a contest was recalculated (leaderboard-service/src/http/controller.ts).
use mathlib.Core.Path.{subst}
use judge_self.Common.{
  ℕ, zero, suc, ◌+◌, ◌*◌, ◌-◌, String, ◌≡◌, refl, ap, ◌∙◌, inl, inr, Bool, true, false, not, none,
  some, List, [], ◌∷◌, ◌==◌, map, keep, find_first, count_if, count_if-append, length, take, drop,
  All, eq_refl, arith, Bool-cases, if◌then◌else◌,
}
use judge_self.Common.Int.{ℤ, pos, ◌+ℤ◌, ◌-ℤ◌, int_laws}
use judge_self.Common.Paging.{page, ceil_div}
use judge_self.Database.{Database, ResultRow, ContestRow, contest_by_id}
use judge_self.Redis.{Redis}
use judge_self.Leaderboard.Types.{UserContestMetadata}
use judge_self.Leaderboard.Live.Keys.{get_contest_leaderboard_key, get_contest_metadata_key}
use judge_self.Leaderboard.Freeze.{
  Standing, standings, result_rows, rated_rows, mark_frozen, frozen_database,
}
use judge_self.Leaderboard.Freeze.Transaction.{Stage, World, execute_contest_hard_freeze}
use judge_self.Leaderboard.Freeze.Atomicity.{
  frozen, without_keys, Visible, execute_contest_hard_freeze-Visible,
}
use judge_self.Leaderboard.Board.{
  selected, is_result_of, start_index, Leaderboard, frozen as frozen_rows, fetched, found,
  get_leaderboard_page, get_leaderboard_page_from_redis, get_total_leaderboard_entries,
}
use judge_self.Leaderboard.Board.FrozenPage.{start_index-suc, get_leaderboard_page_from_db-frozen}
use judge_self.Leaderboard.Controller.{
  Param, first_value, reply, leaderboard, page_number, get_leaderboard, force_recalculate_contest,
  freeze_reply,
}

count_none :
    (c : String) (rs : List ResultRow)
    → count_if (is_result_of c) (keep (λ r. not (is_result_of c r)) rs) ≡ 0
count_none c [] = refl
count_none c (r ∷ rs) = elim (Bool-cases (is_result_of c r)) [
  | inl e ↦ rw e (count_none c rs)
  | inr e ↦ rw e (rw e (count_none c rs))
]

count_all :
    (c : String) (i : ℕ) (es : List Standing)
    → count_if (is_result_of c) (result_rows c i es) ≡ length es
unfolding result_rows
count_all c i [] = refl
count_all c i (e ∷ es) = rw (eq_refl c) (ap suc (count_all c (suc i) es))

module _ {S : Type 0} (redis : Redis UserContestMetadata S) (seconds_between : ℤ → ℤ → ℤ)
    (fails : Stage → Bool) (c : String) where
  abbrev board : Database → List Standing
  board db = standings (rated_rows seconds_between db c)

  abbrev after : Database → Database
  after db = frozen redis seconds_between fails c db

  abbrev emptied : S → S
  emptied s = without_keys redis seconds_between fails c s

  count-after :
      (db : Database) → count_if (is_result_of c) (after db).contest_results ≡ length (board db)
  unfolding frozen_database
  count-after db =
      let old = keep (λ r. not (is_result_of c r)) db.contest_results in
      let new = result_rows c 0 (board db) in
      count_if-append (is_result_of c) old new
      ∙ omega (arith, count_none c db.contest_results, count_all c 0 (board db))

  -- The set of the contest is empty once its key is removed.
  no_ranking : (s : S) → redis.ranking (emptied s) (get_contest_leaderboard_key c) ≡ []
  no_ranking s = go (redis.ranking (emptied s) key) (redis.ranking-zscore (emptied s) key)
    where
      key : String
      key = get_contest_leaderboard_key c

      go :
          (es : List (String × ℤ))
          → All (λ e. redis.zscore (emptied s) key e.0 ≡ some e.1) es
          → es ≡ []
      go [] h = refl
      go ((m, x) ∷ es) (h, hs) =
          let gone = redis.zscore-unlink s (get_contest_metadata_key c ∷ key ∷ []) key m in
          absurd (ground (arith, gone, h, eq_refl key))

  take-nil : (n m : ℕ) → take n (drop {A = String × ℤ} m []) ≡ []
  take-nil zero zero = refl
  take-nil zero (suc m) = refl
  take-nil (suc n) zero = refl
  take-nil (suc n) (suc m) = refl

  range-empty :
      (s : S) (k : ℕ)
      → redis.zrange_rev
          (emptied s)
          (get_contest_leaderboard_key c)
          (start_index (pos (suc k)) 50)
          (start_index (pos (suc k)) 50 +ℤ pos 50 -ℤ pos 1)
        ≡ []
  range-empty s k =
      let key = get_contest_leaderboard_key c in
      let end_index : pos (k * 50) +ℤ pos 50 -ℤ pos 1 ≡ pos (k * 50 + 49) = omega int_laws in
      rw (start_index-suc k 50, end_index)
        (redis.zrange_rev-ranking (emptied s) key (k * 50) (k * 50 + 49)
          ∙ ap (λ es. take (suc (k * 50 + 49) - k * 50) (drop (k * 50) es)) (no_ranking s)
          ∙ take-nil (suc (k * 50 + 49) - k * 50) (k * 50))

  no_live_page :
      (s : S) (k : ℕ)
      → get_leaderboard_page_from_redis redis (emptied s) c (pos (suc k)) 50 ≡ fetched none
  unfolding get_leaderboard_page_from_redis
  no_live_page s k = rw (range-empty s k) refl

  find-marked :
      (cs : List ContestRow) (x : ContestRow)
      → find_first (λ r. r.id == c) cs ≡ some x
      → (y : ContestRow) × (find_first (λ r. r.id == c) (map (mark_frozen c) cs) ≡ some y)
  find-marked [] x h = cc
  find-marked (r ∷ cs) x h = elim (Bool-cases (r.id == c)) [
    | inl e ↦ (record r { leaderboard_frozen = true }, rw (e, e) refl)
    | inr e ↦
        let (y, p) =
          find-marked cs x
            (subst (λ b. (if b then some r else find_first (λ r. r.id == c) cs) ≡ some x) e h) in
        (y, rw (e, e) p)
  ]

  total-after :
      (db : Database) (s : S)
      → get_total_leaderboard_entries redis (after db) (emptied s) c ≡ length (board db)
  unfolding get_total_leaderboard_entries
  total-after db s =
      let none_live : redis.zcard (emptied s) (get_contest_leaderboard_key c) ≡ 0 =
        redis.zcard-ranking (emptied s) (get_contest_leaderboard_key c)
        ∙ ap length (no_ranking s) in
      rw none_live (count-after db)

  -- The page of the standings that were just stored.
  abbrev pub page_of_standings : Database → ℕ → Leaderboard
  page_of_standings db k = record {
    leaderboard = frozen_rows (map selected (page 50 k (result_rows c 0 (board db))));
    current_page = pos (suc k);
    total_pages = ceil_div (length (board db)) 50;
    total_participants = length (board db);
  }

  page-after :
      (db : Database) (s : S) (k : ℕ) (contest : ContestRow)
      → contest_by_id db c ≡ some contest
      → get_leaderboard_page redis (after db) (emptied s) c (pos (suc k)) 50
        ≡ fetched (found (page_of_standings db k))
  unfolding get_leaderboard_page frozen_database
  page-after db s k contest h =
      let (y, still) = find-marked db.contests contest h in
      rw
        (
          no_live_page s k,
          still,
          total-after db s,
          get_leaderboard_page_from_db-frozen c (rated_rows seconds_between db c) db k 50,
        )
        refl

  get-after :
      (w : World S) (p : Bool × World S) (contest_id page : Param) (k : ℕ) (contest : ContestRow)
      → first_value contest_id ≡ c
      → Visible redis seconds_between fails c w p
      → (freeze_reply redis seconds_between fails p).1.status ≡ 200
      → page_number (first_value page) ≡ some (pos (suc k))
      → contest_by_id w.committed c ≡ some contest
      → get_leaderboard redis seconds_between fails
          (freeze_reply redis seconds_between fails p).0
          contest_id
          page
        ≡ reply 200 (leaderboard (page_of_standings w.committed k))
  unfolding get_leaderboard
  get-after w (false, v) contest_id page k contest ec visible ok number exists =
      absurd (omega (arith, ok))
  get-after w (true, v) contest_id page k contest ec (committed, store) ok number exists =
      rw (ec, number, committed, store, page-after w.committed w.store k contest exists) refl

-- If the recalculation of a contest that the database has is answered with success, then a page of its
-- leaderboard with a positive number that is asked for next shows the part of the standings that belongs to
-- its number, computed from the submissions as they were committed, with the number of all participants.
pub force_recalculate_contest-get_leaderboard :
    {S : Type 0} (redis : Redis UserContestMetadata S) (seconds_between : ℤ → ℤ → ℤ)
    (fails : Stage → Bool) (w : World S) (contest_id page : Param) (k : ℕ) (contest : ContestRow)
    → (force_recalculate_contest redis seconds_between fails w contest_id).1.status ≡ 200
    → page_number (first_value page) ≡ some (pos (suc k))
    → contest_by_id w.committed (first_value contest_id) ≡ some contest
    → get_leaderboard redis seconds_between fails
        (force_recalculate_contest redis seconds_between fails w contest_id).0
        contest_id
        page
      ≡ reply 200 (
          leaderboard
            (page_of_standings redis seconds_between fails (first_value contest_id) w.committed k))
unfolding force_recalculate_contest
force_recalculate_contest-get_leaderboard redis seconds_between fails w contest_id page k contest ok
      number exists =
    let c = first_value contest_id in
    get-after redis seconds_between fails c w
      (execute_contest_hard_freeze redis seconds_between fails c w) contest_id page k contest refl
      (execute_contest_hard_freeze-Visible redis seconds_between fails c w) ok number exists
