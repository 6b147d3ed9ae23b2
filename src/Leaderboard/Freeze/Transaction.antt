-- ===== src/Leaderboard/Freeze/Transaction.antt =====
-- `executeContestHardFreeze` of leaderboard-service/src/services/freeze.service.ts, step by step,
-- with its error path. Which of the awaited calls fails is an argument; what a transaction has
-- written is visible once it is committed.
use judge_self.Common.{
  ℕ, suc, String, Bool, true, false, not, List, [], ◌∷◌, ◌++◌, ◌==◌, keep, map, if◌then◌else◌,
}
use judge_self.Common.Int.{ℤ}
use judge_self.Database.{Database, ResultRow}
use judge_self.Redis.{Redis}
use judge_self.Leaderboard.Types.{UserContestMetadata}
use judge_self.Leaderboard.Live.Keys.{get_contest_leaderboard_key, get_contest_metadata_key}
use judge_self.Leaderboard.Freeze.{
  RatedRow, Standing, standings, result_row, mark_frozen, rated_rows,
}

-- The calls that may fail, in the order of the source.
pub data Stage : Type 0 where
  connect begin select delete : Stage
  insert : ℕ → Stage
  update commit unlink : Stage

-- The database as others see it and as the transaction sees it, and Redis.
pub record World (S : Type 0) : Type 0 where
  pub committed : Database
  pub working : Database
  pub store : S

-- A call returns (`true`) or throws (`false`), and leaves a world in either case.
abbrev pub Action : Type 0 → Type 0
Action S = World S → Bool × World S

module _ {S : Type 0} where
  -- The next statement runs if this one returned.
  abbrev pub proceed : Bool × World S → Action S → Bool × World S
  proceed (true, w) k = k w
  proceed (false, w) k = (false, w)

  infixr 10 ◌>>◌
  abbrev pub ◌>>◌ : Action S → Action S → Action S
  ◌>>◌ m k w = proceed (m w) k

abbrev pub delete_results : String → Database → Database
delete_results contest_id db = record db {
  contest_results = keep (λ r. not (r.contest_id == contest_id)) db.contest_results;
}

abbrev pub insert_result : ResultRow → Database → Database
insert_result r db = record db { contest_results = db.contest_results ++ r ∷ [] }

abbrev pub set_frozen : String → Database → Database
set_frozen contest_id db = record db { contests = map (mark_frozen contest_id) db.contests }

module _ {S : Type 0} (fails : Stage → Bool) where
  unfoldable pub call : Stage → (World S → World S) → Action S
  call stage effect w = if fails stage then (false, w) else (true, effect w)

  -- `client.query` of a statement that writes
  unfoldable pub query : Stage → (Database → Database) → Action S
  unfolding call
  query stage f = call stage (λ w. record w { working = f w.working })

  -- The loop of INSERTs.
  unfoldable pub insert_all : String → ℕ → List Standing → Action S
  insert_all contest_id i [] w = (true, w)
  insert_all contest_id i (entry ∷ rest) w =
      proceed (query (insert i) (insert_result (result_row contest_id i entry)) w)
        (insert_all contest_id (suc i) rest)

  unfoldable pub write_results : String → List RatedRow → Action S
  write_results contest_id rows =
      query delete (delete_results contest_id)
      >> insert_all contest_id 0 (standings rows)
      >> query update (set_frozen contest_id)

module _ {S : Type 0} (redis : Redis UserContestMetadata S) (seconds_between : ℤ → ℤ → ℤ)
    (fails : Stage → Bool) where
  abbrev pub start_transaction : Action S
  start_transaction = call fails begin (λ w. record w { working = w.committed })

  abbrev pub commit_transaction : Action S
  commit_transaction = call fails commit (λ w. record w { committed = w.working })

  abbrev pub free_keys : String → Action S
  free_keys contest_id = call fails unlink (λ w. record w {
    store =
        redis.unlink w.store
          (get_contest_metadata_key contest_id ∷ get_contest_leaderboard_key contest_id ∷ []);
  })

  -- The first query, whose rows the statements after it use.
  abbrev pub write_from_rows : String → Action S
  write_from_rows contest_id w =
      proceed (call fails select (λ v. v) w)
        (write_results fails contest_id (rated_rows seconds_between w.working contest_id))

  -- The body of the `try`.
  unfoldable pub freeze_body : String → Action S
  freeze_body contest_id =
      start_transaction >> write_from_rows contest_id >> commit_transaction >> free_keys contest_id

  -- ROLLBACK, in the `catch`
  abbrev pub rollback : World S → World S
  rollback w = record w { working = w.committed }

  abbrev pub catch : Bool × World S → Bool × World S
  catch (true, w) = (true, w)
  catch (false, w) = (false, rollback w)

  unfoldable pub execute_contest_hard_freeze : String → Action S
  unfolding freeze_body
  execute_contest_hard_freeze contest_id w =
      if fails connect then (false, w) else catch (freeze_body contest_id w)
