-- ===== src/Leaderboard/Freeze/Atomicity.antt =====
-- The transaction of services/freeze.service.ts is stored as a whole or not at all.
use mathlib.Core.Path.{fun_ext}
use mathlib.Core.List.{append-nil, append_assoc}
use judge_self.Common.{
  ℕ, suc, String, ◌≡◌, refl, sym, ap, ◌⊎◌, inl, inr, Bool, true, false, List, [], ◌∷◌, ◌++◌,
  Bool-cases,
}
use judge_self.Common.Int.{ℤ}
use judge_self.Database.{Database, ResultRow}
use judge_self.Redis.{Redis}
use judge_self.Leaderboard.Types.{UserContestMetadata}
use judge_self.Leaderboard.Live.Keys.{get_contest_leaderboard_key, get_contest_metadata_key}
use judge_self.Leaderboard.Freeze.{
  RatedRow, Standing, standings, result_row, result_rows, frozen_database, rated_rows,
}
use judge_self.Leaderboard.Freeze.Transaction.{
  Stage, World, Action, proceed, ◌>>◌, delete_results, insert_result, set_frozen, call, query,
  insert_all, write_results, commit_transaction, free_keys, freeze_body, catch,
  execute_contest_hard_freeze,
}

module _ {S : Type 0} where
  -- An action that returns has written `f` to the transaction and nothing else; one that throws has
  -- changed nothing outside the transaction.
  abbrev Ends : (Database → Database) → World S → Bool × World S → Type 0
  Ends f w (true, w') = w' ≡ record w { working = f w.working }
  Ends f w (false, w') = (w'.committed ≡ w.committed) × (w'.store ≡ w.store)

  pub record Writes (f : Database → Database) (m : Action S) : Type 0 where
    pub at : (w : World S) → Ends f w (m w)

  Ends-proceed :
      (f g : Database → Database) (w : World S) (r : Bool × World S) (k : Action S)
      → Ends f w r
      → Writes g k
      → Ends (λ d. g (f d)) w (proceed r k)
  Ends-proceed f g w (false, w') k e h = e
  Ends-proceed f g w (true, w') k e h =
      rw e (go (k (record w { working = f w.working })) (h.at (record w { working = f w.working })))
    where
      go :
          (r : Bool × World S)
          → Ends g (record w { working = f w.working }) r
          → Ends (λ d. g (f d)) w r
      go (true, v) q = q
      go (false, v) q = q

  Writes-bind :
      (f g : Database → Database) (m k : Action S)
      → Writes f m
      → Writes g k
      → Writes (λ d. g (f d)) (m >> k)
  Writes-bind f g m k a b = record { at = λ w. Ends-proceed f g w (m w) k (a.at w) b }

abbrev append_results : List ResultRow → Database → Database
append_results rs db = record db { contest_results = db.contest_results ++ rs }

append_results-cons :
    (r : ResultRow) (rs : List ResultRow)
    → ◌≡◌ {A = Database → Database}
        (λ d. append_results rs (insert_result r d))
        (append_results (r ∷ rs))
append_results-cons r rs = fun_ext λ d.
    ap (λ (l : List ResultRow). record d { contest_results = l })
      (append_assoc d.contest_results (r ∷ []) rs)

module _ {S : Type 0} (fails : Stage → Bool) where
  Writes-query : (stage : Stage) (f : Database → Database) → Writes {S = S} f (query fails stage f)
  unfolding query
  Writes-query stage f = record {
    at = λ w. elim (Bool-cases (fails stage)) [ inl e ↦ rw e (refl, refl) | inr e ↦ rw e ];
  }

  Writes-insert_all :
      (contest_id : String) (i : ℕ) (es : List Standing)
      → Writes {S = S}
          (append_results (result_rows contest_id i es))
          (insert_all fails contest_id i es)
  unfolding insert_all result_rows
  Writes-insert_all c i [] = record {
    at = λ w.
        ap
          (λ (rs : List ResultRow). record w {
            working = record w.working { contest_results = rs };
          })
          (sym (append-nil w.working.contest_results));
  }
  Writes-insert_all c i (e ∷ es) =
      rw (← append_results-cons (result_row c i e) (result_rows c (suc i) es)) (
        Writes-bind (insert_result (result_row c i e)) (append_results (result_rows c (suc i) es))
          (query fails (Stage.insert i) (insert_result (result_row c i e)))
          (insert_all fails c (suc i) es)
          (Writes-query (Stage.insert i) (insert_result (result_row c i e)))
          (Writes-insert_all c (suc i) es))

  -- The statements together write the frozen database.
  Writes-write_results :
      (contest_id : String) (rows : List RatedRow)
      → Writes {S = S} (frozen_database contest_id rows) (write_results fails contest_id rows)
  unfolding write_results frozen_database
  Writes-write_results c rows =
      Writes-bind (delete_results c)
        (λ d. set_frozen c (append_results (result_rows c 0 (standings rows)) d))
        (query fails Stage.delete (delete_results c))
        (insert_all fails c 0 (standings rows) >> query fails Stage.update (set_frozen c))
        (Writes-query Stage.delete (delete_results c))
        (Writes-bind (append_results (result_rows c 0 (standings rows))) (set_frozen c)
          (insert_all fails c 0 (standings rows)) (query fails Stage.update (set_frozen c))
          (Writes-insert_all c 0 (standings rows)) (Writes-query Stage.update (set_frozen c)))

module _ {S : Type 0} (redis : Redis UserContestMetadata S) (seconds_between : ℤ → ℤ → ℤ)
    (fails : Stage → Bool) (contest_id : String) where
  abbrev pub frozen : Database → Database
  frozen db = frozen_database contest_id (rated_rows seconds_between db contest_id) db

  abbrev pub without_keys : S → S
  without_keys s =
      redis.unlink s
        (get_contest_metadata_key contest_id ∷ get_contest_leaderboard_key contest_id ∷ [])

  -- What is visible in the end: everything, or the committed results with the keys still in Redis, or
  -- the old state.
  abbrev pub Visible : World S → Bool × World S → Type 0
  Visible w (true, w') = (w'.committed ≡ frozen w.committed) × (w'.store ≡ without_keys w.store)
  Visible w (false, w') =
      (w'.store ≡ w.store)
      × ((w'.committed ≡ w.committed)
          ⊎ ((fails Stage.unlink ≡ true) × (w'.committed ≡ frozen w.committed)))

  commit_and_free : Action S
  commit_and_free =
      commit_transaction redis seconds_between fails
      >> free_keys redis seconds_between fails contest_id

  commit_and_free-Visible :
      (w : World S) (r : Bool × World S)
      → Ends
          (frozen_database contest_id (rated_rows seconds_between w.committed contest_id))
          (record w { working = w.committed })
          r
      → Visible w (proceed r commit_and_free)
  unfolding commit_and_free call
  commit_and_free-Visible w (false, w') e = (e.1, inl e.0)
  commit_and_free-Visible w (true, w') e = rw e (elim (Bool-cases (fails Stage.commit)) [
    | inl c ↦ rw c (refl, inl refl)
    | inr c ↦ elim (Bool-cases (fails Stage.unlink)) [
      | inl u ↦ rw (c, u) (refl, inr (u, refl))
      | inr u ↦ rw (c, u) (refl, refl)
    ]
  ])

  freeze_body-Visible :
      (w : World S) → Visible w (freeze_body redis seconds_between fails contest_id w)
  unfolding freeze_body call commit_and_free
  freeze_body-Visible w = elim (Bool-cases (fails Stage.begin)) [
    | inl b ↦ rw b (refl, inl refl)
    | inr b ↦ elim (Bool-cases (fails Stage.select)) [
      | inl s ↦ rw (b, s) (refl, inl refl)
      | inr s ↦
          rw (b, s)
            (commit_and_free-Visible w
              (write_results fails contest_id (rated_rows seconds_between w.committed contest_id)
                (record w { working = w.committed }))
              ((Writes-write_results fails contest_id
                  (rated_rows seconds_between w.committed contest_id)).at
                (record w { working = w.committed })))
    ]
  ]

  catch-Visible :
      (w : World S) (r : Bool × World S)
      → Visible w r
      → Visible w (catch redis seconds_between fails r)
  catch-Visible w (true, w') h = h
  catch-Visible w (false, w') h = h

  -- A freeze that returns has stored the results of the contest and its flag, computed from the
  -- committed submissions, and has removed the contest's two keys from Redis. One that throws has left
  -- Redis as it was, and the database too, unless it is the removal of the keys that failed: then the
  -- results are stored all the same.
  pub execute_contest_hard_freeze-Visible :
      (w : World S)
      → Visible w (execute_contest_hard_freeze redis seconds_between fails contest_id w)
  unfolding execute_contest_hard_freeze
  execute_contest_hard_freeze-Visible w = elim (Bool-cases (fails Stage.connect)) [
    | inl c ↦ rw c (refl, inl refl)
    | inr c ↦ rw c (
        catch-Visible w (freeze_body redis seconds_between fails contest_id w)
          (freeze_body-Visible w))
  ]
