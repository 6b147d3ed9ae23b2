-- ===== src/Leaderboard/Consumer/Delivery.antt =====
-- No message is lost by the consumer of tasks/rabbitmq.task.ts.
use mathlib.Core.Path.{subst}
use judge_self.Common.{◌≡◌, sym, ◌⊎◌, inl, inr, true, List, [], ◌∷◌, ◌++◌, map, Bool-cases}
use judge_self.Redis.{Redis}
use judge_self.Leaderboard.Types.{UserContestMetadata, QueueMessage}
use judge_self.Leaderboard.Live.{is_processed, run_script, write_score}
use judge_self.Leaderboard.Live.Effect.{
  is_for, is_for-eq, metadata, script-stored_self, script-stored_other, write_score-stored,
}
use judge_self.Leaderboard.Live.Consistency.{apply_verdict-keeps, apply_verdict-processes}
use judge_self.Leaderboard.Consumer.{
  Broker, Step, publish, script, reply_lost, ack, nack, ack_lost, crash, Reach, here, next, started,
}

-- The message stands in the list.
abbrev pub Occurs : QueueMessage → List QueueMessage → Type 0
Occurs v [] = ⊥
Occurs v (w ∷ ws) = (w ≡ v) ⊎ Occurs v ws

Occurs-append : (v : QueueMessage) (ws us : List QueueMessage) → Occurs v ws → Occurs v (ws ++ us)
Occurs-append v [] us h = absurd h
Occurs-append v (w ∷ ws) us (inl e) = inl e
Occurs-append v (w ∷ ws) us (inr h) = inr (Occurs-append v ws us h)

Occurs-insert :
    (v w : QueueMessage) (l r : List QueueMessage)
    → Occurs v (l ++ w ∷ r)
    → (w ≡ v) ⊎ Occurs v (l ++ r)
Occurs-insert v w [] r h = h
Occurs-insert v w (x ∷ l) r (inl e) = inr (inl e)
Occurs-insert v w (x ∷ l) r (inr h) = go (Occurs-insert v w l r h)
  where
    go : (w ≡ v) ⊎ Occurs v (l ++ r) → (w ≡ v) ⊎ Occurs v (x ∷ (l ++ r))
    go (inl e) = inl e
    go (inr h) = inr (inr h)

module _ {S : Type 0} (redis : Redis UserContestMetadata S) (v : QueueMessage) where
  -- The submission is counted for its user.
  abbrev pub IsCounted : S → Type 0
  IsCounted s = is_processed v.submission_id (metadata redis s v.contest_id v.user_id) ≡ true

  abbrev pub IsKept : Broker S → Type 0
  IsKept st = Occurs v st.waiting ⊎ IsCounted st.store

  run_script-IsCounted_self : (s : S) → IsCounted (run_script redis s v).0
  run_script-IsCounted_self s =
      rw (script-stored_self redis s v)
        (apply_verdict-processes (metadata redis s v.contest_id v.user_id) v)

  run_script-IsCounted :
      (s : S) (w : QueueMessage) → IsCounted s → IsCounted (run_script redis s w).0
  run_script-IsCounted s w h = elim (Bool-cases (is_for v.contest_id v.user_id w)) [
    | inl e ↦
        let (ec, eu) = is_for-eq v.contest_id v.user_id w e in
        let old : is_processed v.submission_id (metadata redis s w.contest_id w.user_id) ≡ true =
          rw (ec, eu) h in
        rw (← ec, ← eu, script-stored_self redis s w)
          (apply_verdict-keeps v.submission_id (metadata redis s w.contest_id w.user_id) w old)
    | inr e ↦ rw (script-stored_other redis s w v.contest_id v.user_id e) h
  ]

  written-IsCounted :
      (s : S) (w : QueueMessage) (m : UserContestMetadata)
      → IsCounted s
      → IsCounted (write_score redis s w m)
  written-IsCounted s w m h = rw (write_score-stored redis s w m v.contest_id v.user_id) h

  started-IsKept :
      (st : Broker S) (l : List QueueMessage) (w : QueueMessage) (r : List QueueMessage)
      → st.waiting ≡ l ++ w ∷ r
      → IsKept st
      → IsKept (started redis st l w r)
  started-IsKept st l w r e (inr h) = inr (run_script-IsCounted st.store w h)
  started-IsKept st l w r e (inl h) = go (Occurs-insert v w l r (subst (Occurs v) e h))
    where
      go : (w ≡ v) ⊎ Occurs v (l ++ r) → IsKept (started redis st l w r)
      go (inl same) = inr (rw same (run_script-IsCounted_self st.store))
      go (inr h) = inl h

  more-IsKept :
      (st : Broker S) (ws : List QueueMessage)
      → IsKept st
      → IsKept (record st { waiting = st.waiting ++ ws })
  more-IsKept st ws (inl h) = inl (Occurs-append v st.waiting ws h)
  more-IsKept st ws (inr h) = inr h

  Step-IsKept : (st st' : Broker S) → Step redis st st' → IsKept st → IsKept st'
  Step-IsKept st st' (publish w e) h = subst IsKept (sym e) (more-IsKept st (w ∷ []) h)
  Step-IsKept st st' (script l w r p e) h = subst IsKept (sym e) (started-IsKept st l w r p h)
  Step-IsKept st st' (reply_lost l w r p e) (inl h) = subst IsKept (sym e) (inl h)
  Step-IsKept st st' (reply_lost l w r p e) (inr h) =
      subst IsKept (sym e) (inr (run_script-IsCounted st.store w h))
  Step-IsKept st st' (ack w m rest p e) (inl h) = subst IsKept (sym e) (inl h)
  Step-IsKept st st' (ack w m rest p e) (inr h) =
      subst IsKept (sym e) (inr (written-IsCounted st.store w m h))
  Step-IsKept st st' (nack w m rest p e) h = subst IsKept (sym e) (more-IsKept st (w ∷ []) h)
  Step-IsKept st st' (ack_lost w m rest p e) (inl h) =
      subst IsKept (sym e) (inl (Occurs-append v st.waiting (w ∷ []) h))
  Step-IsKept st st' (ack_lost w m rest p e) (inr h) =
      subst IsKept (sym e) (inr (written-IsCounted st.store w m h))
  Step-IsKept st st' (crash e) h =
      subst IsKept (sym e) (more-IsKept st (map (λ e. e.0) st.running) h)

  -- A published message either still waits to be delivered or its submission is counted in the metadata of
  -- its user, in every state that the queue and the consumer can reach from there, whatever fails.
  pub Reach-IsKept :
      (st : Broker S) {st' : Broker S} → Occurs v st.waiting → Reach redis st st' → IsKept st'
  Reach-IsKept st h here = inl h
  Reach-IsKept st h (next r step) = Step-IsKept _ _ step (Reach-IsKept st h r)
