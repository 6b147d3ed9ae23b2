-- ===== src/Leaderboard/Consumer/Agreement.antt =====
-- The scores of the sorted set, when the consumer of tasks/rabbitmq.task.ts has nothing left to do for a
-- user, whatever went wrong before.
use mathlib.Core.Path.{subst}
use judge_self.Common.{
  String, ◌≡◌, refl, sym, ap, ◌∙◌, Bool, true, false, Option, none, some, List, [], ◌∷◌, ◌++◌, any,
  map,
}
use judge_self.Redis.{Redis}
use judge_self.Leaderboard.Types.{UserContestMetadata, QueueMessage}
use judge_self.Leaderboard.Live.{run_script}
use judge_self.Leaderboard.Live.Effect.{
  is_for, is_for-eq, stored, score_in, script-result, script-stored_self, script-stored_other,
  script-score, write_score-stored, write_score-score_in,
}
use judge_self.Leaderboard.Live.Consistency.{IsConsistentAt, expected_score}
use judge_self.Leaderboard.Consumer.{
  Broker, Step, publish, script, reply_lost, ack, nack, ack_lost, crash, Reach, here, next, started,
  written,
}
use judge_self.Leaderboard.Consumer.Replies.{
  any-append_left, any-append_right, Running, last_reply, later, if_for, none-ne-some,
  any-of_last_reply, last_reply-other, last_reply_self, waits-rest, waits_self, last_reply-cons,
  last_reply-tail, last_reply-none,
}

module _ {S : Type 0} (redis : Redis UserContestMetadata S) (c u : String) where
  -- Why the score of the user agrees with the metadata, or will.
  pub data IsOnTheWay (st : Broker S) : Type 0 where
    waits : any (is_for c u) st.waiting ≡ true → IsOnTheWay st
    replied :
        (m : UserContestMetadata)
        → last_reply c u st.running ≡ some m
        → stored redis st.store c u ≡ some m
        → IsOnTheWay st
    settled : last_reply c u st.running ≡ none → IsConsistentAt redis st.store c u → IsOnTheWay st

  unchanged :
      (s s' : S)
      → stored redis s' c u ≡ stored redis s c u
      → score_in redis s' c u ≡ score_in redis s c u
      → IsConsistentAt redis s c u
      → IsConsistentAt redis s' c u
  unchanged s s' p q h = q ∙ h ∙ ap expected_score (sym p)

  -- What the script leaves for the user of its message.
  script-replied :
      (s : S) (v : QueueMessage)
      → is_for c u v ≡ true
      → stored redis (run_script redis s v).0 c u ≡ some (run_script redis s v).1
  script-replied s v e =
      let (ec, eu) = is_for-eq c u v e in
      rw (← ec, ← eu) (script-stored_self redis s v ∙ ap some (sym (script-result redis s v)))

  started-IsOnTheWay :
      (st : Broker S) (l : List QueueMessage) (v : QueueMessage) (r : List QueueMessage)
      → st.waiting ≡ l ++ v ∷ r
      → IsOnTheWay st
      → IsOnTheWay (started redis st l v r)
  started-IsOnTheWay st l v r w h = go (is_for c u v) refl h
    where
      go : (b : Bool) → is_for c u v ≡ b → IsOnTheWay st → IsOnTheWay (started redis st l v r)
      go true e h =
          replied (run_script redis st.store v).1
            (last_reply_self c u v (run_script redis st.store v).1 st.running e)
            (script-replied st.store v e)
      go false e (waits p) = waits (waits-rest c u st.waiting l r v w e p)
      go false e (replied m p q) =
          replied m (last_reply-other c u v (run_script redis st.store v).1 st.running e ∙ p)
            (script-stored_other redis st.store v c u e ∙ q)
      go false e (settled p q) =
          settled (last_reply-other c u v (run_script redis st.store v).1 st.running e ∙ p) (
            unchanged st.store (run_script redis st.store v).0
              (script-stored_other redis st.store v c u e) (script-score redis st.store v c u) q)

  reply_lost-IsOnTheWay :
      (st : Broker S) (l : List QueueMessage) (v : QueueMessage) (r : List QueueMessage)
      → st.waiting ≡ l ++ v ∷ r
      → IsOnTheWay st
      → IsOnTheWay (record st { store = (run_script redis st.store v).0 })
  reply_lost-IsOnTheWay st l v r w h = go (is_for c u v) refl h
    where
      go :
          (b : Bool)
          → is_for c u v ≡ b
          → IsOnTheWay st
          → IsOnTheWay (record st { store = (run_script redis st.store v).0 })
      go true e h = waits (waits_self c u st.waiting l r v w e)
      go false e (waits p) = waits p
      go false e (replied m p q) = replied m p (script-stored_other redis st.store v c u e ∙ q)
      go false e (settled p q) = settled p (
          unchanged st.store (run_script redis st.store v).0
            (script-stored_other redis st.store v c u e) (script-score redis st.store v c u) q)

  -- The first reply leaves the list, and its score is written or not.
  abbrev taken : Broker S → Running → S → Broker S
  taken st rest s = record st { running = rest; store = s }

  written-IsOnTheWay :
      (st : Broker S) (v : QueueMessage) (m : UserContestMetadata) (rest : Running)
      → st.running ≡ (v, m) ∷ rest
      → IsOnTheWay st
      → IsOnTheWay (taken st rest (written redis st v m))
  written-IsOnTheWay st v m rest w h = go (last_reply c u rest) refl (is_for c u v) refl h
    where
      same : stored redis (written redis st v m) c u ≡ stored redis st.store c u
      same = write_score-stored redis st.store v m c u

      first : last_reply c u st.running ≡ later (last_reply c u rest) (if_for c u (v, m))
      first = last_reply-cons c u v m rest st.running w

      go :
          (o : Option UserContestMetadata)
          → last_reply c u rest ≡ o
          → (b : Bool) → is_for c u v ≡ b
          → IsOnTheWay st
          → IsOnTheWay (taken st rest (written redis st v m))
      go o eo b eb (waits p) = waits p
      go (some n) eo b eb (replied k p q) = replied n eo (same ∙ q ∙ sym p ∙ first ∙ (rw eo))
      go (some n) eo b eb (settled p q) = absurd (none-ne-some {m = n} p (first ∙ (rw eo)))
      go none eo true eb (replied k p q) =
          let last : stored redis (written redis st v m) c u ≡ some m =
            same ∙ q ∙ sym p ∙ first ∙ (rw (eo, eb)) in
          settled eo
            (write_score-score_in redis st.store v m c u ∙ (rw eb) ∙ sym (ap expected_score last))
      go none eo true eb (settled p q) = absurd (none-ne-some {m = m} p (first ∙ (rw (eo, eb))))
      go none eo false eb (replied k p q) = absurd (none-ne-some (first ∙ (rw (eo, eb))) p)
      go none eo false eb (settled p q) = settled eo (
          unchanged st.store (written redis st v m) same
            (write_score-score_in redis st.store v m c u ∙ (rw eb)) q)

  more-IsOnTheWay :
      (st : Broker S) (vs : List QueueMessage)
      → IsOnTheWay st
      → IsOnTheWay (record st { waiting = st.waiting ++ vs })
  more-IsOnTheWay st vs (waits p) = waits (any-append_left (is_for c u) st.waiting vs p)
  more-IsOnTheWay st vs (replied m p q) = replied m p q
  more-IsOnTheWay st vs (settled p q) = settled p q

  nack-IsOnTheWay :
      (st : Broker S) (v : QueueMessage) (m : UserContestMetadata) (rest : Running)
      → st.running ≡ (v, m) ∷ rest
      → IsOnTheWay st
      → IsOnTheWay (record st { waiting = st.waiting ++ v ∷ []; running = rest })
  nack-IsOnTheWay st v m rest w h = go (is_for c u v) refl h
    where
      go :
          (b : Bool)
          → is_for c u v ≡ b
          → IsOnTheWay st
          → IsOnTheWay (record st { waiting = st.waiting ++ v ∷ []; running = rest })
      go true e h = waits (any-append_right (is_for c u) st.waiting (v ∷ []) (rw e))
      go false e (waits p) = waits (any-append_left (is_for c u) st.waiting (v ∷ []) p)
      go false e (replied k p q) = replied k (last_reply-tail c u v m rest st.running w e ∙ p) q
      go false e (settled p q) = settled (last_reply-tail c u v m rest st.running w e ∙ p) q

  crash-IsOnTheWay :
      (st : Broker S)
      → IsOnTheWay st
      → IsOnTheWay (record st { waiting = st.waiting ++ map (λ e. e.0) st.running; running = [] })
  unfolding last_reply
  crash-IsOnTheWay st (waits p) = waits (any-append_left (is_for c u) st.waiting _ p)
  crash-IsOnTheWay st (replied m p q) =
      waits (any-append_right (is_for c u) st.waiting _ (any-of_last_reply c u st.running m p))
  crash-IsOnTheWay st (settled p q) = settled refl q

  Step-IsOnTheWay : (st st' : Broker S) → Step redis st st' → IsOnTheWay st → IsOnTheWay st'
  Step-IsOnTheWay st st' (publish v e) h = subst IsOnTheWay (sym e) (more-IsOnTheWay st (v ∷ []) h)
  Step-IsOnTheWay st st' (script l v r w e) h =
      subst IsOnTheWay (sym e) (started-IsOnTheWay st l v r w h)
  Step-IsOnTheWay st st' (reply_lost l v r w e) h =
      subst IsOnTheWay (sym e) (reply_lost-IsOnTheWay st l v r w h)
  Step-IsOnTheWay st st' (ack v m rest w e) h =
      subst IsOnTheWay (sym e) (written-IsOnTheWay st v m rest w h)
  Step-IsOnTheWay st st' (nack v m rest w e) h =
      subst IsOnTheWay (sym e) (nack-IsOnTheWay st v m rest w h)
  Step-IsOnTheWay st st' (ack_lost v m rest w e) h = subst IsOnTheWay (sym e) (
      more-IsOnTheWay (taken st rest (written redis st v m)) (v ∷ [])
        (written-IsOnTheWay st v m rest w h))
  Step-IsOnTheWay st st' (crash e) h = subst IsOnTheWay (sym e) (crash-IsOnTheWay st h)

  Reach-IsOnTheWay : {st st' : Broker S} → Reach redis st st' → IsOnTheWay st → IsOnTheWay st'
  Reach-IsOnTheWay here h = h
  Reach-IsOnTheWay (next r step) h = Step-IsOnTheWay _ _ step (Reach-IsOnTheWay r h)

  concluded :
      (st : Broker S)
      → any (is_for c u) st.waiting ≡ false
      → any (is_for c u) (map (λ e. e.0) st.running) ≡ false
      → IsOnTheWay st
      → IsConsistentAt redis st.store c u
  concluded st idle quiet (waits p) = cc
  concluded st idle quiet (replied m p q) =
      absurd (none-ne-some (last_reply-none c u st.running quiet) p)
  concluded st idle quiet (settled p q) = q

  -- Start the consumer with nothing in flight and the user's score in agreement with the metadata. Then,
  -- whatever is published, in whatever order the messages are delivered, and whichever scripts, writes,
  -- acknowledgements and runs of the service fail, the score agrees with the metadata in every state
  -- in which no message about the user waits or is in flight.
  pub Reach-IsConsistentAt :
      (waiting : List QueueMessage) (s : S) {st : Broker S}
      → IsConsistentAt redis s c u
      → Reach redis (record { waiting = waiting; running = []; store = s }) st
      → any (is_for c u) st.waiting ≡ false
      → any (is_for c u) (map (λ e. e.0) st.running) ≡ false
      → IsConsistentAt redis st.store c u
  unfolding last_reply
  Reach-IsConsistentAt waiting s {st} h r idle quiet =
      concluded st idle quiet (Reach-IsOnTheWay r (settled refl h))
