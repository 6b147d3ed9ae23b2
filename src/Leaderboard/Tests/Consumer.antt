-- ===== src/Leaderboard/Tests/Consumer.antt =====
-- Runs of the queue's consumer.
use judge_self.Common.{◌≡◌, refl, some, [], ◌∷◌, inl}
use judge_self.Redis.Memory.{Memory}
use judge_self.Common.Assoc.{lookup}
use judge_self.Leaderboard.Types.{UserContestMetadata}
use judge_self.Leaderboard.Live.{run_script}
use judge_self.Leaderboard.Live.Consistency.{IsConsistentAt}
use judge_self.Leaderboard.Consumer.{
  Broker, Reach, here, next, script, ack, ack_lost, started, written, revive, to_message,
}
use judge_self.Leaderboard.Consumer.Messages.{to_json, to_message-revive}
use judge_self.Leaderboard.Consumer.Agreement.{Reach-IsConsistentAt}
use judge_self.Leaderboard.Consumer.Delivery.{IsKept, Reach-IsKept}
use judge_self.Leaderboard.Tests.Data.{store_of_metadata, empty_store, accepted_a}

to_message-revive_example : to_message (revive (to_json accepted_a)) ≡ some accepted_a
to_message-revive_example = to_message-revive accepted_a

abbrev State : Type 0
State = Broker (Memory UserContestMetadata)

-- One message, whose score is written and whose acknowledgement is lost, so that it comes again.
abbrev first : State
first = record { waiting = accepted_a ∷ []; running = []; store = empty_store }

abbrev reply : State → UserContestMetadata
reply st = (run_script store_of_metadata st.store accepted_a).1

abbrev second : State
second = started store_of_metadata first [] accepted_a []

abbrev third : State
third = record {
  waiting = accepted_a ∷ [];
  running = [];
  store = written store_of_metadata second accepted_a (reply first);
}

abbrev fourth : State
fourth = started store_of_metadata third [] accepted_a []

abbrev fifth : State
fifth = record {
  waiting = [];
  running = [];
  store = written store_of_metadata fourth accepted_a (reply third);
}

delivered_again : Reach store_of_metadata first fourth
delivered_again =
    next
      (next (next here (script [] accepted_a [] refl refl))
        (ack_lost accepted_a (reply first) [] refl refl))
      (script [] accepted_a [] refl refl)

settled_again : Reach store_of_metadata first fifth
settled_again = next delivered_again (ack accepted_a (reply third) [] refl refl)

Reach-IsConsistentAt_example : IsConsistentAt store_of_metadata fifth.store "c1" "ann"
unfolding lookup
Reach-IsConsistentAt_example =
    Reach-IsConsistentAt store_of_metadata "c1" "ann" (accepted_a ∷ []) empty_store refl
      settled_again refl refl

Reach-IsKept_example : IsKept store_of_metadata accepted_a fourth
Reach-IsKept_example = Reach-IsKept store_of_metadata accepted_a first (inl refl) delivered_again
