-- ===== src/Leaderboard/Consumer/Replies.antt =====
-- The messages about one user that wait, and the replies about the user that are in flight, for the
-- consumer of tasks/rabbitmq.task.ts.
use judge_self.Common.{
  String, ◌≡◌, refl, sym, ap, ◌∙◌, inl, inr, Bool, true, false, Option, none, some, List, [], ◌∷◌,
  ◌++◌, any, map, arith, Bool-cases, Option-cases, if◌then◌else◌,
}
use judge_self.Leaderboard.Types.{UserContestMetadata, QueueMessage}
use judge_self.Leaderboard.Live.Effect.{is_for}

pub any-insert :
    {A : Type 0} (p : A → Bool) (l : List A) (x : A) (r : List A)
    → any p (l ++ x ∷ r) ≡ (if p x then true else any p (l ++ r))
any-insert p [] x r = refl
any-insert p (y ∷ l) x r = ground (arith, any-insert p l x r)

pub any-append_left :
    {A : Type 0} (p : A → Bool) (l r : List A) → any p l ≡ true → any p (l ++ r) ≡ true
any-append_left p [] r h = cc
any-append_left p (x ∷ l) r h = ground (arith, any-append_left p l r)

pub any-append_right :
    {A : Type 0} (p : A → Bool) (l r : List A) → any p r ≡ true → any p (l ++ r) ≡ true
any-append_right p [] r h = h
any-append_right p (x ∷ l) r h = ground (arith, any-append_right p l r h)

abbrev pub Running : Type 0
Running = List (QueueMessage × UserContestMetadata)

abbrev pub later :
    Option UserContestMetadata → Option UserContestMetadata → Option UserContestMetadata
later (some m) o = some m
later none o = o

abbrev pub if_for :
    String → String → QueueMessage × UserContestMetadata → Option UserContestMetadata
if_for c u (v, m) = if is_for c u v then some m else none

pub later-none : (o : Option UserContestMetadata) → later o none ≡ o
later-none none = refl
later-none (some m) = refl

pub none-ne-some :
    {o : Option UserContestMetadata} {m : UserContestMetadata} → o ≡ none → o ≡ some m → ⊥
none-ne-some e h = cc

pub later_assoc : (a b c : Option UserContestMetadata) → later (later a b) c ≡ later a (later b c)
later_assoc none b c = refl
later_assoc (some m) b c = refl

-- The metadata that the last reply about the user holds.
unfoldable pub last_reply : String → String → Running → Option UserContestMetadata
last_reply c u [] = none
last_reply c u (e ∷ rest) = later (last_reply c u rest) (if_for c u e)

pub last_reply-append :
    (c u : String) (es : Running) (e : QueueMessage × UserContestMetadata)
    → last_reply c u (es ++ e ∷ []) ≡ later (if_for c u e) (last_reply c u es)
unfolding last_reply
last_reply-append c u [] e = sym (later-none (if_for c u e))
last_reply-append c u (d ∷ es) e =
    rw (last_reply-append c u es e) (later_assoc (if_for c u e) (last_reply c u es) (if_for c u d))

-- Replies about the user come from messages about the user.
pub any-of_last_reply :
    (c u : String) (es : Running) (m : UserContestMetadata)
    → last_reply c u es ≡ some m
    → any (is_for c u) (map (λ e. e.0) es) ≡ true
unfolding last_reply
any-of_last_reply c u [] m h = cc
any-of_last_reply c u ((v, n) ∷ es) m h = elim (Bool-cases (is_for c u v)) [
  | inl e ↦ rw e refl
  | inr e ↦ rw e (
      any-of_last_reply c u es m
        (sym (later-none (last_reply c u es)) ∙ ap (later (last_reply c u es)) (sym (rw e)) ∙ h))
]

module _ (c u : String) where
  pub last_reply-other :
      (v : QueueMessage) (m : UserContestMetadata) (es : Running)
      → is_for c u v ≡ false
      → last_reply c u (es ++ (v, m) ∷ []) ≡ last_reply c u es
  last_reply-other v m es e = last_reply-append c u es (v, m) ∙ (rw e)

  pub last_reply_self :
      (v : QueueMessage) (m : UserContestMetadata) (es : Running)
      → is_for c u v ≡ true
      → last_reply c u (es ++ (v, m) ∷ []) ≡ some m
  last_reply_self v m es e = last_reply-append c u es (v, m) ∙ (rw e)

  pub waits-rest :
      (ws l r : List QueueMessage) (v : QueueMessage)
      → ws ≡ l ++ v ∷ r
      → is_for c u v ≡ false
      → any (is_for c u) ws ≡ true
      → any (is_for c u) (l ++ r) ≡ true
  waits-rest ws l r v w e h =
      sym (any-insert (is_for c u) l v r ∙ (rw e)) ∙ sym (ap (any (is_for c u)) w) ∙ h

  pub waits_self :
      (ws l r : List QueueMessage) (v : QueueMessage)
      → ws ≡ l ++ v ∷ r
      → is_for c u v ≡ true
      → any (is_for c u) ws ≡ true
  waits_self ws l r v w e = ap (any (is_for c u)) w ∙ any-insert (is_for c u) l v r ∙ (rw e)

  pub last_reply-cons :
      (v : QueueMessage) (m : UserContestMetadata) (rest es : Running)
      → es ≡ (v, m) ∷ rest
      → last_reply c u es ≡ later (last_reply c u rest) (if_for c u (v, m))
  unfolding last_reply
  last_reply-cons v m rest es e = ap (last_reply c u) e

  pub last_reply-tail :
      (v : QueueMessage) (m : UserContestMetadata) (rest es : Running)
      → es ≡ (v, m) ∷ rest
      → is_for c u v ≡ false
      → last_reply c u rest ≡ last_reply c u es
  last_reply-tail v m rest es w e =
      sym (last_reply-cons v m rest es w ∙ (rw e) ∙ later-none (last_reply c u rest))

  pub last_reply-none :
      (es : Running) → any (is_for c u) (map (λ e. e.0) es) ≡ false → last_reply c u es ≡ none
  last_reply-none es h = elim (Option-cases (last_reply c u es)) [
    | inl e ↦ e
    | inr (m, e) ↦ cc (any-of_last_reply c u es m e)
  ]
