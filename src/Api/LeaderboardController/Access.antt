-- ===== src/Api/LeaderboardController/Access.antt =====
-- Who can make the leaderboard service recalculate (controllers/leaderboard.controller.ts).
use judge_self.Common.{
  String, ◌≡◌, ◌≢◌, refl, Bool, true, false, Option, none, some, [], arith, eq_iff,
}
use judge_self.Api.Http.{Param, first_value, truthy, DecodedToken, Outgoing, Fetched}
use judge_self.Api.Repositories.{Queries, Found, value, thrown, ContestData, get_contest_by_id}
use judge_self.Api.LeaderboardController.{
  owns, is_contest_owner, if_owner, recalculate_user, recalculate_contest, force_recalculate_user,
  force_recalculate_contest,
}

module _ (q : Queries) (fetch : Outgoing → Fetched) (base_url : String) (auth : DecodedToken) where
  -- The database has the contest, and the caller owns it.
  abbrev pub IsOwnerOf : String → Type 0
  IsOwnerOf contest_id =
      (contest : ContestData) × (get_contest_by_id q contest_id false ≡ value (some contest))
      × (contest.owner_id ≡ auth.id)

  owns-IsOwnerOf :
      (contest_id : String) (found : Found (Option ContestData))
      → get_contest_by_id q contest_id false ≡ found
      → owns q fetch base_url auth.id found ≡ value true
      → IsOwnerOf contest_id
  owns-IsOwnerOf c thrown e h = cc
  owns-IsOwnerOf c (value none) e h = cc
  owns-IsOwnerOf c (value (some contest)) e h =
      (contest, e, (eq_iff contest.owner_id auth.id).0 (ground arith))

  if_owner-sent :
      (r : Found Bool) (request : Outgoing)
      → (if_owner q fetch base_url r request).sent ≢ []
      → r ≡ value true
  if_owner-sent thrown request h = absurd (h refl)
  if_owner-sent (value false) request h = absurd (h refl)
  if_owner-sent (value true) request h = refl

  sent-IsOwnerOf :
      (contest_id : String) (request : Outgoing)
      → (if_owner q fetch base_url
          (is_contest_owner q fetch base_url contest_id auth.id)
          request).sent
        ≢ []
      → IsOwnerOf contest_id
  unfolding is_contest_owner
  sent-IsOwnerOf c request h =
      owns-IsOwnerOf c (get_contest_by_id q c false) refl
        (if_owner-sent (owns q fetch base_url auth.id (get_contest_by_id q c false)) request h)

  -- The leaderboard service is asked to recalculate a contest only if a contest is named that the
  -- database has and that the caller owns.
  pub force_recalculate_contest-IsOwnerOf :
      (contest_id : Param)
      → (force_recalculate_contest q fetch base_url auth contest_id).sent ≢ []
      → (c : String) × (truthy (first_value contest_id) ≡ some c) × IsOwnerOf c
  unfolding force_recalculate_contest
  force_recalculate_contest-IsOwnerOf p h = go (truthy (first_value p)) refl h
    where
      go :
          (o : Option String)
          → truthy (first_value p) ≡ o
          → (recalculate_contest q fetch base_url auth o).sent ≢ []
          → (c : String) × (truthy (first_value p) ≡ some c) × IsOwnerOf c
      go none e h = absurd (h refl)
      go (some c) e h = (c, e, sent-IsOwnerOf c _ h)

  -- The leaderboard service is asked to recalculate a user of a contest only if the contest is one that
  -- the database has and that the caller owns.
  force_recalculate_user-IsOwnerOf :
      (contest_id user_id : Param)
      → (force_recalculate_user q fetch base_url auth contest_id user_id).sent ≢ []
      → (c : String) × (truthy (first_value contest_id) ≡ some c) × IsOwnerOf c
  unfolding force_recalculate_user
  force_recalculate_user-IsOwnerOf p r h =
      go (truthy (first_value p)) (truthy (first_value r)) refl h
    where
      go :
          (o u : Option String)
          → truthy (first_value p) ≡ o
          → (recalculate_user q fetch base_url auth o u).sent ≢ []
          → (c : String) × (truthy (first_value p) ≡ some c) × IsOwnerOf c
      go none none e h = absurd (h refl)
      go none (some u) e h = absurd (h refl)
      go (some c) none e h = absurd (h refl)
      go (some c) (some u) e h = (c, e, sent-IsOwnerOf c _ h)
