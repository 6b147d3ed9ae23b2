-- ===== src/Api/ProblemController/Import.antt =====
-- When a problem is imported into a contest (controllers/problem.controller.ts).
use judge_self.Common.{
  String, ◌≡◌, ◌≢◌, refl, Bool, true, false, Option, none, some, List, [], ◌∷◌, ◌==◌, arith, eq_iff,
  if◌then◌else◌,
}
use judge_self.Api.Http.{
  Param, first_value, truthy, DecodedToken, Outgoing, Outcome, Fetched, refuse, proxy_fetch,
}
use judge_self.Api.Repositories.{
  Queries, Found, value, thrown, ContestData, ProblemRecord, get_contest_by_id,
}
use judge_self.Api.ProblemController.{
  index_taken, index_exists, has_index, import_into, import_if_found, add_named_problem,
  add_problem, import_request,
}

-- No problem of the list has the index.
unfoldable pub IsUnused : String → List ProblemRecord → Type 0
IsUnused index [] = Unit
IsUnused index (p ∷ ps) = (p.problem_index ≢ some index) × IsUnused index ps

abbrev pub IsFree : String → Option (List ProblemRecord) → Type 0
IsFree index none = Unit
IsFree index (some ps) = IsUnused index ps

has_index-ne : (index : String) (o : Option String) → has_index index o ≡ false → o ≢ some index
has_index-ne index none h e = cc
has_index-ne index (some i) h e = ground (arith, eq_iff i index)

index_taken-IsUnused :
    (index : String) (ps : List ProblemRecord) → index_taken index ps ≡ false → IsUnused index ps
unfolding index_taken IsUnused
index_taken-IsUnused index [] h = tt
index_taken-IsUnused index (p ∷ ps) h = (
  has_index-ne index p.problem_index (ground arith),
  index_taken-IsUnused index ps (ground arith),
)

index_exists-IsFree :
    (index : String) (o : Option (List ProblemRecord))
    → index_exists index o ≡ false
    → IsFree index o
index_exists-IsFree index none h = tt
index_exists-IsFree index (some ps) h = index_taken-IsUnused index ps h

module _ (q : Queries) (fetch : Outgoing → Fetched) (json_of : String → String → String)
    (service_url : String) (auth : DecodedToken) where
  -- The contest is the caller's, the index is free in it, and the one request that is sent is the import.
  abbrev pub IsImport : String → String → String → List Outgoing → Type 0
  IsImport contest_id index polygon_url sent =
      (contest : ContestData) × (get_contest_by_id q contest_id true ≡ value (some contest))
      × (contest.owner_id ≡ auth.id)
      × IsFree index contest.problems
      × (sent ≡ import_request q fetch json_of service_url contest_id polygon_url ∷ [])

  import_into-IsImport :
      (c i u : String) (contest : ContestData)
      → get_contest_by_id q c true ≡ value (some contest)
      → (import_into q fetch json_of service_url auth c i u contest).sent ≢ []
      → IsImport c i u (import_into q fetch json_of service_url auth c i u contest).sent
  unfolding proxy_fetch
  import_into-IsImport c i u contest found h = go _ _ refl refl h
    where
      chosen : Bool → Bool → Outcome
      chosen a b =
          if a
          then (if b
              then refuse 400 "Problem with this index already exists"
              else proxy_fetch fetch (import_request q fetch json_of service_url c u))
          else refuse 403 "You are not authorized to add problems to this contest"

      go :
          (a b : Bool)
          → (contest.owner_id == auth.id) ≡ a
          → index_exists i contest.problems ≡ b
          → (chosen a b).sent ≢ []
          → IsImport c i u (chosen a b).sent
      go true true owner index h = absurd (h refl)
      go true false owner index h = (
        contest,
        found,
        (eq_iff contest.owner_id auth.id).0 owner,
        index_exists-IsFree i contest.problems index,
        refl,
      )
      go false b owner index h = absurd (h refl)

  import_if_found-IsImport :
      (c i u : String) (r : Found (Option ContestData))
      → get_contest_by_id q c true ≡ r
      → (import_if_found q fetch json_of service_url auth c i u r).sent ≢ []
      → IsImport c i u (import_if_found q fetch json_of service_url auth c i u r).sent
  import_if_found-IsImport c i u thrown found h = absurd (h refl)
  import_if_found-IsImport c i u (value none) found h = absurd (h refl)
  import_if_found-IsImport c i u (value (some contest)) found h =
      import_into-IsImport c i u contest found h

  -- A request that reaches the polygon service is one import into a contest that the caller owns, of a
  -- problem whose index no problem of the contest has; what is sent depends on the contest and the URL alone.
  pub add_problem-IsImport :
      (contest_id problem_index polygon_url : Param)
      → (add_problem q fetch json_of service_url auth contest_id problem_index polygon_url).sent
        ≢ []
      → (c i u : String) × (truthy (first_value contest_id) ≡ some c)
        × (truthy (first_value problem_index) ≡ some i)
        × (truthy (first_value polygon_url) ≡ some u)
        × IsImport c i u
            (add_problem q fetch json_of service_url auth contest_id problem_index polygon_url).sent
  unfolding add_problem
  add_problem-IsImport x y z h =
      go (truthy (first_value x)) (truthy (first_value y)) (truthy (first_value z)) h
    where
      go :
          (c i u : Option String)
          → (add_named_problem q fetch json_of service_url auth c i u).sent ≢ []
          → (c' i' u' : String) × (c ≡ some c')
            × (i ≡ some i')
            × (u ≡ some u')
            × IsImport c' i' u' (add_named_problem q fetch json_of service_url auth c i u).sent
      go none i u h = absurd (h refl)
      go (some c) none u h = absurd (h refl)
      go (some c) (some i) none h = absurd (h refl)
      go (some c) (some i) (some u) h = (
        c,
        i,
        u,
        refl,
        refl,
        refl,
        import_if_found-IsImport c i u (get_contest_by_id q c true) refl h,
      )
