-- ===== src/Api/StatusController/Visibility.antt =====
-- Who sees the results of a submission (controllers/status.controller.ts).
use judge_self.Common.{
  String, ◌≡◌, ◌≢◌, ◌⊎◌, ◌↔◌, ap, ◌∙◌, inl, inr, Bool, true, false, none, some, arith, eq_iff,
  Bool-cases, if◌then◌else◌,
}
use judge_self.Common.Int.{ℤ, ◌≤ℤ◌}
use judge_self.Api.Http.{Param, first_value, truthy, DecodedToken}
use judge_self.Api.Repositories.{Queries, value, SubmissionData, get_submission_by_id}
use judge_self.Api.StatusController.{
  SubmissionReply, found, show_results, submission_of, submission_reply, get_submission,
}

-- The owner of the contest always may. For a submission without an internal error its author may,
-- and everybody once the contest is over.
abbrev pub MaySee : ℤ → DecodedToken → SubmissionData → Type 0
MaySee now auth s =
    (s.contest_owner_id ≡ auth.id)
    ⊎ ((s.status ≢ "INT") × ((s.user_id ≡ auth.id) ⊎ (s.contest_end_time ≤ℤ now)))

show_results_iff :
    (q : Queries) (now : ℤ) (auth : DecodedToken) (s : SubmissionData)
    → (show_results q now auth s ≡ true) ↔ MaySee now auth s
unfolding show_results
show_results_iff q now auth s = (
  (λ h.
      ground (
        arith,
        eq_iff s.status "INT",
        eq_iff s.contest_owner_id auth.id,
        eq_iff s.user_id auth.id,
      )),
  (λ h.
      ground (
        arith,
        eq_iff s.status "INT",
        eq_iff s.contest_owner_id auth.id,
        eq_iff s.user_id auth.id,
      )),
)

module _ (q : Queries) (now : ℤ) (auth : DecodedToken) (id : Param) (s : SubmissionData) where
  -- A submission that the database has under the requested identifier is answered as it is, except
  -- that its results are sent exactly if the caller may see them: as the owner of the contest, or, when the
  -- submission's status is not "INT", as its author or after the end of the contest. Otherwise they are null.
  pub get_submission-MaySee :
      (key : String)
      → truthy (first_value id) ≡ some key
      → get_submission_by_id q key ≡ value (some s)
      → (MaySee now auth s → get_submission q now auth id ≡ found s)
        × ((MaySee now auth s → ⊥)
            → get_submission q now auth id ≡ found (record s { results = none }))
  unfolding get_submission
  get_submission-MaySee key has_key has_row = (
    (λ may_see. answered ∙ ap reply ((show_results_iff q now auth s).1 may_see)),
    (λ may_not. answered ∙ ap reply (hidden may_not (Bool-cases (show_results q now auth s)))),
  )
    where
      reply : Bool → SubmissionReply
      reply b = found (record s { results = if b then s.results else none })

      answered : get_submission q now auth id ≡ reply (show_results q now auth s)
      answered = ap (submission_of q now auth) has_key ∙ ap (submission_reply q now auth) has_row

      hidden :
          (MaySee now auth s → ⊥)
          → (show_results q now auth s ≡ true) ⊎ (show_results q now auth s ≡ false)
          → show_results q now auth s ≡ false
      hidden may_not (inl h) = absurd (may_not ((show_results_iff q now auth s).0 h))
      hidden may_not (inr h) = h
