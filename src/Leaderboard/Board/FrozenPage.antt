-- ===== src/Leaderboard/Board/FrozenPage.antt =====
-- A page that services/leaderboard.service.ts reads from the database after services/freeze.service.ts
-- has stored the standings: a comparison of ranks in place of an offset.
use judge_self.Common.{
  ℕ, zero, suc, ◌+◌, ◌*◌, ◌-◌, ◌≤◌, String, ◌≡◌, refl, ap, ◌∙◌, Bool, true, false, not, ◌&&◌, List,
  [], ◌∷◌, ◌++◌, arith, map, keep, All, take, drop, eq_refl, ltb, Bool-cases, inl, inr,
}
use judge_self.Common.Int.{ℤ, pos, ltb_ℤ, int_laws, -ℤ_parts}
use judge_self.Common.Paging.{page}
use judge_self.Common.Sort.{sort}
use judge_self.Common.Sort.Laws.{Le, IsSorted}
use judge_self.Common.Sort.Filter.{sort-sorted}
use judge_self.Database.{Database, ResultRow}
use judge_self.Leaderboard.Freeze.{
  RatedRow, Standing, standings, result_row, result_rows, frozen_database,
}
use judge_self.Leaderboard.Board.{
  selected, is_result_of, by_rank, start_index, get_leaderboard_page_from_db,
}

module _ {A : Type 0} where
  keep-append : (p : A → Bool) (xs ys : List A) → keep p (xs ++ ys) ≡ keep p xs ++ keep p ys
  keep-append p [] ys = refl
  keep-append p (x ∷ xs) ys = elim (Bool-cases (p x)) [
    | inl e ↦ rw e (ap (◌∷◌ x) (keep-append p xs ys))
    | inr e ↦ rw e (keep-append p xs ys)
  ]

  keep_disjoint :
      (p q : A → Bool) (xs : List A) → keep (λ x. p x && q x) (keep (λ x. not (p x)) xs) ≡ []
  keep_disjoint p q [] = refl
  keep_disjoint p q (x ∷ xs) = elim (Bool-cases (p x)) [
    | inl e ↦ rw e (keep_disjoint p q xs)
    | inr e ↦ rw (e, e) (keep_disjoint p q xs)
  ]

  IsSorted-drop :
      (compare_fn : A → A → ℤ) (n : ℕ) (xs : List A)
      → IsSorted compare_fn xs
      → IsSorted compare_fn (drop n xs)
  IsSorted-drop f zero xs h = h
  IsSorted-drop f (suc n) [] h = tt
  IsSorted-drop f (suc n) (x ∷ xs) (p, h) = IsSorted-drop f n xs h

module _ (c : String) where
  abbrev after : ℕ → ResultRow → Bool
  after start r = is_result_of c r && ltb_ℤ (pos start) (pos r.rank)

  -- The rows with a rank above `start` are those after the first `start`.
  keep-result_rows :
      (start i : ℕ) (es : List Standing)
      → keep (after start) (result_rows c i es) ≡ drop (start - i) (result_rows c i es)
  unfolding result_rows
  keep-result_rows start i [] = go (start - i)
    where
      go : (n : ℕ) → [] ≡ drop {A = ResultRow} n []
      go zero = refl
      go (suc n) = refl
  keep-result_rows start i (e ∷ es) = elim (Bool-cases (ltb i start)) [
    | inl lt ↦
        let n : start - i ≡ suc (start - suc i) = ground arith in
        let out : ltb_ℤ (pos start) (pos (i + 1)) ≡ false = ground arith in
        rw (n, eq_refl c, out) (keep-result_rows start (suc i) es)
    | inr ge ↦
        let n : start - i ≡ 0 = ground arith in
        let m : start - suc i ≡ 0 = ground arith in
        let isin : ltb_ℤ (pos start) (pos (i + 1)) ≡ true = ground arith in
        rw (n, eq_refl c, isin)
          (ap (◌∷◌ (result_row c i e))
            (keep-result_rows start (suc i) es ∙ ap (λ k. drop k (result_rows c (suc i) es)) m))
  ]

  result_rows-below :
      (e : Standing) (i j : ℕ) (es : List Standing)
      → i ≤ j
      → All (Le by_rank (result_row c i e)) (result_rows c j es)
  unfolding result_rows
  result_rows-below e i j [] h = tt
  result_rows-below e i j (d ∷ es) h = (
    omega (arith, -ℤ_parts (pos (i + 1)) (pos (j + 1))),
    result_rows-below e i (suc j) es (omega arith),
  )

  result_rows-IsSorted : (i : ℕ) (es : List Standing) → IsSorted by_rank (result_rows c i es)
  unfolding result_rows
  result_rows-IsSorted i [] = tt
  result_rows-IsSorted i (e ∷ es) =
      (result_rows-below e i (suc i) es (omega arith), result_rows-IsSorted (suc i) es)

pub start_index-suc : (k size : ℕ) → start_index (pos (suc k)) size ≡ pos (k * size)
start_index-suc k size = omega int_laws

-- After a freeze, page k + 1 of the contest is exactly the k-th slice of the stored standings: the
-- results of other contests and those that a former freeze had stored do not appear.
pub get_leaderboard_page_from_db-frozen :
    (c : String) (rows : List RatedRow) (db : Database) (k size : ℕ)
    → get_leaderboard_page_from_db (frozen_database c rows db) c (pos (suc k)) size
      ≡ map selected (page size k (result_rows c 0 (standings rows)))
unfolding get_leaderboard_page_from_db frozen_database
get_leaderboard_page_from_db-frozen c rows db k size =
    let es = standings rows in
    let old = keep (λ r. not (is_result_of c r)) db.contest_results in
    let none_off : k * size - 0 ≡ k * size = omega arith in
    let kept : keep (after c (k * size)) (old ++ result_rows c 0 es)
        ≡ drop (k * size) (result_rows c 0 es) =
      keep-append (after c (k * size)) old (result_rows c 0 es)
      ∙ ap (λ l. l ++ keep (after c (k * size)) (result_rows c 0 es))
          (keep_disjoint (is_result_of c) (λ r. ltb_ℤ (pos (k * size)) (pos r.rank))
            db.contest_results)
      ∙ keep-result_rows c (k * size) 0 es
      ∙ ap (λ n. drop n (result_rows c 0 es)) none_off in
    rw start_index-suc (
      ap (λ l. map selected (take size (sort by_rank l))) kept
      ∙ ap (λ l. map selected (take size l))
          (sort-sorted by_rank (drop (k * size) (result_rows c 0 es))
            (IsSorted-drop by_rank (k * size) (result_rows c 0 es) (result_rows-IsSorted c 0 es))))
