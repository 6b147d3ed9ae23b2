-- ===== src/Common/Sort/Filter.antt =====
-- A stable sort commutes with a filter, and leaves a list in place that is sorted already.
use mathlib.Core.Path.{◌≡◌, refl, sym, ap, ◌∙◌}
use mathlib.Core.Bool.{Bool, true, false}
use mathlib.Core.List.{List, [], ◌∷◌}
use native.Mathlib.Omega.{arith}
use mathlib.Core.Logic.{inl, inr}
use judge_self.Common.Tests.{Bool-cases}
use judge_self.Common.Lists.{All, keep}
use judge_self.Common.Int.{ℤ, pos, leb_ℤ}
use judge_self.Common.Sort.{insert, sort}
use judge_self.Common.Sort.Laws.{Le, IsSorted, IsOrder, All-below, sort-IsSorted}

module _ {ℓ} {A : Type ℓ} (compare_fn : A → A → ℤ) where
  pub insert-below :
      (x : A) (ys : List A) → All (Le compare_fn x) ys → insert compare_fn x ys ≡ x ∷ ys
  unfolding insert
  insert-below x [] h = refl
  insert-below x (y ∷ ys) (p, h) = ground arith

  All-keep : (P : A → Type 0) (p : A → Bool) (ys : List A) → All P ys → All P (keep p ys)
  All-keep P p [] h = tt
  All-keep P p (y ∷ ys) (q, h) = elim (Bool-cases (p y)) [
    | inl e ↦ rw e (q, All-keep P p ys h)
    | inr e ↦ rw e (All-keep P p ys h)
  ]

  pub sort-sorted : (xs : List A) → IsSorted compare_fn xs → sort compare_fn xs ≡ xs
  unfolding sort
  sort-sorted [] h = refl
  sort-sorted (x ∷ xs) (p, h) = rw (sort-sorted xs h) (insert-below x xs p)

module _ {ℓ} {A : Type ℓ} (compare_fn : A → A → ℤ) (o : IsOrder compare_fn) (p : A → Bool) where
  keep-insert_out :
      (x : A) (ys : List A) → p x ≡ false → keep p (insert compare_fn x ys) ≡ keep p ys
  unfolding insert
  keep-insert_out x [] e = rw e
  keep-insert_out x (y ∷ ys) e = ground (arith, keep-insert_out x ys e)

  keep-insert_in :
      (x : A) (ys : List A)
      → p x ≡ true
      → IsSorted compare_fn ys
      → keep p (insert compare_fn x ys) ≡ insert compare_fn x (keep p ys)
  unfolding insert
  keep-insert_in x [] e h = rw e
  keep-insert_in x (y ∷ ys) e (q, h) = elim (Bool-cases (leb_ℤ (compare_fn x y) (pos 0))) [
    | inl le ↦
        let below : Le compare_fn x y = ground arith in
        rw (le, e)
          (sym (
            insert-below compare_fn x (keep p (y ∷ ys)) (
              All-keep compare_fn (Le compare_fn x) p (y ∷ ys)
                (below, All-below compare_fn o x y ys below q))))
    | inr gt ↦ ground (arith, keep-insert_in x ys e h)
  ]

  pub keep-sort : (xs : List A) → keep p (sort compare_fn xs) ≡ sort compare_fn (keep p xs)
  unfolding sort
  keep-sort [] = refl
  keep-sort (x ∷ xs) = elim (Bool-cases (p x)) [
    | inl e ↦ rw e (
        keep-insert_in x (sort compare_fn xs) e (sort-IsSorted compare_fn o xs)
        ∙ ap (insert compare_fn x) (keep-sort xs))
    | inr e ↦ rw e (keep-insert_out x (sort compare_fn xs) e ∙ keep-sort xs)
  ]
