-- ===== src/Common/Sort.antt =====
-- `Array.prototype.sort` with a comparison function: a stable sort (ECMAScript 2019), here by
-- insertion from the back, so that an earlier item stays before a later one that compares equal.
pub mod Laws
pub mod Filter
use mathlib.Core.List.{List, [], ◌∷◌}
use judge_self.Common.Tests.{if◌then◌else◌}
use judge_self.Common.Int.{ℤ, pos, leb_ℤ}

module _ {ℓ} {A : Type ℓ} (compare_fn : A → A → ℤ) where
  unfoldable pub insert : A → List A → List A
  insert x [] = x ∷ []
  insert x (y ∷ ys) =
      let rest = insert x ys in if leb_ℤ (compare_fn x y) (pos 0) then x ∷ y ∷ ys else y ∷ rest

  unfoldable pub sort : List A → List A
  unfolding insert
  sort [] = []
  sort (x ∷ xs) = insert x (sort xs)
