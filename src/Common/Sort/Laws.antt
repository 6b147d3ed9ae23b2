-- ===== src/Common/Sort/Laws.antt =====
-- The sort puts every item before those that it compares as no greater, and changes no count and
-- no fold whose steps commute.
use Prim.Native.Nat.{suc}
use mathlib.Core.Path.{◌≡◌, refl, ap, ◌∙◌}
use mathlib.Core.Logic.{◌⊎◌, inl, inr}
use mathlib.Core.Bool.{Bool}
use mathlib.Core.List.{List, [], ◌∷◌, foldr, Perm}
use mathlib.Core.List.Perm
use native.Mathlib.Omega.{arith}
use judge_self.Common.Tests.{Bool-cases}
use judge_self.Common.Lists.{All, count_if, length}
use judge_self.Common.Int.{ℤ, pos, ◌≤ℤ◌, leb_ℤ}
use judge_self.Common.Sort.{insert, sort}

module _ {ℓ} {A : Type ℓ} (compare_fn : A → A → ℤ) where
  -- `x` may stand before `y`
  abbrev pub Le : A → A → Type 0
  Le x y = compare_fn x y ≤ℤ pos 0

  abbrev pub IsSorted : List A → Type 0
  IsSorted [] = Unit
  IsSorted (x ∷ xs) = All (Le x) xs × IsSorted xs

module _ {ℓ κ} {A : Type ℓ} {B : Type κ} (compare_fn : A → A → ℤ) (f : A → B → B)
    (commutes : (x y : A) (b : B) → f x (f y b) ≡ f y (f x b)) where
  fold-insert :
      (x : A) (b : B) (ys : List A) → foldr f b (insert compare_fn x ys) ≡ f x (foldr f b ys)
  unfolding insert
  fold-insert x b [] = refl
  fold-insert x b (y ∷ ys) = elim (Bool-cases (leb_ℤ (compare_fn x y) (pos 0))) [
    | inl e ↦ rw e
    | inr e ↦ rw e (ap (f y) (fold-insert x b ys) ∙ commutes y x (foldr f b ys))
  ]

  pub fold-sort : (b : B) (xs : List A) → foldr f b (sort compare_fn xs) ≡ foldr f b xs
  unfolding sort
  fold-sort b [] = refl
  fold-sort b (x ∷ xs) = fold-insert x b (sort compare_fn xs) ∙ ap (f x) (fold-sort b xs)

module _ {ℓ} {A : Type ℓ} (compare_fn : A → A → ℤ) where
  count_if-insert :
      (p : A → Bool) (x : A) (ys : List A)
      → count_if p (insert compare_fn x ys) ≡ count_if p (x ∷ ys)
  unfolding insert
  count_if-insert p x [] = refl
  count_if-insert p x (y ∷ ys) = ground (arith, count_if-insert p x ys)

  pub count_if-sort : (p : A → Bool) (xs : List A) → count_if p (sort compare_fn xs) ≡ count_if p xs
  unfolding sort
  count_if-sort p [] = refl
  count_if-sort p (x ∷ xs) =
      ground (arith, count_if-insert p x (sort compare_fn xs), count_if-sort p xs)

  length-insert : (x : A) (ys : List A) → length (insert compare_fn x ys) ≡ suc (length ys)
  unfolding insert
  length-insert x [] = refl
  length-insert x (y ∷ ys) = ground (arith, length-insert x ys)

  pub length-sort : (xs : List A) → length (sort compare_fn xs) ≡ length xs
  unfolding sort
  length-sort [] = refl
  length-sort (x ∷ xs) = length-insert x (sort compare_fn xs) ∙ ap suc (length-sort xs)

  insert-perm : (x : A) (ys : List A) → Perm (insert compare_fn x ys) (x ∷ ys)
  unfolding insert
  insert-perm x [] = Perm.rfl
  insert-perm x (y ∷ ys) = elim (Bool-cases (leb_ℤ (compare_fn x y) (pos 0))) [
    | inl e ↦ rw e Perm.rfl
    | inr e ↦ rw e (Perm.trans (Perm.cons y (insert-perm x ys)) (Perm.swap x y ys))
  ]

  pub sort-perm : (xs : List A) → Perm (sort compare_fn xs) xs
  unfolding sort
  sort-perm [] = Perm.rfl
  sort-perm (x ∷ xs) = Perm.trans (insert-perm x (sort compare_fn xs)) (Perm.cons x (sort-perm xs))

module _ {ℓ} {A : Type ℓ} (compare_fn : A → A → ℤ) where
  All-insert :
      (P : A → Type 0) (x : A) (ys : List A) → P x → All P ys → All P (insert compare_fn x ys)
  unfolding insert
  All-insert P x [] p h = (p, tt)
  All-insert P x (y ∷ ys) p (q, h) = elim (Bool-cases (leb_ℤ (compare_fn x y) (pos 0))) [
    | inl e ↦ rw e (p, (q, h))
    | inr e ↦ rw e (q, All-insert P x ys p h)
  ]

  pub All-sort : (P : A → Type 0) (xs : List A) → All P xs → All P (sort compare_fn xs)
  unfolding sort
  All-sort P [] h = tt
  All-sort P (x ∷ xs) (p, h) = All-insert P x (sort compare_fn xs) p (All-sort P xs h)

-- What a comparison function owes to the sort.
pub record IsOrder {ℓ} {A : Type ℓ} (compare_fn : A → A → ℤ) : Type ℓ where
  pub total : (x y : A) → (Le compare_fn x y) ⊎ (Le compare_fn y x)
  pub trans : (x y z : A) → Le compare_fn x y → Le compare_fn y z → Le compare_fn x z

module _ {ℓ} {A : Type ℓ} (compare_fn : A → A → ℤ) (o : IsOrder compare_fn) where
  pub All-below :
      (x y : A) (ys : List A)
      → Le compare_fn x y
      → All (Le compare_fn y) ys
      → All (Le compare_fn x) ys
  All-below x y [] p h = tt
  All-below x y (z ∷ zs) p (q, h) = (o.trans x y z p q, All-below x y zs p h)

  insert-IsSorted :
      (x : A) (ys : List A) → IsSorted compare_fn ys → IsSorted compare_fn (insert compare_fn x ys)
  unfolding insert
  insert-IsSorted x [] h = (tt, tt)
  insert-IsSorted x (y ∷ ys) (p, h) = elim (Bool-cases (leb_ℤ (compare_fn x y) (pos 0))) [
    | inl e ↦ let q : Le compare_fn x y = ground arith in rw e ((q, All-below x y ys q p), (p, h))
    | inr e ↦
        let q : Le compare_fn y x = ground (arith, o.total x y) in
        rw e (All-insert compare_fn (Le compare_fn y) x ys q p, insert-IsSorted x ys h)
  ]

  pub sort-IsSorted : (xs : List A) → IsSorted compare_fn (sort compare_fn xs)
  unfolding sort
  sort-IsSorted [] = tt
  sort-IsSorted (x ∷ xs) = insert-IsSorted x (sort compare_fn xs) (sort-IsSorted xs)
