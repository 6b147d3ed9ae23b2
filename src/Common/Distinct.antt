-- ===== src/Common/Distinct.antt =====
-- Lists of texts that differ, and what it means that as many texts hold all of them.
use Prim.Native.Nat.{suc}
use Prim.Native.String.{String}
use mathlib.Core.Path.{◌≡◌, refl, sym, ap, ◌∙◌, subst}
use mathlib.Core.Logic.{inl, inr}
use mathlib.Core.Bool.{Bool, true, false, ◌||◌, Bool-set}
use native.Mathlib.Nat.{ℕ_set}
use text.Mathlib.TextPositions.{eq_refl}
use mathlib.Core.List.{List, [], ◌∷◌, ◌++◌, foldr, Perm, perm_middle}
use mathlib.Core.List.Perm
use native.Mathlib.Omega.{arith}
use text.Mathlib.Text.{◌==◌}
use text.Mathlib.TextEquality.{eq_iff}
use judge_self.Common.Tests.{Bool-cases, if◌then◌else◌}
use judge_self.Common.Lists.{All, any, length, length-append}

abbrev pub occurs : String → List String → Bool
occurs x ys = any (λ y. y == x) ys

abbrev pub IsDistinct : List String → Type 0
IsDistinct [] = Unit
IsDistinct (x ∷ xs) = (occurs x xs ≡ false) × IsDistinct xs

occurs-split :
    (x : String) (ys : List String)
    → occurs x ys ≡ true
    → (l : List String) × (r : List String) × (ys ≡ l ++ x ∷ r)
occurs-split x [] h = cc
occurs-split x (y ∷ ys) h = elim (Bool-cases (y == x)) [
  | inl e ↦ ([], ys, ap (λ z. z ∷ ys) ((eq_iff y x).0 e))
  | inr e ↦
      let (l, r, p) =
        occurs-split x ys (subst (λ b. (if b then true else occurs x ys) ≡ true) e h) in
      (y ∷ l, r, ap (◌∷◌ y) p)
]

occurs-middle :
    (x y : String) (l r : List String)
    → (x == y) ≡ false
    → occurs y (l ++ x ∷ r) ≡ true
    → occurs y (l ++ r) ≡ true
occurs-middle x y [] r e h = ground arith
occurs-middle x y (z ∷ l) r e h = ground (arith, occurs-middle x y l r e)

-- The others still occur when one is taken away.
others-occur :
    (x : String) (l r xs : List String)
    → occurs x xs ≡ false
    → All (λ y. occurs y (l ++ x ∷ r) ≡ true) xs
    → All (λ y. occurs y (l ++ r) ≡ true) xs
others-occur x l r [] d h = tt
others-occur x l r (y ∷ xs) d (h, hs) = elim (Bool-cases (y == x)) [
  | inl e ↦ absurd (ground arith)
  | inr e ↦ (
    occurs-middle x y l r (ground (arith, eq_iff x y, eq_iff y x)) h,
    others-occur x l r xs (ground arith) hs,
  )
]

-- If all of some different texts occur in a list that is no longer, the list holds just them.
pub occurs-Perm :
    (xs ys : List String)
    → IsDistinct xs
    → All (λ x. occurs x ys ≡ true) xs
    → length ys ≡ length xs
    → Perm ys xs
occurs-Perm [] [] d h n = Perm.refl []
occurs-Perm [] (y ∷ ys) d h n = absurd (omega arith)
occurs-Perm (x ∷ xs) ys (d, ds) (h, hs) n =
    let (l, r, p) = occurs-split x ys h in
    let rest = others-occur x l r xs d (subst (λ zs. All (λ y. occurs y zs ≡ true) xs) p hs) in
    let size : length (l ++ r) ≡ length xs =
      grind (arith, length-append l r, length-append l (x ∷ r)) in
    rw p (Perm.trans (perm_middle l r) (Perm.cons x (occurs-Perm xs (l ++ r) ds rest size)))

any-foldr : {A : Type 0} (p : A → Bool) (xs : List A) → any p xs ≡ foldr (λ x b. p x || b) false xs
any-foldr p [] = refl
any-foldr p (x ∷ xs) = ground (arith, any-foldr p xs)

length-foldr : {A : Type 0} (xs : List A) → length xs ≡ foldr (λ x n. suc n) 0 xs
length-foldr [] = refl
length-foldr (x ∷ xs) = ap suc (length-foldr xs)

or_left_comm : (a b c : Bool) → (a || (b || c)) ≡ (b || (a || c))
or_left_comm a b c = ground arith

pub any-Perm : {A : Type 0} (p : A → Bool) {xs ys : List A} → Perm xs ys → any p xs ≡ any p ys
any-Perm p {xs} {ys} h =
    any-foldr p xs
    ∙ Perm.foldr-eq Bool-set (λ x b. p x || b) (λ x y b. or_left_comm (p x) (p y) b) h false
    ∙ sym (any-foldr p ys)

pub length-Perm : {A : Type 0} {xs ys : List A} → Perm xs ys → length xs ≡ length ys
length-Perm {xs = xs} {ys = ys} h =
    length-foldr xs ∙ Perm.foldr-eq ℕ_set (λ x n. suc n) (λ x y n. refl) h 0 ∙ sym (length-foldr ys)

-- All texts of a list occur in it.
pub occurs_each :
    (xs zs : List String)
    → ((x : String) → occurs x xs ≡ true → occurs x zs ≡ true)
    → All (λ x. occurs x zs ≡ true) xs
occurs_each [] zs h = tt
occurs_each (x ∷ xs) zs h =
    (h x (rw (eq_refl x) refl), occurs_each xs zs (λ y e. h y (occurs-later y e)))
  where
    occurs-later : (y : String) → occurs y xs ≡ true → occurs y (x ∷ xs) ≡ true
    occurs-later y e = ground (arith, e)

occurs-insert :
    (x y : String) (l r : List String)
    → (x == y) ≡ false
    → occurs y (l ++ r) ≡ false
    → occurs y (l ++ x ∷ r) ≡ false
occurs-insert x y [] r e h = ground arith
occurs-insert x y (z ∷ l) r e h = ground (arith, occurs-insert x y l r e)

IsDistinct-insert :
    (x : String) (l r : List String)
    → occurs x (l ++ r) ≡ false
    → IsDistinct (l ++ r)
    → IsDistinct (l ++ x ∷ r)
IsDistinct-insert x [] r h d = (h, d)
IsDistinct-insert x (z ∷ l) r h (f, d) = (
  occurs-insert x z l r (ground (arith, eq_iff x z, eq_iff z x)) f,
  IsDistinct-insert x l r (ground arith) d,
)

-- A list that holds all of as many different texts holds different ones.
pub occurs-IsDistinct :
    (xs ys : List String)
    → IsDistinct xs
    → All (λ x. occurs x ys ≡ true) xs
    → length ys ≡ length xs
    → IsDistinct ys
occurs-IsDistinct [] [] d h n = tt
occurs-IsDistinct [] (y ∷ ys) d h n = absurd (omega arith)
occurs-IsDistinct (x ∷ xs) ys (d, ds) (h, hs) n =
    let (l, r, p) = occurs-split x ys h in
    let rest = others-occur x l r xs d (subst (λ zs. All (λ y. occurs y zs ≡ true) xs) p hs) in
    let size : length (l ++ r) ≡ length xs =
      grind (arith, length-append l r, length-append l (x ∷ r)) in
    let absent = any-Perm (λ y. y == x) (occurs-Perm xs (l ++ r) ds rest size) ∙ d in
    rw p (IsDistinct-insert x l r absent (occurs-IsDistinct xs (l ++ r) ds rest size))
