-- ===== src/Common/Paging.antt =====
-- Pages of a list, as LIMIT and OFFSET cut them, and the number of pages.
use Prim.Native.Nat.{ℕ, zero, suc, ◌+◌, ◌-◌, ◌*◌, ◌/◌, ◌≤◌, ◌<◌}
use mathlib.Core.Path.{◌≡◌, refl, sym, ap, ◌∙◌}
use mathlib.Core.List.{List, [], ◌∷◌, ◌++◌}
use native.Mathlib.Omega.{arith}
use judge_self.Common.Lists.{length, take, drop}

-- `Math.ceil(total / size)`
abbrev pub ceil_div : ℕ → ℕ → ℕ
ceil_div total size = (total + (size - 1)) / size

module _ {ℓ} {A : Type ℓ} where
  -- The page with `i` pages before it.
  abbrev pub page : ℕ → ℕ → List A → List A
  page size i xs = take size (drop (i * size) xs)

  -- The first `n` pages, one after the other.
  pub pages : ℕ → ℕ → List A → List A
  pages size zero xs = []
  pages size (suc n) xs = pages size n xs ++ page size n xs

  take-nil : (n : ℕ) → take {A = A} n [] ≡ []
  take-nil zero = refl
  take-nil (suc n) = refl

  take-append-take : (m n : ℕ) (xs : List A) → take m xs ++ take n (drop m xs) ≡ take (m + n) xs
  take-append-take zero n xs = ap (λ k. take k xs) (omega arith)
  take-append-take (suc m) n [] = take-nil n ∙ sym (take-nil (suc m + n))
  take-append-take (suc m) n (x ∷ xs) =
      ap (◌∷◌ x) (take-append-take m n xs) ∙ ap (λ k. take k (x ∷ xs)) e
    where
      e : suc (m + n) ≡ suc m + n
      e = omega arith

  take_all : (n : ℕ) (xs : List A) → length xs ≤ n → take n xs ≡ xs
  take_all zero [] h = refl
  take_all zero (x ∷ xs) h = absurd (omega arith)
  take_all (suc n) [] h = refl
  take_all (suc n) (x ∷ xs) h = ap (◌∷◌ x) (take_all n xs (omega arith))

  take_zero : (xs : List A) → take 0 xs ≡ []
  take_zero [] = refl
  take_zero (x ∷ xs) = refl

  pages-take : (size n : ℕ) (xs : List A) → pages size n xs ≡ take (n * size) xs
  unfolding pages
  pages-take size zero xs = sym (take_zero xs) ∙ ap (λ k. take k xs) e
    where
      e : 0 ≡ zero * size
      e = omega arith
  pages-take size (suc n) xs =
      ap (λ l. l ++ page size n xs) (pages-take size n xs)
      ∙ take-append-take (n * size) size xs
      ∙ ap (λ k. take k xs) e
    where
      e : n * size + size ≡ suc n * size
      e = omega arith

  -- The pages up to the computed number of pages are the whole list, each item once.
  pub pages-ceil_div :
      (size : ℕ) (xs : List A) → 0 < size → pages size (ceil_div (length xs) size) xs ≡ xs
  pages-ceil_div size xs h =
      pages-take size (ceil_div (length xs) size) xs
      ∙ take_all (ceil_div (length xs) size * size) xs (ceil_le size (length xs) h)
    where
      ceil_le : (size n : ℕ) → 0 < size → n ≤ (n + (size - 1)) / size * size
      ceil_le size n h = omega arith
