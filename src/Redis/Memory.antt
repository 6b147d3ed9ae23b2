-- ===== src/Redis/Memory.antt =====
-- A store in memory that has the behaviour which the interface states, with a hash and a sorted set
-- for every key. It shows that the interface can be met.
use judge_self.Common.{
  ℕ, suc, ◌-◌, String, ◌≡◌, refl, Option, none, some, List, [], ◌∷◌, any, ◌==◌, ◌&&◌, length, take,
  drop, All, eq_iff, arith, Bool-cases, inl, inr, if◌then◌else◌,
}
use judge_self.Common.Int.{ℤ, pos, negsuc, -ℤ_parts}
use judge_self.Common.Assoc.{Assoc, lookup, assign, lookup-assign}
use judge_self.Common.Sort.{sort}
use judge_self.Common.Sort.Laws.{IsOrder, sort-IsSorted, All-sort}
use judge_self.Redis.{Redis, index_of, by_rank}

abbrev pub Table : Type 0 → Type 0
Table V = String → String → Option V

pub record Memory (V : Type 0) : Type 0 where
  pub hashes : Table V
  pub sets : String → Assoc ℤ

module _ {V : Type 0} where
  abbrev pub write : Table V → String → String → Option V → Table V
  write t k f v k' f' = if k == k' && f == f' then v else t k' f'

  abbrev pub clear : Table V → List String → Table V
  clear t ks k f = if any (λ j. j == k) ks then none else t k f

  abbrev pub no_data : Memory V
  no_data = record { hashes = λ k f. none; sets = λ k. [] }

abbrev pub Sets : Type 0
Sets = String → Assoc ℤ

abbrev pub add : Sets → String → ℤ → String → Sets
add t k x m k' = if k == k' then assign m x (t k') else t k'

abbrev pub clear_sets : Sets → List String → Sets
clear_sets t ks k = if any (λ j. j == k) ks then [] else t k

pub lookup-add :
    (t : Sets) (k : String) (x : ℤ) (m k' m' : String)
    → lookup m' (add t k x m k') ≡ (if k == k' && m == m' then some x else lookup m' (t k'))
lookup-add t k x m k' m' = elim (Bool-cases (k == k')) [
  | inl e ↦ rw e (lookup-assign m m' x (t k'))
  | inr e ↦ rw e
]

pub lookup-clear_sets :
    (t : Sets) (ks : List String) (k m : String)
    → lookup m (clear_sets t ks k) ≡ (if any (λ j. j == k) ks then none else lookup m (t k))
unfolding lookup
lookup-clear_sets t ks k m = elim (Bool-cases (any (λ j. j == k) ks)) [
  | inl e ↦ rw e
  | inr e ↦ rw e
]

-- The entries that a lookup finds.
unfoldable pub without : String → Assoc ℤ → Assoc ℤ
without k [] = []
without k ((j, x) ∷ o) = let rest = without k o in if j == k then rest else (j, x) ∷ rest

unfoldable pub entries : Assoc ℤ → Assoc ℤ
unfolding without
entries [] = []
entries ((k, x) ∷ o) = (k, x) ∷ without k (entries o)

All-without :
    (k : String) (x : ℤ) (o : Assoc ℤ) (l : Assoc ℤ)
    → All (λ e. lookup e.0 o ≡ some e.1) l
    → All (λ e. lookup e.0 ((k, x) ∷ o) ≡ some e.1) (without k l)
unfolding lookup without
All-without k x o [] h = tt
All-without k x o ((j, y) ∷ l) (p, h) = elim (Bool-cases (j == k)) [
  | inl e ↦ rw e (All-without k x o l h)
  | inr e ↦ rw e (
    elim (Bool-cases (k == j)) [
      | inl f ↦ absurd (ground (arith, eq_iff k j, eq_iff j k))
      | inr f ↦ rw f p
    ],
    All-without k x o l h,
  )
]

pub entries-lookup : (o : Assoc ℤ) → All (λ e. lookup e.0 o ≡ some e.1) (entries o)
unfolding entries
entries-lookup [] = tt
entries-lookup ((k, x) ∷ o) = (
  (unfold lookup in ground (arith, eq_iff k k)),
  All-without k x o (entries o) (entries-lookup o),
)

pub by_rank-IsOrder : IsOrder by_rank
by_rank-IsOrder = record {
  total = λ x y. omega (arith, -ℤ_parts y.1 x.1, -ℤ_parts x.1 y.1);
  trans = λ x y z p q. omega (arith, -ℤ_parts y.1 x.1, -ℤ_parts z.1 y.1, -ℤ_parts z.1 x.1);
}

abbrev pub ordered : Assoc ℤ → List (String × ℤ)
ordered o = sort by_rank (entries o)

-- ZRANGE: a negative index counts from the end.
abbrev from_end : ℕ → ℤ → ℕ
from_end n (pos i) = i
from_end n (negsuc i) = n - suc i

-- One more than the last index.
abbrev past_end : ℕ → ℤ → ℕ
past_end n (pos i) = suc i
past_end n (negsuc i) = n - i

abbrev pub range : List (String × ℤ) → ℤ → ℤ → List (String × ℤ)
range l i j = take (past_end (length l) j - from_end (length l) i) (drop (from_end (length l) i) l)

abbrev pub memory : (V : Type 0) → Redis V (Memory V)
memory V = record {
  hget = λ s. s.hashes;
  hset = λ s k f v. record s { hashes = write s.hashes k f (some v) };
  hdel = λ s k f. record s { hashes = write s.hashes k f none };
  zadd = λ s k x m. record s { sets = add s.sets k x m };
  zscore = λ s k m. lookup m (s.sets k);
  zcard = λ s k. length (ordered (s.sets k));
  zrev_rank = λ s k m. index_of m (ordered (s.sets k));
  zrange_rev = λ s k. range (ordered (s.sets k));
  ranking = λ s k. ordered (s.sets k);
  unlink = λ s ks. record { hashes = clear s.hashes ks; sets = clear_sets s.sets ks };
  hget-hset = λ s k f v k' f'. refl;
  hget-hdel = λ s k f k' f'. refl;
  zscore-zadd = λ s k x m k' m'. lookup-add s.sets k x m k' m';
  hget-zadd = λ s k x m k' f' h. refl;
  zscore-hset = λ s k f v k' m' h. refl;
  zscore-hdel = λ s k f k' m' h. refl;
  hget-unlink = λ s ks k f. refl;
  zscore-unlink = λ s ks k m. lookup-clear_sets s.sets ks k m;
  ranking-IsSorted = λ s k. sort-IsSorted by_rank by_rank-IsOrder (entries (s.sets k));
  ranking-zscore = λ s k.
      All-sort by_rank (λ e. lookup e.0 (s.sets k) ≡ some e.1) (entries (s.sets k))
        (entries-lookup (s.sets k));
  zcard-ranking = λ s k. refl;
  zrev_rank-ranking = λ s k m. refl;
  zrange_rev-ranking = λ s k i j. refl;
}
