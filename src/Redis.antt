-- ===== src/Redis.antt =====
-- Redis, the store that the services share, as an interface: the commands that the program calls,
-- with the part of their documented behaviour that it relies on. A value of a hash is the JSON text
-- or plain text that the program stores, represented by the value that it stands for.
pub mod Memory
use mathlib.Core.Option
use judge_self.Common.{
  ℕ, suc, ◌-◌, [], ◌∷◌, length, take, drop, All, String, ◌≡◌, ◌≢◌, Option, none, some, List, any,
  ◌==◌, ◌&&◌, if◌then◌else◌,
}
use judge_self.Common.Int.{ℤ, pos, ◌-ℤ◌}
use judge_self.Common.Sort.Laws.{IsSorted}

-- The position of a member.
abbrev pub index_of : String → List (String × ℤ) → Option ℕ
index_of m [] = none
index_of m ((j, x) ∷ rest) = if j == m then some 0 else Option.map suc (index_of m rest)

-- Descending scores.
abbrev pub by_rank : String × ℤ → String × ℤ → ℤ
by_rank (m, x) (n, y) = y -ℤ x

pub record Redis (V S : Type 0) : Type 0 where
  -- HGET, HSET and HDEL of a key and a field
  pub hget : S → String → String → Option V
  pub hset : S → String → String → V → S
  pub hdel : S → String → String → S
  -- ZADD of a score and a member to the sorted set of a key, and ZSCORE
  pub zadd : S → String → ℤ → String → S
  pub zscore : S → String → String → Option ℤ
  -- ZCARD, ZREVRANK of a member, and ZRANGE of a start and a stop with REV and WITHSCORES
  pub zcard : S → String → ℕ
  pub zrev_rank : S → String → String → Option ℕ
  pub zrange_rev : S → String → ℤ → ℤ → List (String × ℤ)
  -- The members of a sorted set from the highest score down, to which the last three refer.
  pub ranking : S → String → List (String × ℤ)
  -- UNLINK of keys
  pub unlink : S → List String → S
  pub hget-hset :
      (s : S) (k f : String) (v : V) (k' f' : String)
      → hget (hset s k f v) k' f' ≡ (if k == k' && f == f' then some v else hget s k' f')
  pub hget-hdel :
      (s : S) (k f k' f' : String)
      → hget (hdel s k f) k' f' ≡ (if k == k' && f == f' then none else hget s k' f')
  pub zscore-zadd :
      (s : S) (k : String) (x : ℤ) (m k' m' : String)
      → zscore (zadd s k x m) k' m' ≡ (if k == k' && m == m' then some x else zscore s k' m')
  -- A command changes its own key only.
  pub hget-zadd :
      (s : S) (k : String) (x : ℤ) (m k' f' : String)
      → k ≢ k'
      → hget (zadd s k x m) k' f' ≡ hget s k' f'
  pub zscore-hset :
      (s : S) (k f : String) (v : V) (k' m' : String)
      → k ≢ k'
      → zscore (hset s k f v) k' m' ≡ zscore s k' m'
  pub zscore-hdel :
      (s : S) (k f k' m' : String) → k ≢ k' → zscore (hdel s k f) k' m' ≡ zscore s k' m'
  pub hget-unlink :
      (s : S) (ks : List String) (k f : String)
      → hget (unlink s ks) k f ≡ (if any (λ j. j == k) ks then none else hget s k f)
  pub zscore-unlink :
      (s : S) (ks : List String) (k m : String)
      → zscore (unlink s ks) k m ≡ (if any (λ j. j == k) ks then none else zscore s k m)
  pub ranking-IsSorted : (s : S) (k : String) → IsSorted by_rank (ranking s k)
  pub ranking-zscore : (s : S) (k : String) → All (λ e. zscore s k e.0 ≡ some e.1) (ranking s k)
  pub zcard-ranking : (s : S) (k : String) → zcard s k ≡ length (ranking s k)
  pub zrev_rank-ranking : (s : S) (k m : String) → zrev_rank s k m ≡ index_of m (ranking s k)
  pub zrange_rev-ranking :
      (s : S) (k : String) (i j : ℕ)
      → zrange_rev s k (pos i) (pos j) ≡ take (suc j - i) (drop i (ranking s k))
