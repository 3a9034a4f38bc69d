-- ===== src/Serve/Latency.antt =====
-- cmd/gdcc/metrics.go: the histogram of the latencies. A float64 is any type with a comparison and a
-- sum.
use gdcc.Base.{
  ℕ, ◌+◌, ◌%◌, ◌^◌, ◌≡◌, refl, ap, ap₂, ◌∙◌, Bool, List, [], ◌∷◌, map, length, if◌then◌else◌,
  Bool-cases, inl, inr, arith,
}
use gdcc.Serve.{inc}

-- The part of `metrics` that the mutex guards.
pub record Histogram (F : Type 0) : Type 0 where
  pub buckets : List F
  pub bcounts : List ℕ
  pub sum : F
  pub count : ℕ

module _ {F : Type 0} (le : F → F → Bool) (plus : F → F → F) where
  -- The loop of `observe`.
  unfoldable pub observe_loop : F → List F → List ℕ → List ℕ
  unfolding inc
  observe_loop seconds (b ∷ buckets) (n ∷ bcounts) =
      (if le seconds b then inc n else n) ∷ observe_loop seconds buckets bcounts
  observe_loop seconds _ _ = []

  unfoldable pub observe : F → Histogram F → Histogram F
  unfolding observe_loop inc
  observe seconds m = record m {
    bcounts = observe_loop seconds m.buckets m.bcounts;
    sum = plus m.sum seconds;
    count = inc m.count;
  }

  -- The requests that `instrument` has timed.
  unfoldable pub observe_all : List F → Histogram F → Histogram F
  unfolding observe
  observe_all [] m = m
  observe_all (s ∷ ss) m = observe_all ss (observe s m)

-- `newMetrics`, with its bounds and 0 as numbers of the type.
abbrev pub new_histogram : {F : Type 0} → List F → F → Histogram F
new_histogram buckets zero_sum = record {
  buckets = buckets;
  bcounts = map (λ b. 0) buckets;
  sum = zero_sum;
  count = 0;
}

module _ {F : Type 0} (le : F → F → Bool) (plus : F → F → F) where
  -- `n` and the latencies that are within the bound.
  abbrev pub within_bound : ℕ → List F → F → ℕ
  within_bound n [] b = n
  within_bound n (s ∷ ss) b = within_bound (n + (if le s b then 1 else 0)) ss b

  observe_loop-map :
      (s : F) (n : F → ℕ) (bs : List F)
      → observe_loop le plus s bs (map (λ b. n b % 2 ^ 64) bs)
        ≡ map (λ b. (n b + (if le s b then 1 else 0)) % 2 ^ 64) bs
  unfolding observe_loop inc
  observe_loop-map s n [] = refl
  observe_loop-map s n (b ∷ bs) = ap₂ (λ k ks. k ∷ ks) here (observe_loop-map s n bs)
    where
      here :
          (if le s b then inc (n b % 2 ^ 64) else (n b % 2 ^ 64))
          ≡ (n b + (if le s b then 1 else 0)) % 2 ^ 64
      here = elim (Bool-cases (le s b)) [
        | inl in_bound ↦ rw in_bound (omega arith)
        | inr over ↦ rw over (omega arith)
      ]

  -- The numbers of a histogram, from those that it had.
  record Counts (m : Histogram F) (n : F → ℕ) (total : ℕ) : Type 0 where
    bounds : m.bcounts ≡ map (λ b. n b % 2 ^ 64) m.buckets
    total_count : m.count ≡ total % 2 ^ 64

  observe_all-from :
      (ss : List F) (m : Histogram F) (n : F → ℕ) (total : ℕ)
      → Counts m n total
      → ((observe_all le plus ss m).bcounts ≡ map (λ b. within_bound (n b) ss b % 2 ^ 64) m.buckets)
        × ((observe_all le plus ss m).count ≡ (total + length ss) % 2 ^ 64)
  unfolding observe_all observe
  observe_all-from [] m n total c = (c.bounds, c.total_count ∙ ap (λ k. k % 2 ^ 64) (omega arith))
  observe_all-from (s ∷ ss) m n total c =
      let (bounds, counted) =
        observe_all-from ss (observe le plus s m) (λ b. n b + (if le s b then 1 else 0)) (total + 1)
          (record {
            bounds =
                ap (observe_loop le plus s m.buckets) c.bounds ∙ observe_loop-map s n m.buckets;
            total_count = unfold inc in omega (arith, c.total_count);
          }) in
      (bounds, counted ∙ ap (λ k. k % 2 ^ 64) (omega arith))

  -- Behind any latencies, each bucket of the histogram counts those within its bound, and the last
  -- count is that of all, in 64 bits.
  pub observe_all-counts :
      (ss buckets : List F) (zero_sum : F)
      → ((observe_all le plus ss (new_histogram buckets zero_sum)).bcounts
          ≡ map (λ b. within_bound 0 ss b % 2 ^ 64) buckets)
        × ((observe_all le plus ss (new_histogram buckets zero_sum)).count ≡ length ss % 2 ^ 64)
  observe_all-counts ss buckets zero_sum =
      let (bounds, counted) =
        observe_all-from ss (new_histogram buckets zero_sum) (λ b. 0) 0
          (record { bounds = refl; total_count = refl }) in
      (bounds, counted ∙ ap (λ k. k % 2 ^ 64) (omega arith))
