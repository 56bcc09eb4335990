-- ===== src/Cleanup/Tests.antt =====
-- A run of the clean-up (src/traffik/backends/inmemory.py), and its theorem at it.
use traffik.Base.{
  ℕ, zero, suc, ◌*◌, ◌<◌, ◌≤◌, ◌≡◌, refl, ap, some, List, [], ◌∷◌, length, All, arith,
}
use traffik.Base.Text.{codes}
use traffik.Result.{Returns}
use traffik.Shard.{Shard, text, empty, store}
use traffik.Shard.Sampling.{IsIndexed, empty-IsIndexed, store-IsIndexed}
use traffik.Cleanup.{cleanup_shard}
use traffik.Cleanup.Unseen.{IsSample, Unseen, cleanup_shard-Unseen}

-- A sample that takes the first numbers.
abbrev first_numbers : ℕ → List ℕ
first_numbers zero = []
first_numbers (suc k) = k ∷ first_numbers k

length-first_numbers : (k : ℕ) → length (first_numbers k) ≡ k
length-first_numbers zero = refl
length-first_numbers (suc k) = ap suc (length-first_numbers k)

first_numbers-All : (n k : ℕ) → k ≤ n → All (λ p. p < n) (first_numbers k)
first_numbers-All n zero h = tt
first_numbers-All n (suc k) h = (omega (arith, h), first_numbers-All n k (omega (arith, h)))

first-IsSample : IsSample (λ i n k. first_numbers k)
first-IsSample i n k h = (length-first_numbers k, first_numbers-All n k h)

-- One entry has expired at 50, the other lives until 90.
abbrev shard : Shard
shard =
    store (codes "a") (text (codes "1"), some 40)
      (store (codes "b") (text (codes "2"), some 90) empty)

shard-IsIndexed : IsIndexed shard
shard-IsIndexed =
    store-IsIndexed (store (codes "b") (text (codes "2"), some 90) empty) (codes "a")
      (text (codes "1"), some 40)
      (store-IsIndexed empty (codes "b") (text (codes "2"), some 90) empty-IsIndexed)

cleanup_shard-Unseen_example :
    Returns
      (cleanup_shard (λ i n k. first_numbers k) (λ i. 50) 20 shard)
      (λ r. Unseen 50 shard r.1 × (r.0 ≤ 5 * 20))
cleanup_shard-Unseen_example =
    cleanup_shard-Unseen (λ i n k. first_numbers k) (λ i. 50) 20 50 first-IsSample
      (λ i. omega arith) shard shard-IsIndexed
