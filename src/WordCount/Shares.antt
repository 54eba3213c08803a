-- ===== src/WordCount/Shares.antt =====
-- Which partitions an instance gets.
use iceflow.Prelude.{
  ℕ, zero, suc, ◌+◌, ◌*◌, ◌%◌, ◌^◌, ◌≤◌, ◌<◌, ◌≡◌, ◌↔◌, refl, true, false, ◌⊎◌, inl, inr, Option,
  some, List, [], ◌∷◌, arith, leb, ◌==◌, is_listed, Bool-cases,
}
use iceflow.WordCount.{prepend, partitions_from, create_consumer_partitions}

-- The numbers `i`, `i + number`, and so on, up to the highest.
abbrev pub IsShare : (highest number i k : ℕ) → Type 0
IsShare highest number i k = (k ≤ highest) × ((m : ℕ) × (k ≡ i + m * number))

module _ (highest number : ℕ) (positive : 0 < number) (small : highest + number < 2 ^ 32) where
  Shared : ℕ → Option (List ℕ) → Type 0
  Shared i r =
      (ps : List ℕ) × (r ≡ some ps)
      × ((k : ℕ) → (is_listed k ps ≡ true) ↔ IsShare highest number i k)

  Shared-past : (i : ℕ) → leb i highest ≡ false → Shared i (some [])
  unfolding Shared
  Shared-past i past =
      ([], refl, λ k. ((λ e. absurd (no_member e)), λ (below, (m, e)). absurd (beyond k m below e)))
    where
      no_member : false ≡ true → ⊥
      no_member e = cc

      beyond : (k m : ℕ) → k ≤ highest → k ≡ i + m * number → ⊥
      beyond k m below e = ground (arith, past)

  first_or_later :
      (i k : ℕ) → IsShare highest number i k → (k ≡ i) ⊎ IsShare highest number (i + number) k
  first_or_later i k (below, (zero, e)) = inl (omega arith)
  first_or_later i k (below, (suc m, e)) = inr (below, (m, omega arith))

  later : (i k : ℕ) → IsShare highest number (i + number) k → IsShare highest number i k
  later i k (below, (m, e)) = (below, (suc m, omega arith))

  Shared-prepend :
      (i : ℕ) (r : Option (List ℕ)) → i ≤ highest → Shared (i + number) r → Shared i (prepend i r)
  unfolding Shared
  Shared-prepend i r inside (ps, e, shared) = (i ∷ ps, rw e, λ k. (listed k, unlisted k))
    where
      listed : (k : ℕ) → is_listed k (i ∷ ps) ≡ true → IsShare highest number i k
      listed k h = elim (Bool-cases (k == i)) [
        | inl same ↦ (ground (arith, same), (0, ground (arith, same)))
        | inr other ↦ later i k ((shared k).0 (ground (arith, other, h)))
      ]

      unlisted : (k : ℕ) → IsShare highest number i k → is_listed k (i ∷ ps) ≡ true
      unlisted k h = elim (first_or_later i k h) [
        | inl same ↦ ground (arith, same)
        | inr more ↦ let e = (shared k).1 more in ground (arith, e)
      ]

  partitions_from-Shared :
      (fuel i : ℕ)
      → highest + 1 < fuel + i
      → 0 < fuel
      → Shared i (partitions_from fuel highest number i)
  unfolding partitions_from
  partitions_from-Shared zero i enough some_fuel = absurd (omega arith)
  partitions_from-Shared (suc fuel) i enough some_fuel = elim (Bool-cases (leb i highest)) [
    | inr past ↦ rw (partitions_from, past) (Shared-past i past)
    | inl inside ↦
        let within : i ≤ highest = ground (arith, inside) in
        let e : (i + number) % 2 ^ 32 ≡ i + number = omega (arith, within, small) in
        rw (partitions_from, inside)
          (Shared-prepend i (partitions_from fuel highest number ((i + number) % 2 ^ 32)) within
            (rw e (partitions_from-Shared fuel (i + number) (omega arith) (omega arith))))
  ]

  pub create_consumer_partitions_enough :
      (fuel consumer_index : ℕ)
      → highest + 2 ≤ fuel
      → (ps : List ℕ) × (create_consumer_partitions fuel highest consumer_index number ≡ some ps)
        × ((k : ℕ) → (is_listed k ps ≡ true) ↔ IsShare highest number consumer_index k)
  unfolding create_consumer_partitions Shared
  create_consumer_partitions_enough fuel consumer_index enough =
      partitions_from-Shared fuel consumer_index (omega arith) (omega arith)

  -- For a positive number of consumers, and a highest partition that is below 2^32 by more than that
  -- number, `createConsumerPartitions` ends after at most two rounds more than that partition's
  -- number, and gives exactly the partitions from the consumer's index on, in steps of the number of
  -- consumers, up to and including the highest.
  pub create_consumer_partitions_lem :
      (consumer_index : ℕ)
      → (ps : List ℕ) × (create_consumer_partitions (highest + 2) highest consumer_index number
          ≡ some ps)
        × ((k : ℕ) → (is_listed k ps ≡ true) ↔ IsShare highest number consumer_index k)
  create_consumer_partitions_lem consumer_index =
      create_consumer_partitions_enough (highest + 2) consumer_index (omega arith)
