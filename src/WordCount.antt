-- ===== src/WordCount.antt =====
-- examples/wordCount/lines2words/lines2words.cpp: how the instances of a node share the partitions of
-- an edge.
pub mod Text
pub mod Recording
pub mod Splitting
pub mod Counting
pub mod Pipeline
pub mod Nodes
pub mod Shares
pub mod Main
use iceflow.Prelude.{
  ℕ, zero, suc, ◌+◌, ◌%◌, ◌^◌, Option, none, some, List, [], ◌∷◌, leb, if◌then◌else◌,
}

abbrev pub prepend : ℕ → Option (List ℕ) → Option (List ℕ)
prepend i none = none
prepend i (some rest) = some (i ∷ rest)

-- The `for` loop from `i` on, in `uint32_t`; `none` where the fuel does not last.
unfoldable pub partitions_from :
    (fuel : ℕ) → (highest_partition_number number_of_consumers i : ℕ) → Option (List ℕ)
partitions_from zero highest number i = none
partitions_from (suc fuel) highest number i =
    let rest = partitions_from fuel highest number ((i + number) % 2 ^ 32) in
    if leb i highest then prepend i rest else some []

-- `createConsumerPartitions`
unfoldable pub create_consumer_partitions :
    (fuel : ℕ) → (highest_partition_number consumer_index number_of_consumers : ℕ) → Option (List ℕ)
unfolding partitions_from
create_consumer_partitions fuel highest_partition_number consumer_index number_of_consumers =
    partitions_from fuel highest_partition_number number_of_consumers consumer_index
