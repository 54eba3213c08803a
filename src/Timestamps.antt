-- ===== src/Timestamps.antt =====
-- The window of time stamps that IceflowConsumer and IceflowProducer keep (src/consumer.cpp,
-- src/producer.cpp). A `steady_clock` time is its nanoseconds since the clock's epoch, and the
-- difference of two of them is signed.
pub mod Window
use iceflow.Prelude.{ℕ, ◌+◌, ◌-◌, ◌/◌, ◌%◌, ◌^◌, List, [], ◌∷◌, ◌++◌, leb, if◌then◌else◌}
use iceflow.Prelude.Signed.{sub_ℕ, leb_ℤ}

-- `std::chrono::seconds(1)`
abbrev pub one_second : ℕ
one_second = 1_000_000_000

abbrev pub millisecond : ℕ
millisecond = 1_000_000

-- The `while` loop of `cleanUpTimestamps`: the oldest time stamp goes while
-- `firstValue - referenceTimepoint` is above the age.
unfoldable pub clean_up_timestamps : ℕ → ℕ → List ℕ → List ℕ
unfolding leb_ℤ sub_ℕ
clean_up_timestamps max_age reference [] = []
clean_up_timestamps max_age reference (first_value ∷ rest) =
    let cleaned = clean_up_timestamps max_age reference rest in
    if leb_ℤ (sub_ℕ first_value reference) max_age then first_value ∷ rest else cleaned

-- `push_back`, then the loop with the new time stamp as the reference.
unfoldable pub save_timestamp : ℕ → ℕ → List ℕ → List ℕ
unfolding clean_up_timestamps
save_timestamp max_age timestamp stamps =
    clean_up_timestamps max_age timestamp (stamps ++ timestamp ∷ [])

-- `determineIdleTime`: `duration_cast` to milliseconds rounds towards zero, and the cast to
-- `uint64_t` wraps a negative count.
unfoldable pub determine_idle_time : ℕ → ℕ → ℕ
determine_idle_time idle_since reference =
    if leb idle_since reference
    then ((reference - idle_since) / millisecond) % 2 ^ 64
    else (2 ^ 64 - (idle_since - reference) / millisecond) % 2 ^ 64
