-- ===== src/Tests/Queues.antt =====
-- The queue between threads, the measurement files, and the shares of partitions.
use iceflow.Prelude.{
  false, ℕ, ◌<◌, ◌≤◌, ◌≡◌, refl, none, some, List, [], ◌∷◌, ◌++◌, String, arith, length, is_listed,
  ◌↔◌, true,
}
use iceflow.Prelude.Signed.{pos}
use iceflow.RingBuffer
use iceflow.RingBuffer.{
  Op, push, push_data, wait_and_pop_value, Thread, returned, waiting, wait, calling, notifying,
  Event, stored, System, Step, invoke, proceed, Reach, here, next, perform, events, reaches,
}
use iceflow.RingBuffer.Plain.{plain_buffer, plain_buffer-IsLawful}
use iceflow.RingBuffer.Queue.{stored_values, gone_values, taken_values}
use iceflow.RingBuffer.Threads.{NoLostWakeup, Reach-NoLostWakeup, Reach-ordered}
use iceflow.RingBuffer.Waking.{CanReturn, Reach-CanReturn}
use iceflow.RingBuffer.Lossless.{is_careful, Reach-lossless}
use iceflow.WordCount.{create_consumer_partitions}
use iceflow.WordCount.Shares.{IsShare, create_consumer_partitions_lem}
use iceflow.Measurements.{Entry, create}
use iceflow.Tests.Words.{a_folder}
use iceflow.Measurements.Files.{set_fields, Written, set_fields-Written}

-- One thread has pushed a value.
abbrev after_push : System (plain_buffer ℕ)
after_push = record { queue = (10_000, 5 ∷ []); threads = notifying none ∷ [] }

abbrev push_5 : Op ℕ
push_5 = push_data 5 (pos 100)

push_5_proceeds : perform (plain_buffer ℕ) push_5 (10_000, []) ≡ some (none, (10_000, 5 ∷ []))
unfolding perform reaches
push_5_proceeds = refl

Reach-push :
    Reach
      (plain_buffer ℕ)
      is_careful
      1
      (events (plain_buffer ℕ) push_5 (10_000, []) none)
      after_push
unfolding RingBuffer.create
Reach-push =
    next (next here (invoke (10_000, []) [] [] none push_5 refl))
      (proceed (10_000, []) (10_000, 5 ∷ []) [] [] none push_5 push_5_proceeds)

Reach-NoLostWakeup_example : NoLostWakeup (plain_buffer ℕ) after_push
Reach-NoLostWakeup_example =
    Reach-NoLostWakeup (plain_buffer ℕ) is_careful 1 _ after_push Reach-push

abbrev held : List ℕ
held = 5 ∷ []

Reach-ordered_example :
    (length held ≤ 10_000)
    × (RingBuffer.size (plain_buffer ℕ) (10_000, held) ≡ pos 1)
    × (RingBuffer.empty (plain_buffer ℕ) (10_000, held) ≡ false)
    × (stored_values (events (plain_buffer ℕ) push_5 (10_000, []) none)
        ≡ gone_values (events (plain_buffer ℕ) push_5 (10_000, []) none) ++ 5 ∷ [])
Reach-ordered_example =
    Reach-ordered (plain_buffer ℕ) (plain_buffer-IsLawful ℕ) is_careful 1
      (events (plain_buffer ℕ) push_5 (10_000, []) none) after_push Reach-push

Reach-lossless_example :
    stored_values (events (plain_buffer ℕ) push_5 (10_000, []) none)
    ≡ taken_values (events (plain_buffer ℕ) push_5 (10_000, []) none) ++ 5 ∷ []
Reach-lossless_example =
    Reach-lossless (plain_buffer ℕ) (plain_buffer-IsLawful ℕ) 1
      (events (plain_buffer ℕ) push_5 (10_000, []) none) after_push Reach-push

abbrev print : ℕ → String
print n = "n"

abbrev measured : List Entry
measured =
    record { interest = "0"; entryname = "CMP_START"; timestamp = 1; size = 0 }
    ∷ record { interest = "0"; entryname = "CMP_FINISH"; timestamp = 2; size = 0 }
    ∷ record { interest = "1"; entryname = "CMP_START"; timestamp = 3; size = 0 }
    ∷ []

threshold_above :
    length (create "run" "node" 2 "A").entries < (create "run" "node" 2 "A").save_threshold
unfolding create
threshold_above = omega arith

set_fields-Written_example :
    Written print
      (create "run" "node" 2 "A")
      measured
      a_folder
      (set_fields print measured (create "run" "node" 2 "A") a_folder)
set_fields-Written_example =
    set_fields-Written print measured (create "run" "node" 2 "A") a_folder threshold_above

create_consumer_partitions_lem_example :
    (ps : List ℕ) × (create_consumer_partitions 9 7 1 2 ≡ some ps)
    × ((k : ℕ) → (is_listed k ps ≡ true) ↔ IsShare 7 2 1 k)
create_consumer_partitions_lem_example =
    create_consumer_partitions_lem 7 2 (omega arith) (omega arith) 1

-- A pop waits, and another thread has pushed a value and has yet to notify.
abbrev pop_waits : System (plain_buffer ℕ)
pop_waits = record {
  queue = (10_000, held);
  threads = waiting wait_and_pop_value ∷ notifying none ∷ [];
}

pop_has_to_wait : perform (plain_buffer ℕ) wait_and_pop_value (10_000, []) ≡ none
unfolding perform
pop_has_to_wait = refl

pop_could_go_on :
    perform (plain_buffer ℕ) wait_and_pop_value (10_000, held) ≡ some (some 5, (10_000, []))
unfolding perform
pop_could_go_on = refl

Reach-pop_waits :
    Reach (plain_buffer ℕ) is_careful 2 (events (plain_buffer ℕ) push_5 (10_000, []) none) pop_waits
unfolding RingBuffer.create
Reach-pop_waits =
    next
      (next
        (next (next here (invoke (10_000, []) [] (returned none ∷ []) none wait_and_pop_value refl))
          (wait (10_000, []) [] (returned none ∷ []) wait_and_pop_value pop_has_to_wait))
        (invoke (10_000, []) (waiting wait_and_pop_value ∷ []) [] none push_5 refl))
      (proceed (10_000, []) (10_000, held) (waiting wait_and_pop_value ∷ []) [] none push_5
        push_5_proceeds)

Reach-CanReturn_example :
    CanReturn
      (plain_buffer ℕ)
      is_careful
      0
      (some 5)
      (events (plain_buffer ℕ) wait_and_pop_value (10_000, held) (some 5))
      (10_000, [])
      pop_waits
Reach-CanReturn_example =
    Reach-CanReturn (plain_buffer ℕ) is_careful 2 _ pop_waits 0 wait_and_pop_value (some 5)
      (10_000, []) Reach-pop_waits refl pop_could_go_on
