-- ===== src/RingBuffer.antt =====
-- include/iceflow/ringbuffer.hpp: the queue between threads. `boost::circular_buffer` is a parameter,
-- with `IsLawful` for what its documentation promises. The part of a call that holds the mutex is one
-- function; `Step` interleaves such parts, and the calls of `wait` and `notify_all`, of any number of
-- threads. `tryAndPop`, `waitAndPop` and `waitForAndPop` are left out: they call a member function
-- `pop` that `boost::circular_buffer` does not have.
pub mod Queue
pub mod Threads
pub mod Lossless
pub mod Waking
pub mod Plain
use iceflow.Prelude.{
  ℕ, zero, suc, ◌+◌, ◌-◌, ◌%◌, ◌^◌, ◌≤◌, ◌<◌, ◌≡◌, Bool, true, false, Option, none, some, List, [],
  ◌∷◌, ◌++◌, map, length, is_empty, ltb, leb, if◌then◌else◌,
}
use iceflow.Prelude.Signed.{ℤ, pos, negsuc}

abbrev pub head? : {T : Type 0} → List T → Option T
head? [] = none
head? (x ∷ xs) = some x

abbrev pub tail : {T : Type 0} → List T → List T
tail [] = []
tail (x ∷ xs) = xs

-- `boost::circular_buffer<T>`; `contents` is what it holds, the oldest first.
pub record CircularBuffer (T : Type 0) : Type 1 where
  pub Buffer : Type 0
  pub with_capacity : ℕ → Buffer
  pub size : Buffer → ℕ
  pub empty : Buffer → Bool
  pub push_back : T → Buffer → Buffer
  pub front : Buffer → Option T
  pub pop_front : Buffer → Buffer
  pub capacity : Buffer → ℕ
  pub contents : Buffer → List T

pub record IsLawful {T : Type 0} (B : CircularBuffer T) : Type 0 where
  pub capacity-with_capacity : (n : ℕ) → B.capacity (B.with_capacity n) ≡ n
  pub contents-with_capacity : (n : ℕ) → B.contents (B.with_capacity n) ≡ []
  pub size_lem : (b : B.Buffer) → B.size b ≡ length (B.contents b)
  pub empty_lem : (b : B.Buffer) → B.empty b ≡ is_empty (B.contents b)
  pub front_lem : (b : B.Buffer) → B.front b ≡ head? (B.contents b)
  pub capacity-push_back : (x : T) (b : B.Buffer) → B.capacity (B.push_back x b) ≡ B.capacity b
  pub capacity-pop_front : (b : B.Buffer) → B.capacity (B.pop_front b) ≡ B.capacity b
  -- a full buffer loses its oldest element
  pub contents-push_back :
      (x : T) (b : B.Buffer)
      → 0 < B.capacity b
      → B.contents (B.push_back x b) ≡ (
          (if ltb (length (B.contents b)) (B.capacity b) then B.contents b else tail (B.contents b))
          ++ x ∷ [])
  pub contents-pop_front : (b : B.Buffer) → B.contents (B.pop_front b) ≡ tail (B.contents b)

-- `m_queue.size() >= threshold` compares as `size_t`: a negative threshold becomes a large number.
unfoldable pub reaches : ℕ → ℤ → Bool
reaches size (pos threshold) = leb threshold size
reaches size (negsuc n) = leb (2 ^ 64 - 1 - n) size

-- A call of `push`, `pushData` or `waitAndPopValue`.
pub data Op (T : Type 0) : Type 0 where
  push : T → Op T
  push_data : T → (threshold : ℤ) → Op T
  wait_and_pop_value : Op T

-- Where a thread is: it returned from its last call, it wants the mutex for a call (or wants it back
-- after a wait), it waits on the condition variable, or it has released the mutex and will notify.
pub data Thread (T : Type 0) : Type 0 where
  returned : Option T → Thread T
  calling : Op T → Thread T
  waiting : Op T → Thread T
  notifying : Option T → Thread T

-- What happens to a value: it comes in, it is returned to a caller, or it is overwritten.
pub data Event (T : Type 0) : Type 0 where
  stored taken overwritten : T → Event T

abbrev pub idle_threads : {T : Type 0} → ℕ → List (Thread T)
idle_threads zero = []
idle_threads (suc n) = returned none ∷ idle_threads n

unfoldable pub wake : {T : Type 0} → Thread T → Thread T
wake (returned r) = returned r
wake (calling op) = calling op
wake (waiting op) = calling op
wake (notifying r) = notifying r

module _ {T : Type 0} (B : CircularBuffer T) where
  open B use {Buffer}

  -- `RingBuffer()`
  unfoldable pub create : Buffer
  create = B.with_capacity 10_000

  -- `size`: a cast to a 32-bit `int`
  unfoldable pub size : Buffer → ℤ
  size q = let n = B.size q % 2 ^ 32 in if ltb n (2 ^ 31) then pos n else negsuc (2 ^ 32 - n - 1)

  -- `empty`
  unfoldable pub empty : Buffer → Bool
  empty q = B.empty q

  -- What a call does while it holds the mutex, with what it returns; `none` where it waits.
  unfoldable pub perform : Op T → Buffer → Option (Option T × Buffer)
  unfolding reaches
  perform (push value) q = some (none, B.push_back value q)
  perform (push_data value threshold) q =
      if reaches (B.size q) threshold then none else some (none, B.push_back value q)
  perform wait_and_pop_value q = if B.empty q then none else some (B.front q, B.pop_front q)

  store_events : T → Buffer → List (Event T)
  store_events value q =
      if ltb (B.size q) (B.capacity q) then stored value ∷ [] else (elim (B.front q) [
        | none ↦ stored value ∷ []
        | some x ↦ overwritten x ∷ stored value ∷ []
      ])

  -- What happens to values where a call does not wait, by the queue before it and what it returns.
  unfoldable pub events : Op T → Buffer → Option T → List (Event T)
  unfolding store_events
  events (push value) q r = store_events value q
  events (push_data value threshold) q r = store_events value q
  events wait_and_pop_value q r = elim r [ none ↦ [] | some x ↦ taken x ∷ [] ]

  pub record System : Type 0 where
    pub queue : Buffer
    pub threads : List (Thread T)

  -- One step of one thread; calls are of the allowed kind.
  pub data Step (allowed : Op T → Bool) : System → List (Event T) → System → Type 0 where
    invoke :
        (q : Buffer) (before after : List (Thread T)) (r : Option T) (op : Op T)
        → allowed op ≡ true
        → Step allowed
            (record { queue = q; threads = before ++ returned r ∷ after })
            []
            (record { queue = q; threads = before ++ calling op ∷ after })
    proceed :
        (q q' : Buffer) (before after : List (Thread T)) (r : Option T) (op : Op T)
        → perform op q ≡ some (r, q')
        → Step allowed
            (record { queue = q; threads = before ++ calling op ∷ after })
            (events op q r)
            (record { queue = q'; threads = before ++ notifying r ∷ after })
    wait :
        (q : Buffer) (before after : List (Thread T)) (op : Op T)
        → perform op q ≡ none
        → Step allowed
            (record { queue = q; threads = before ++ calling op ∷ after })
            []
            (record { queue = q; threads = before ++ waiting op ∷ after })
    notify_all :
        (q : Buffer) (before after : List (Thread T)) (r : Option T)
        → Step allowed
            (record { queue = q; threads = before ++ notifying r ∷ after })
            []
            (record { queue = q; threads = map wake before ++ returned r ∷ map wake after })
    wake_spuriously :
        (q : Buffer) (before after : List (Thread T)) (op : Op T)
        → Step allowed
            (record { queue = q; threads = before ++ waiting op ∷ after })
            []
            (record { queue = q; threads = before ++ calling op ∷ after })

  -- What can be reached from a new queue and `n` threads, with what happened on the way.
  pub data Reach (allowed : Op T → Bool) (n : ℕ) : List (Event T) → System → Type 0 where
    here : Reach allowed n [] (record { queue = create; threads = idle_threads n })
    next :
        {trace happened : List (Event T)} {s s' : System}
        → Reach allowed n trace s
        → Step allowed s happened s'
        → Reach allowed n (trace ++ happened) s'
