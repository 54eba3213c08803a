-- ===== src/RingBuffer/Threads.antt =====
-- What holds of the queue and its threads in every order of their steps.
use iceflow.Prelude.{
  is_empty, ℕ, zero, suc, ◌≤◌, ◌≡◌, refl, ap, sym, subst, ◌∙◌, Bool, true, false, ◌||◌, ◌⊎◌, inl,
  inr, none, List, [], ◌∷◌, ◌++◌, map, arith, length, any, All, All-append,
}
use mathlib.Core.List.{append-nil, append_assoc}
use iceflow.Prelude.Signed.{pos}
use iceflow.RingBuffer.{
  empty, size, CircularBuffer, IsLawful, Op, Thread, returned, calling, waiting, notifying, Event,
  stored, taken, overwritten, wake, idle_threads, create, perform, System, Step, invoke, proceed,
  wait, notify_all, wake_spuriously, Reach, here, next,
}
use iceflow.RingBuffer.Queue.{stored_values, gone_values, IsBounded, Advances, perform-Advances}

module _ {T : Type 0} where
  stored_values-append :
      (es fs : List (Event T)) → stored_values (es ++ fs) ≡ stored_values es ++ stored_values fs
  stored_values-append [] fs = refl
  stored_values-append (stored x ∷ es) fs = ap (◌∷◌ x) (stored_values-append es fs)
  stored_values-append (taken x ∷ es) fs = stored_values-append es fs
  stored_values-append (overwritten x ∷ es) fs = stored_values-append es fs

  pub gone_values-append :
      (es fs : List (Event T)) → gone_values (es ++ fs) ≡ gone_values es ++ gone_values fs
  gone_values-append [] fs = refl
  gone_values-append (stored x ∷ es) fs = gone_values-append es fs
  gone_values-append (taken x ∷ es) fs = ap (◌∷◌ x) (gone_values-append es fs)
  gone_values-append (overwritten x ∷ es) fs = ap (◌∷◌ x) (gone_values-append es fs)

  unfoldable pub is_notifying : Thread T → Bool
  is_notifying (returned r) = false
  is_notifying (calling op) = false
  is_notifying (waiting op) = false
  is_notifying (notifying r) = true

any-append_middle :
    {A : Type 0} (p : A → Bool) (before after : List A) (x : A)
    → any p (before ++ x ∷ after) ≡ (p x || (any p before || any p after))
any-append_middle p [] after x = ground arith
any-append_middle p (y ∷ before) after x = ground (arith, any-append_middle p before after x)

module _ {T : Type 0} (B : CircularBuffer T) where
  open B use {Buffer}

  -- A waiting thread has to wait for the queue as it is.
  unfoldable pub IsBlocked : Buffer → Thread T → Type 0
  IsBlocked q (returned r) = Unit
  IsBlocked q (calling op) = Unit
  IsBlocked q (waiting op) = perform B op q ≡ none
  IsBlocked q (notifying r) = Unit

  -- A thread that waits for something that is there already will be notified.
  unfoldable pub NoLostWakeup : System B → Type 0
  NoLostWakeup s = (any is_notifying s.threads ≡ true) ⊎ All (IsBlocked s.queue) s.threads

  wake-IsBlocked : (q : Buffer) (threads : List (Thread T)) → All (IsBlocked q) (map wake threads)
  unfolding wake IsBlocked
  wake-IsBlocked q [] = tt
  wake-IsBlocked q (returned r ∷ threads) = (tt, wake-IsBlocked q threads)
  wake-IsBlocked q (calling op ∷ threads) = (tt, wake-IsBlocked q threads)
  wake-IsBlocked q (waiting op ∷ threads) = (tt, wake-IsBlocked q threads)
  wake-IsBlocked q (notifying r ∷ threads) = (tt, wake-IsBlocked q threads)

  -- One thread moves and the queue stays.
  moved :
      (q : Buffer) (before after : List (Thread T)) (old new : Thread T)
      → is_notifying old ≡ false
      → IsBlocked q new
      → NoLostWakeup (record { queue = q; threads = before ++ old ∷ after })
      → NoLostWakeup (record { queue = q; threads = before ++ new ∷ after })
  unfolding NoLostWakeup
  moved q before after old new quiet blocked (inl h) = inl (
      ground (
        arith,
        quiet,
        any-append_middle is_notifying before after old,
        any-append_middle is_notifying before after new,
      ))
  moved q before after old new quiet blocked (inr h) = inr (replaced before h)
    where
      replaced :
          (before : List (Thread T))
          → All (IsBlocked q) (before ++ old ∷ after)
          → All (IsBlocked q) (before ++ new ∷ after)
      replaced [] h = (blocked, h.1)
      replaced (x ∷ before) h = (h.0, replaced before h.1)

  Step-NoLostWakeup :
      {allowed : Op T → Bool} {es : List (Event T)} {s s' : System B}
      → Step B allowed s es s'
      → NoLostWakeup s
      → NoLostWakeup s'
  unfolding NoLostWakeup IsBlocked is_notifying
  Step-NoLostWakeup (invoke q before after r op a) h = moved q before after _ _ refl tt h
  Step-NoLostWakeup (proceed q q' before after r op e) h =
      inl (any-append_middle is_notifying before after (notifying r))
  Step-NoLostWakeup (wait q before after op e) h = moved q before after _ _ refl e h
  Step-NoLostWakeup (notify_all q before after r) h = inr (
      All-append (IsBlocked q) (map wake before) _ (wake-IsBlocked q before)
        (tt, wake-IsBlocked q after))
  Step-NoLostWakeup (wake_spuriously q before after op) h = moved q before after _ _ refl tt h

  idle_threads-IsBlocked : (n : ℕ) (q : Buffer) → All (IsBlocked q) (idle_threads n)
  unfolding IsBlocked
  idle_threads-IsBlocked zero q = tt
  idle_threads-IsBlocked (suc n) q = (tt, idle_threads-IsBlocked n q)

  -- No wake-up is lost: in whatever order the threads take their steps, whenever one of them waits
  -- although its call could proceed, some thread is about to notify all.
  pub Reach-NoLostWakeup :
      (allowed : Op T → Bool) (n : ℕ) (es : List (Event T)) (s : System B)
      → Reach B allowed n es s
      → NoLostWakeup s
  unfolding NoLostWakeup
  Reach-NoLostWakeup allowed n es s here = inr (idle_threads-IsBlocked n _)
  Reach-NoLostWakeup allowed n es s (next r st) =
      Step-NoLostWakeup st (Reach-NoLostWakeup allowed n _ _ r)

module _ {T : Type 0} (B : CircularBuffer T) (L : IsLawful B) where
  open B use {Buffer, contents}

  -- The queue is bounded, and values leave it in the order in which they came.
  record Ordered (es : List (Event T)) (q : Buffer) : Type 0 where
    bounded : IsBounded B L q
    order : stored_values es ≡ gone_values es ++ contents q

  Ordered-Advances :
      (es fs : List (Event T)) (q q' : Buffer)
      → Ordered es q
      → Advances B L q fs q'
      → Ordered (es ++ fs) q'
  Ordered-Advances es fs q q' h (bounded, order) = record {
    bounded = bounded;
    order =
        stored_values-append es fs
        ∙ ap (λ l. l ++ stored_values fs) h.order
        ∙ append_assoc (gone_values es) (contents q) (stored_values fs)
        ∙ ap (◌++◌ (gone_values es)) order
        ∙ sym (append_assoc (gone_values es) (gone_values fs) (contents q'))
        ∙ ap (λ l. l ++ contents q') (sym (gone_values-append es fs));
  }

  still : (es : List (Event T)) (q : Buffer) → Ordered es q → Ordered (es ++ []) q
  still es q h = subst (λ l. Ordered l q) (sym (append-nil es)) h

  Step-Ordered :
      {allowed : Op T → Bool} {es fs : List (Event T)} {s s' : System B}
      → Ordered es s.queue
      → Step B allowed s fs s'
      → Ordered (es ++ fs) s'.queue
  Step-Ordered {es = es} h (invoke q before after r op a) = still es q h
  Step-Ordered {es = es} h (proceed q q' before after r op e) =
      Ordered-Advances es _ q q' h (perform-Advances B L op q q' r h.bounded e).0
  Step-Ordered {es = es} h (wait q before after op e) = still es q h
  Step-Ordered {es = es} h (notify_all q before after r) = still es q h
  Step-Ordered {es = es} h (wake_spuriously q before after op) = still es q h

  Reach-Ordered :
      {allowed : Op T → Bool} {n : ℕ} {es : List (Event T)} {s : System B}
      → Reach B allowed n es s
      → Ordered es s.queue
  unfolding create
  Reach-Ordered here = record {
    bounded = record {
      capacity = L.capacity-with_capacity 10_000;
      bounded = rw (L.contents-with_capacity 10_000) (omega arith);
    };
    order = sym (L.contents-with_capacity 10_000);
  }
  Reach-Ordered (next r st) = Step-Ordered (Reach-Ordered r) st

  size_lem : (q : Buffer) → IsBounded B L q → size B q ≡ pos (length (contents q))
  unfolding size
  size_lem q h =
      let e : B.size q ≡ length (contents q) = L.size_lem q in ground (arith, e, h.bounded)

  -- The queue never holds more than 10,000 values, `size` is their number, `empty` says
  -- whether there are none, and what came in is, in that
  -- order, what left it and then what it holds: in whatever order the threads take their steps.
  pub Reach-ordered :
      (allowed : Op T → Bool) (n : ℕ) (es : List (Event T)) (s : System B)
      → Reach B allowed n es s
      → (length (contents s.queue) ≤ 10_000)
        × (size B s.queue ≡ pos (length (contents s.queue)))
        × (empty B s.queue ≡ is_empty (contents s.queue))
        × (stored_values es ≡ gone_values es ++ contents s.queue)
  unfolding empty
  Reach-ordered allowed n es s r =
      let h = Reach-Ordered r in
      (h.bounded.bounded, size_lem s.queue h.bounded, L.empty_lem s.queue, h.order)

  pub Reach-IsBounded :
      (allowed : Op T → Bool) (n : ℕ) (es : List (Event T)) (s : System B)
      → Reach B allowed n es s
      → IsBounded B L s.queue
  Reach-IsBounded allowed n es s r = (Reach-Ordered r).bounded
