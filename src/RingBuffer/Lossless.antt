-- ===== src/RingBuffer/Lossless.antt =====
-- Threads that keep to a threshold of at most the capacity.
use iceflow.Prelude.{
  ℕ, zero, suc, ◌≡◌, refl, ap, sym, ◌∙◌, Bool, true, false, inl, inr, Option, some, List, [], ◌∷◌,
  ◌++◌, map, arith, All, leb, Option-cases,
}
use iceflow.Prelude.Signed.{pos, negsuc}
use iceflow.RingBuffer.{
  CircularBuffer, IsLawful, Op, push, push_data, wait_and_pop_value, Thread, returned, calling,
  waiting, notifying, Event, stored, taken, overwritten, wake, idle_threads, reaches, perform,
  events, store_events, System, Step, invoke, proceed, wait, notify_all, wake_spuriously, Reach,
  here, next,
}
use iceflow.RingBuffer.Queue.{taken_values, stored_values, gone_values, IsBounded}
use iceflow.RingBuffer.Threads.{Reach-ordered, Reach-IsBounded, gone_values-append}

module _ {T : Type 0} where
  -- A pop, or `pushData` with a threshold from 0 to the capacity.
  abbrev pub is_careful : Op T → Bool
  is_careful (push x) = false
  is_careful (push_data x (pos threshold)) = leb threshold 10_000
  is_careful (push_data x (negsuc n)) = false
  is_careful wait_and_pop_value = true

  -- Nothing was overwritten.
  abbrev Lossless : List (Event T) → Type 0
  Lossless es = taken_values es ≡ gone_values es

  taken_values-append :
      (es fs : List (Event T)) → taken_values (es ++ fs) ≡ taken_values es ++ taken_values fs
  taken_values-append [] fs = refl
  taken_values-append (stored x ∷ es) fs = taken_values-append es fs
  taken_values-append (taken x ∷ es) fs = ap (◌∷◌ x) (taken_values-append es fs)
  taken_values-append (overwritten x ∷ es) fs = taken_values-append es fs

  Lossless-append : (es fs : List (Event T)) → Lossless es → Lossless fs → Lossless (es ++ fs)
  Lossless-append es fs h k =
      taken_values-append es fs ∙ (rw (h, k) (sym (gone_values-append es fs)))

  abbrev OpOf : Thread T → Type 0
  OpOf (returned r) = Unit
  OpOf (calling op) = is_careful op ≡ true
  OpOf (waiting op) = is_careful op ≡ true
  OpOf (notifying r) = Unit

  replaced :
      (before after : List (Thread T)) (old new : Thread T)
      → All OpOf (before ++ old ∷ after)
      → OpOf new
      → All OpOf (before ++ new ∷ after)
  replaced [] after old new h k = (k, h.1)
  replaced (x ∷ before) after old new h k = (h.0, replaced before after old new h.1 k)

  here_op :
      (before after : List (Thread T)) (old : Thread T)
      → All OpOf (before ++ old ∷ after)
      → OpOf old
  here_op [] after old h = h.0
  here_op (x ∷ before) after old h = here_op before after old h.1

  wake-OpOf : (threads : List (Thread T)) → All OpOf threads → All OpOf (map wake threads)
  unfolding wake
  wake-OpOf [] h = tt
  wake-OpOf (returned r ∷ threads) h = (tt, wake-OpOf threads h.1)
  wake-OpOf (calling op ∷ threads) h = (h.0, wake-OpOf threads h.1)
  wake-OpOf (waiting op ∷ threads) h = (h.0, wake-OpOf threads h.1)
  wake-OpOf (notifying r ∷ threads) h = (tt, wake-OpOf threads h.1)

  woken :
      (before after : List (Thread T)) (old : Thread T) (r : Option T)
      → All OpOf (before ++ old ∷ after)
      → All OpOf (map wake before ++ returned r ∷ map wake after)
  unfolding wake
  woken [] after old r h = (tt, wake-OpOf after h.1)
  woken (x ∷ before) after old r h =
      ((wake-OpOf (x ∷ []) (h.0, tt)).0, woken before after old r h.1)

idle_threads-OpOf : (T : Type 0) (n : ℕ) → All (OpOf {T = T}) (idle_threads n)
idle_threads-OpOf T zero = tt
idle_threads-OpOf T (suc n) = (tt, idle_threads-OpOf T n)

module _ {T : Type 0} (B : CircularBuffer T) (L : IsLawful B) where
  open B use {Buffer, contents}

  events-Lossless :
      (op : Op T) (q q' : Buffer) (r : Option T)
      → is_careful op ≡ true
      → IsBounded B L q
      → perform B op q ≡ some (r, q')
      → Lossless (events B op q r)
  unfolding events perform reaches store_events
  events-Lossless (push x) q q' r c h e = absurd (ground (arith, c))
  events-Lossless (push_data x (negsuc n)) q q' r c h e = absurd (ground (arith, c))
  events-Lossless (push_data x (pos n)) q q' r c h e = ground (arith, h.capacity)
  events-Lossless wait_and_pop_value q q' r c h e = elim (Option-cases r) [
    | inl f ↦ rw (events, f)
    | inr (x, f) ↦ rw (events, f)
  ]

  Step-Lossless :
      (es : List (Event T)) {fs : List (Event T)} {s s' : System B}
      → IsBounded B L s.queue
      → Lossless es × All OpOf s.threads
      → Step B is_careful s fs s'
      → Lossless (es ++ fs) × All OpOf s'.threads
  Step-Lossless es b h (invoke q before after r op a) =
      (Lossless-append es [] h.0 refl, replaced before after _ _ h.1 a)
  Step-Lossless es b h (proceed q q' before after r op e) = (
    Lossless-append es _ h.0 (events-Lossless op q q' r (here_op before after _ h.1) b e),
    replaced before after _ _ h.1 tt,
  )
  Step-Lossless es b h (wait q before after op e) =
      (Lossless-append es [] h.0 refl, replaced before after _ _ h.1 (here_op before after _ h.1))
  Step-Lossless es b h (notify_all q before after r) =
      (Lossless-append es [] h.0 refl, woken before after _ r h.1)
  Step-Lossless es b h (wake_spuriously q before after op) =
      (Lossless-append es [] h.0 refl, replaced before after _ _ h.1 (here_op before after _ h.1))

  Reach-Lossless :
      (n : ℕ) (es : List (Event T)) (s : System B)
      → Reach B is_careful n es s
      → Lossless es × All OpOf s.threads
  Reach-Lossless n es s here = (refl, idle_threads-OpOf T n)
  Reach-Lossless n es s (next {trace = trace} {s = before} r st) =
      Step-Lossless trace (Reach-IsBounded B L _ n trace before r) (Reach-Lossless n trace before r)
        st

  -- If the threads only pop, and push by `pushData` with a threshold from 0 to the capacity, then
  -- nothing is lost: what came in is, in that order, what the pops returned and then what is left.
  pub Reach-lossless :
      (n : ℕ) (es : List (Event T)) (s : System B)
      → Reach B is_careful n es s
      → stored_values es ≡ taken_values es ++ contents s.queue
  Reach-lossless n es s r =
      (Reach-ordered B L is_careful n es s r).3
      ∙ ap (λ l. l ++ contents s.queue) (sym (Reach-Lossless n es s r).0)
