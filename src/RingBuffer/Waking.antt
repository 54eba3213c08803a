-- ===== src/RingBuffer/Waking.antt =====
-- A thread that waits for something that is there can go on.
use iceflow.Prelude.{
  ℕ, zero, suc, ◌≡◌, refl, ap, sym, subst, ◌∙◌, Bool, true, inl, inr, Option, none, some, List, [],
  ◌∷◌, ◌++◌, map, length, get_elem?, any, All,
}
use mathlib.Core.List.{append-nil}
use mathlib.Core.Option.{none-ne-some, some-injective}
use iceflow.RingBuffer.{
  CircularBuffer, Op, Thread, returned, calling, waiting, notifying, Event, wake, perform, events,
  System, Step, proceed, notify_all, Reach,
}
use iceflow.RingBuffer.Threads.{is_notifying, IsBlocked, NoLostWakeup, Reach-NoLostWakeup}

module _ {T : Type 0} where
  -- where some thread is about to notify
  notifying-split :
      (threads : List (Thread T))
      → any is_notifying threads ≡ true
      → (before after : List (Thread T)) × (r : Option T) × (threads
          ≡ before ++ notifying r ∷ after)
  unfolding is_notifying
  notifying-split [] h = cc
  notifying-split (notifying r ∷ threads) h = ([], threads, r, refl)
  notifying-split (returned r ∷ threads) h =
      let (before, after, o, e) = notifying-split threads h in
      (returned r ∷ before, after, o, ap (λ l. returned r ∷ l) e)
  notifying-split (calling op ∷ threads) h =
      let (before, after, o, e) = notifying-split threads h in
      (calling op ∷ before, after, o, ap (λ l. calling op ∷ l) e)
  notifying-split (waiting op ∷ threads) h =
      let (before, after, o, e) = notifying-split threads h in
      (waiting op ∷ before, after, o, ap (λ l. waiting op ∷ l) e)

  get_elem?-split :
      (threads : List (Thread T)) (i : ℕ) (t : Thread T)
      → get_elem? threads i ≡ some t
      → (before after : List (Thread T)) × (threads ≡ before ++ t ∷ after) × (length before ≡ i)
  get_elem?-split [] i t h = absurd (none-ne-some t h)
  get_elem?-split (x ∷ threads) zero t h = ([], threads, cc, refl)
  get_elem?-split (x ∷ threads) (suc i) t h =
      let (before, after, e, n) = get_elem?-split threads i t h in
      (x ∷ before, after, ap (λ l. x ∷ l) e, ap suc n)

  get_elem?-wake :
      (threads : List (Thread T)) (i : ℕ) (op : Op T)
      → get_elem? threads i ≡ some (waiting op)
      → get_elem? (map wake threads) i ≡ some (calling op)
  unfolding wake
  get_elem?-wake [] i op h = absurd (none-ne-some _ h)
  get_elem?-wake (x ∷ threads) zero op h = cc (ap (λ o. map_wake o) h)
    where
      map_wake : Option (Thread T) → Option (Thread T)
      map_wake none = none
      map_wake (some t) = some (wake t)
  get_elem?-wake (x ∷ threads) (suc i) op h = get_elem?-wake threads i op h

  -- A notification wakes the thread at a place other than the notifier's.
  get_elem?-notified :
      (before after : List (Thread T)) (r : Option T) (i : ℕ) (op : Op T)
      → get_elem? (before ++ notifying r ∷ after) i ≡ some (waiting op)
      → get_elem? (map wake before ++ returned r ∷ map wake after) i ≡ some (calling op)
  unfolding wake
  get_elem?-notified [] after r zero op h = cc
  get_elem?-notified [] after r (suc i) op h = get_elem?-wake after i op h
  get_elem?-notified (x ∷ before) after r zero op h = get_elem?-wake (x ∷ []) zero op h
  get_elem?-notified (x ∷ before) after r (suc i) op h = get_elem?-notified before after r i op h

  get_elem?-middle :
      (before after : List (Thread T)) (t : Thread T)
      → get_elem? (map wake before ++ t ∷ map wake after) (length before) ≡ some t
  get_elem?-middle [] after t = refl
  get_elem?-middle (x ∷ before) after t = get_elem?-middle before after t

module _ {T : Type 0} (B : CircularBuffer T) (allowed : Op T → Bool) where
  -- Steps one after the other, with what happened.
  pub data Steps : System B → List (Event T) → System B → Type 0 where
    done : {s : System B} → Steps s [] s
    more :
        {s s' s'' : System B} {happened rest : List (Event T)}
        → Step B allowed s happened s'
        → Steps s' rest s''
        → Steps s (happened ++ rest) s''

  -- A run after which the thread at a place has returned.
  abbrev pub CanReturn : ℕ → Option T → List (Event T) → B.Buffer → System B → Type 0
  CanReturn i r happened q s =
      (s' : System B) × Steps s happened s'
      × (s'.queue ≡ q)
      × (get_elem? s'.threads i ≡ some (returned r))

  called-CanReturn :
      (q q' : B.Buffer) (threads : List (Thread T)) (i : ℕ) (op : Op T) (r : Option T)
      → get_elem? threads i ≡ some (calling op)
      → perform B op q ≡ some (r, q')
      → CanReturn i r (events B op q r) q' (record { queue = q; threads = threads })
  called-CanReturn q q' threads i op r at e =
      let (before, after, split, place) = get_elem?-split threads i (calling op) at in
      (
        record { queue = q'; threads = map wake before ++ returned r ∷ map wake after },
        subst
            (λ (l : List (Thread T)).
              Steps (record { queue = q; threads = l }) (events B op q r)
                (record { queue = q'; threads = map wake before ++ returned r ∷ map wake after }))
            (sym split)
            (subst
              (λ (es : List (Event T)).
                Steps (record { queue = q; threads = before ++ calling op ∷ after }) es
                  (record { queue = q'; threads = map wake before ++ returned r ∷ map wake after }))
              (append-nil (events B op q r))
              (more (proceed q q' before after r op e) (more (notify_all q' before after r) done))),
        refl,
        subst
            (λ (n : ℕ).
              get_elem? (map wake before ++ returned r ∷ map wake after) n ≡ some (returned r))
            place (get_elem?-middle before after (returned r)),
      )

  blocked_at :
      (q : B.Buffer) (threads : List (Thread T)) (i : ℕ) (op : Op T)
      → All (IsBlocked B q) threads
      → get_elem? threads i ≡ some (waiting op)
      → perform B op q ≡ none
  unfolding IsBlocked
  blocked_at q [] i op h at = absurd (none-ne-some _ at)
  blocked_at q (x ∷ threads) zero op h at =
      subst (IsBlocked B q) (some-injective x (waiting op) at) h.0
  blocked_at q (x ∷ threads) (suc i) op h at = blocked_at q threads i op h.1 at

  woken-CanReturn :
      (q q' : B.Buffer) (threads : List (Thread T)) (i : ℕ) (op : Op T) (r : Option T)
      → any is_notifying threads ≡ true
      → get_elem? threads i ≡ some (waiting op)
      → perform B op q ≡ some (r, q')
      → CanReturn i r (events B op q r) q' (record { queue = q; threads = threads })
  woken-CanReturn q q' threads i op r notified at e =
      let (before, after, o, split) = notifying-split threads notified in
      let woken =
        get_elem?-notified before after o i op
          (subst (λ (l : List (Thread T)). get_elem? l i ≡ some (waiting op)) split at) in
      let (s', run, queue, back) =
        called-CanReturn q q' (map wake before ++ returned o ∷ map wake after) i op r woken e in
      (
        s',
        subst
            (λ (l : List (Thread T)).
              Steps (record { queue = q; threads = l }) (events B op q r) s')
            (sym split) (more (notify_all q before after o) run),
        queue,
        back,
      )

  -- No thread waits in vain: in a reachable state, whatever the others are doing, a thread that waits
  -- although its call could proceed can be run to the end of that call. Some thread is about to
  -- notify, and after it the call goes through with the queue as it is: nothing else happens on the
  -- way, and the caller gets what the call returns.
  pub Reach-CanReturn :
      (n : ℕ) (es : List (Event T)) (s : System B) (i : ℕ) (op : Op T) (r : Option T)
      (q' : B.Buffer)
      → Reach B allowed n es s
      → get_elem? s.threads i ≡ some (waiting op)
      → perform B op s.queue ≡ some (r, q')
      → CanReturn i r (events B op s.queue r) q' s
  unfolding NoLostWakeup
  Reach-CanReturn n es s i op r q' reached at e =
      elim (Reach-NoLostWakeup B allowed n es s reached) [
        | inl notified ↦ woken-CanReturn s.queue q' s.threads i op r notified at e
        | inr blocked ↦
            absurd (none-ne-some (r, q') (sym (blocked_at s.queue s.threads i op blocked at) ∙ e))
      ]
