-- ===== src/RingBuffer/Queue.antt =====
-- The queue as a list: what each call does to it while it holds the mutex.
use iceflow.Prelude.{
  Option-cases, ltb, none, ◌≤◌, ◌<◌, ◌≡◌, refl, ap, sym, subst, ◌∙◌, true, false, inl, inr, Option,
  none, some, List, [], ◌∷◌, ◌++◌, arith, length, length-append, ltb, Bool-cases,
}
use mathlib.Core.Option.{some-injective}
use mathlib.Core.List.{append-nil}
use iceflow.RingBuffer.{
  CircularBuffer, IsLawful, Op, push, push_data, wait_and_pop_value, Event, stored, taken,
  overwritten, reaches, perform, store_events, events,
}

module _ {T : Type 0} where
  -- The values that came in, and those that left, in order.
  abbrev pub stored_values : List (Event T) → List T
  stored_values [] = []
  stored_values (stored x ∷ es) = x ∷ stored_values es
  stored_values (taken x ∷ es) = stored_values es
  stored_values (overwritten x ∷ es) = stored_values es

  abbrev pub gone_values : List (Event T) → List T
  gone_values [] = []
  gone_values (stored x ∷ es) = gone_values es
  gone_values (taken x ∷ es) = x ∷ gone_values es
  gone_values (overwritten x ∷ es) = x ∷ gone_values es

  -- The values that were returned by a pop.
  abbrev pub taken_values : List (Event T) → List T
  taken_values [] = []
  taken_values (stored x ∷ es) = taken_values es
  taken_values (taken x ∷ es) = x ∷ taken_values es
  taken_values (overwritten x ∷ es) = taken_values es

  abbrev pub returned_values : Option T → List T
  returned_values none = []
  returned_values (some x) = x ∷ []

module _ {T : Type 0} (B : CircularBuffer T) (L : IsLawful B) where
  open B use {Buffer, contents, capacity}

  pub record IsBounded (q : Buffer) : Type 0 where
    pub capacity : capacity q ≡ 10_000
    pub bounded : length (contents q) ≤ 10_000

  -- What a call makes of a queue, with the events: values leave at the front, and come in at the back.
  abbrev pub Advances : Buffer → List (Event T) → Buffer → Type 0
  Advances q es q' = IsBounded q' × (contents q ++ stored_values es ≡ gone_values es ++ contents q')

  store_room :
      (value : T) (q : Buffer)
      → IsBounded q
      → ltb (B.size q) (B.capacity q) ≡ true
      → Advances q (store_events B value q) (B.push_back value q)
  unfolding store_events
  store_room value q h room =
      let room' : ltb (length (contents q)) (capacity q) ≡ true = rw (← L.size_lem q) room in
      let e : contents (B.push_back value q) ≡ contents q ++ value ∷ [] =
        L.contents-push_back value q (omega (arith, h.capacity)) ∙ rw room' in
      rw (room, e)
        (
          record {
            capacity = L.capacity-push_back value q ∙ h.capacity;
            bounded =
                rw e (ground (arith, room', h.capacity, length-append (contents q) (value ∷ [])));
          },
          refl,
        )

  store_full :
      (value x : T) (xs : List T) (q : Buffer)
      → IsBounded q
      → ltb (B.size q) (B.capacity q) ≡ false
      → contents q ≡ x ∷ xs
      → Advances q (store_events B value q) (B.push_back value q)
  unfolding store_events
  store_full value x xs q h full c =
      let full' : ltb (length (contents q)) (capacity q) ≡ false = rw (← L.size_lem q) full in
      let e : contents (B.push_back value q) ≡ xs ++ value ∷ [] =
        L.contents-push_back value q (omega (arith, h.capacity)) ∙ rw (full', c) in
      let f : B.front q ≡ some x = L.front_lem q ∙ rw c in
      rw (full, f, c, e)
        (
          record {
            capacity = L.capacity-push_back value q ∙ h.capacity;
            bounded = rw e (ground (arith, h.bounded, c, length-append xs (value ∷ [])));
          },
          refl,
        )

  store_lem :
      (value : T) (q : Buffer)
      → IsBounded q
      → Advances q (store_events B value q) (B.push_back value q)
  store_lem value q h = elim (Bool-cases (ltb (B.size q) (B.capacity q))) [
    | inl room ↦ store_room value q h room
    | inr full ↦
        let (x, xs, c) = nonempty (contents q) (ground (arith, full, L.size_lem q, h.capacity)) in
        store_full value x xs q h full c
  ]
    where
      nonempty : (l : List T) → 0 < length l → (x : T) × (xs : List T) × (l ≡ x ∷ xs)
      nonempty [] h = absurd (omega arith)
      nonempty (x ∷ xs) h = (x, xs, refl)

  pop_lem :
      (q : Buffer) (l : List T)
      → contents q ≡ l
      → IsBounded q
      → B.empty q ≡ false
      → (x : T) × (B.front q ≡ some x) × Advances q (taken x ∷ []) (B.pop_front q)
  pop_lem q [] c h some_left = absurd (ground (arith, some_left, L.empty_lem q, c))
  pop_lem q (x ∷ xs) c h some_left =
      let e : contents (B.pop_front q) ≡ xs = L.contents-pop_front q ∙ rw c in
      (
        x,
        L.front_lem q ∙ rw c,
        (
          record {
            capacity = L.capacity-pop_front q ∙ h.capacity;
            bounded = rw e (ground (arith, h.bounded, c));
          },
          rw (c, e) (append-nil (x ∷ xs)),
        ),
      )

  advanced :
      (q q1 q' : Buffer) (es : List (Event T)) (r r' : Option T)
      → ◌≡◌ {A = Option (Option T × Buffer)} (some (r, q1)) (some (r', q'))
      → Advances q es q1
      → Advances q es q'
  advanced q q1 q' es r r' e h =
      subst (Advances q es) (ap (λ (p : Option T × Buffer). p.1) (some-injective _ _ e)) h

  unwaited : {x y z : Option (Option T × Buffer)} → x ≡ y → x ≡ z → y ≡ z
  unwaited e f = sym e ∙ f

  returned :
      (q1 q' : Buffer) (r r' : Option T)
      → ◌≡◌ {A = Option (Option T × Buffer)} (some (r, q1)) (some (r', q'))
      → r ≡ r'
  returned q1 q' r r' e = ap (λ (p : Option T × Buffer). p.0) (some-injective _ _ e)

  perform_queue :
      (op : Op T) (q q' : Buffer) (r : Option T)
      → IsBounded q
      → perform B op q ≡ some (r, q')
      → Advances q (events B op q r) q'
  unfolding perform events reaches
  perform_queue (push value) q q' r h e =
      advanced q _ q' (store_events B value q) _ _ e (store_lem value q h)
  perform_queue (push_data value threshold) q q' r h e =
      elim (Bool-cases (reaches (B.size q) threshold)) [
        | inl full ↦ absurd (ground (arith, e, full))
        | inr room ↦
            advanced q (B.push_back value q) q' (store_events B value q) none r
              (unwaited (rw (perform, room)) e) (store_lem value q h)
      ]
  perform_queue wait_and_pop_value q q' r h e = elim (Bool-cases (B.empty q)) [
    | inl none_left ↦ absurd (ground (arith, e, none_left))
    | inr some_left ↦
        let (x, front, done) = pop_lem q (contents q) refl h some_left in
        let same : r ≡ some x =
          sym (returned (B.pop_front q) q' (B.front q) r (unwaited (rw (perform, some_left)) e))
          ∙ front in
        rw (events, same)
          (advanced q (B.pop_front q) q' (taken x ∷ []) (B.front q) r
            (unwaited (rw (perform, some_left)) e) done)
  ]

  taken_values-store_events : (value : T) (q : Buffer) → taken_values (store_events B value q) ≡ []
  unfolding store_events
  taken_values-store_events value q = elim (Bool-cases (ltb (B.size q) (B.capacity q))) [
    | inl room ↦ rw (store_events, room)
    | inr full ↦ elim (Option-cases (B.front q)) [
      | inl f ↦ rw (store_events, full, f)
      | inr (x, f) ↦ rw (store_events, full, f)
    ]
  ]

  perform_taken :
      (op : Op T) (q q' : Buffer) (r : Option T)
      → perform B op q ≡ some (r, q')
      → taken_values (events B op q r) ≡ returned_values r
  unfolding perform events
  perform_taken (push value) q q' r e =
      taken_values-store_events value q ∙ ap returned_values (returned _ q' none r e)
  perform_taken (push_data value threshold) q q' r e =
      elim (Bool-cases (reaches (B.size q) threshold)) [
        | inl full ↦ absurd (ground (arith, e, full))
        | inr room ↦
            taken_values-store_events value q
            ∙ ap returned_values
                (returned (B.push_back value q) q' none r (unwaited (rw (perform, room)) e))
      ]
  perform_taken wait_and_pop_value q q' none e = refl
  perform_taken wait_and_pop_value q q' (some x) e = refl

  -- A call that does not wait, on a queue of at most 10,000 values with that capacity, keeps both;
  -- values come in at the back, and leave at the front: by a pop, which returns what it took, or by
  -- a push to a full queue, which overwrites the oldest.
  pub perform-Advances :
      (op : Op T) (q q' : Buffer) (r : Option T)
      → IsBounded q
      → perform B op q ≡ some (r, q')
      → Advances q (events B op q r) q' × (taken_values (events B op q r) ≡ returned_values r)
  perform-Advances op q q' r h e = (perform_queue op q q' r h e, perform_taken op q q' r e)
