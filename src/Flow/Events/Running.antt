-- ===== src/Flow/Events/Running.antt =====
-- The loop of `run`.
use iceflow.Prelude.{
  ap, sym, subst, ◌≡◌, refl, ◌⊎◌, inl, inr, true, false, not, Bool, Bool-cases, if◌then◌else◌,
  Option, none, some, List, [], ◌∷◌, ◌++◌, inl, inr, List, [], ◌∷◌, if_ind,
}
use iceflow.Prelude.Errors.{ok, throw, runtime_error, Result, Result-cases}
use iceflow.Ndn.{Ndn, IsLawful, Generator}
use iceflow.Json.{Json}
use iceflow.Flow.Setup.{IsReady}
use iceflow.Flow.Events.Deliveries.{handle_event-IsReady}
use iceflow.Flow.Events.{
  Application, CallbackOf, Event, World, handle_event, process_events, run_loop, run,
}

module _ (N : Ndn) (L : IsLawful N) (E : Generator) (A : Application) {C R : Type 0}
    (J : Json) where
  process_events-IsReady :
      (events : List (Event (CallbackOf A))) (w : World N E A C R)
      → IsReady w.0
      → IsReady (process_events N E A J events w).1.0
  unfolding process_events
  process_events-IsReady [] w h = h
  process_events-IsReady (event ∷ events) w h =
      let ready = handle_event-IsReady N L E A J event w h in
      elim (Result-cases (handle_event N E A J event w).0) [
        | inl (x, g) ↦ rw (g, process_events) ready
        | inr (_, g) ↦
            rw (g, process_events)
              (process_events-IsReady events (handle_event N E A J event w).1 ready)
      ]

  run_loop-IsReady :
      (rounds : List (List (Event (CallbackOf A)))) (w : World N E A C R)
      → IsReady w.0
      → IsReady (run_loop N E A J rounds w).1.0
  unfolding run_loop
  run_loop-IsReady [] w h = h
  run_loop-IsReady (events ∷ rounds) w h =
      if_ind (λ (v : Bool × World N E A C R). IsReady v.1.0) w.0.running
        (run_loop-IsReady rounds (process_events N E A J events w).1
          (process_events-IsReady events w h))
        h

  -- A node that was ready is ready after `run`, whatever events come in whatever rounds, and though
  -- callbacks and calls throw.
  pub run-IsReady :
      (rounds : List (List (Event (CallbackOf A)))) (w : World N E A C R)
      → IsReady w.0
      → IsReady (run N E A J rounds w).1.0
  unfolding run
  run-IsReady rounds w h =
      if_ind (λ (r : Option (Result (Unit {0})) × World N E A C R). IsReady r.1.0) w.0.running h
        (run_loop-IsReady rounds _
          (record { live = h.live; producing = h.producing; consuming = h.consuming }))

module _ (N : Ndn) (E : Generator) (A : Application) {C R : Type 0} (J : Json) where
  -- Rounds one after the other, whatever they throw.
  abbrev pub process_all : List (List (Event (CallbackOf A))) → World N E A C R → World N E A C R
  process_all [] w = w
  process_all (events ∷ rounds) w = process_all rounds (process_events N E A J events w).1

  -- The node runs at the start of each of the rounds.
  abbrev pub AllRunning : List (List (Event (CallbackOf A))) → World N E A C R → Type 0
  AllRunning [] w = Unit
  AllRunning (events ∷ rounds) w =
      (w.0.running ≡ true) × AllRunning rounds (process_events N E A J events w).1

  -- The loop went through the first of the rounds, and has ended where the node no longer runs; or it
  -- went through all of them, and goes on.
  abbrev pub Halted :
      List (List (Event (CallbackOf A))) → World N E A C R → Bool → World N E A C R → Type 0
  Halted rounds w ended v =
      (done : List (List (Event (CallbackOf A)))) × (later : List (List (Event (CallbackOf A))))
      × (rounds ≡ done ++ later)
      × AllRunning done w
      × (v ≡ process_all done w)
      × (((ended ≡ true) × (v.0.running ≡ false))
          ⊎ ((ended ≡ false) × (v.0.running ≡ true) × (later ≡ [])))

  run_loop-Halted :
      (rounds : List (List (Event (CallbackOf A)))) (w : World N E A C R)
      → let (ended, v) = run_loop N E A J rounds w in Halted rounds w ended v
  unfolding run_loop
  run_loop-Halted [] w = elim (Bool-cases w.0.running) [
    | inl goes ↦ ([], [], refl, tt, refl, inr (ap not goes, goes, refl))
    | inr stopped ↦ ([], [], refl, tt, refl, inl (ap not stopped, stopped))
  ]
  run_loop-Halted (events ∷ rounds) w = elim (Bool-cases w.0.running) [
    | inl goes ↦
        let (done, later, e, all, f, over) =
          run_loop-Halted rounds (process_events N E A J events w).1 in
        let g : run_loop N E A J (events ∷ rounds) w
            ≡ run_loop N E A J rounds (process_events N E A J events w).1 =
          ap
            (λ b.
              if b then run_loop N E A J rounds (process_events N E A J events w).1 else (true, w))
            goes in
        subst (λ (r : Bool × World N E A C R). Halted (events ∷ rounds) w r.0 r.1) (sym g)
          (events ∷ done, later, ap (◌∷◌ events) e, (goes, all), f, over)
    | inr stopped ↦
        let g : run_loop N E A J (events ∷ rounds) w ≡ (true, w) =
          ap
            (λ b.
              if b then run_loop N E A J rounds (process_events N E A J events w).1 else (true, w))
            stopped in
        subst (λ (r : Bool × World N E A C R). Halted (events ∷ rounds) w r.0 r.1) (sym g)
          ([], events ∷ rounds, refl, tt, refl, inl (refl, stopped))
  ]

  -- How `run` ends, or that it goes on, at a node that does not run yet.
  abbrev pub RunsThrough :
      List (List (Event (CallbackOf A)))
      → World N E A C R
      → Option (Result (Unit {0}))
      → World N E A C R
      → Type 0
  RunsThrough rounds started result v =
      (ended : Bool) × (result ≡ (if ended then some (ok tt) else none))
      × Halted rounds started ended v

  -- `run` throws at a node that is running, and changes nothing. Otherwise it goes through the rounds
  -- of events in their order, whatever they throw, as long as the node runs at the start of a round:
  -- it returns if and only if the node no longer runs after some of the rounds that have come, and
  -- leaves out the later ones; else it has gone through all of them and goes on.
  pub run-Halted :
      (rounds : List (List (Event (CallbackOf A)))) (w : World N E A C R)
      → let (result, v) = run N E A J rounds w in
        ((w.0.running ≡ true)
          × (result ≡ some (throw (runtime_error "Iceflow instance is already running!")))
          × (v ≡ w))
        ⊎ ((w.0.running ≡ false) × RunsThrough rounds (record w.0 { running = true }, w.1) result v)
  unfolding run
  run-Halted rounds w = elim (Bool-cases w.0.running) [
    | inl goes ↦
        let e = ap (chosen rounds w) goes in
        inl (
          goes,
          ap (λ (r : Option (Result (Unit {0})) × World N E A C R). r.0) e,
          ap (λ (r : Option (Result (Unit {0})) × World N E A C R). r.1) e,
        )
    | inr stopped ↦
        let started : World N E A C R = (record w.0 { running = true }, w.1) in
        inr (
          stopped,
          subst
              (λ (r : Option (Result (Unit {0})) × World N E A C R).
                RunsThrough rounds started r.0 r.1)
              (sym (ap (chosen rounds w) stopped))
              ((run_loop N E A J rounds started).0, refl, run_loop-Halted rounds started),
        )
  ]
    where
      chosen :
          List (List (Event (CallbackOf A)))
          → World N E A C R
          → Bool
          → Option (Result (Unit {0})) × World N E A C R
      chosen rounds w b =
          if b
          then (some (throw (runtime_error "Iceflow instance is already running!")), w)
          else (let (ended, v) = run_loop N E A J rounds (record w.0 { running = true }, w.1) in
              (if ended then some (ok tt) else none, v))
