-- ===== src/Flow/Events/Pushing.antt =====
-- What the calls of the producer callback publish: the pushes of one delivery, to one edge.
use Prim.Native.String.{◌++◌ as ◌<>◌}
use iceflow.Prelude.{
  ℕ, ◌<◌, ◌≡◌, refl, ap, sym, subst, ◌∙◌, inl, inr, Option, none, some, List, [], ◌∷◌, ◌++◌, map,
  String, str_eq_iff,
}
use mathlib.Core.Option.{none-ne-some, some-injective}
use mathlib.Core.List.{append-nil, append_assoc}
use iceflow.Prelude.Errors.{Result, ok}
use iceflow.Prelude.Dict.{lookup, lookup-insert}
use iceflow.Ndn.{Ndn, IsLawful, Generator}
use iceflow.Producer
use iceflow.Producer.{Producer}
use iceflow.Flow.{Flow, push_data}
use iceflow.Flow.Setup.{IsReady}
use iceflow.Flow.Routing.{push_data_known, push_data_cases}
use iceflow.Flow.Events.{push_all}
use iceflow.Flow.Events.Calls.{push_data-IsReady}

-- Messages that carry payloads, in their order, each to some partition of a topic below a count.
abbrev pub CarriesAll : (N : Ndn) → String → ℕ → List (List ℕ) → List (N.Name × List ℕ) → Type 0
CarriesAll N topic count [] [] = Unit
CarriesAll N topic count [] (m ∷ ms) = ⊥
CarriesAll N topic count (d ∷ ds) [] = ⊥
CarriesAll N topic count (d ∷ ds) (m ∷ ms) =
    ((partition : ℕ) × (partition < count)
      × (m ≡ (N.append_number (N.parse_name topic) partition, d)))
    × CarriesAll N topic count ds ms

-- The payloads of pushes that all go to one edge.
abbrev pub to_edge : {S : Type 0} → String → List (S × List ℕ) → List (S × String × List ℕ)
to_edge edge_name pushes = map (λ p. (p.0, edge_name, p.1)) pushes

number_of_partitions-push_data :
    (N : Ndn) (E : Generator) {R : Type 0} (payload : List ℕ) (p : Producer E.State R)
    (svs : Option N.Svs)
    → (Producer.push_data N E payload p svs).0.number_of_partitions ≡ p.number_of_partitions
unfolding Producer.push_data
number_of_partitions-push_data N E payload p none = refl
number_of_partitions-push_data N E payload p (some s) = refl

module _ (N : Ndn) (E : Generator) {C K R : Type 0} where
  push_data_keeps :
      (edge : String) (payload : List ℕ) (t : Flow N E C K R) (p : Producer E.State R)
      → lookup edge t.producers ≡ some p
      → let t' = (push_data N E edge payload t).1 in
        (p' : Producer E.State R) × (lookup edge t'.producers ≡ some p')
        × (p'.number_of_partitions ≡ p.number_of_partitions)
        × (t'.sync_prefix ≡ t.sync_prefix)
  push_data_keeps edge payload t p e =
      let known = push_data_known N E edge payload t p e in
      let p' = (Producer.push_data N E payload p t.svs).0 in
      (
        p',
        ap (λ (r : Result (Unit {0}) × Flow N E C K R). lookup edge r.1.producers) known
            ∙ lookup-insert edge edge p' t.producers
            ∙ rw ((str_eq_iff edge edge).1 refl),
        number_of_partitions-push_data N E payload p t.svs,
        ap (λ (r : Result (Unit {0}) × Flow N E C K R). r.1.sync_prefix) known,
      )

module _ (N : Ndn) (L : IsLawful N) (E : Generator) {C K R : Type 0} where
  open N use {Svs, published}

  -- What pushes to an edge have left, when all returned.
  abbrev pub PushedAll :
      {S : Type 0}
      → String
      → ℕ
      → List (List ℕ)
      → Svs
      → S
      → Result (Unit {0}) × (Flow N E C K R × S)
      → Type 0
  PushedAll topic count payloads s after r =
      (s' : Svs) × (messages : List (N.Name × List ℕ)) × (r.0 ≡ ok tt)
      × (r.1.1 ≡ after)
      × (r.1.0.svs ≡ some s')
      × (published s' ≡ published s ++ messages)
      × CarriesAll N topic count payloads messages

  -- one push
  PushedOne : String → ℕ → List ℕ → Svs → Result (Unit {0}) × Flow N E C K R → Type 0
  PushedOne topic count payload s r =
      (s' : Svs) × (partition : ℕ) × (r.0 ≡ ok tt)
      × (r.1.svs ≡ some s')
      × (partition < count)
      × (published s'
          ≡ published s ++ (N.append_number (N.parse_name topic) partition, payload) ∷ [])

  push_data_one :
      (edge : String) (payload : List ℕ) (t : Flow N E C K R) (p : Producer E.State R) (s : Svs)
      → IsReady t
      → lookup edge t.producers ≡ some p
      → t.svs ≡ some s
      → PushedOne
          (t.sync_prefix <> ("/" <> edge))
          p.number_of_partitions
          payload
          s
          (push_data N E edge payload t)
  unfolding PushedOne
  push_data_one edge payload t p s ready found live =
      elim (push_data_cases N L E edge payload t ready) [
        | inl (unknown, _) ↦ absurd (none-ne-some p (sym unknown ∙ found))
        | inr (q, v, s', partition, e, before, returned, live', below, log) ↦ (
          s',
          partition,
          returned,
          live',
          subst (λ (r : Producer E.State R). partition < r.number_of_partitions)
              (some-injective q p (sym e ∙ found)) below,
          subst
              (λ (u : Svs).
                published s'
                ≡ published u
                  ++ (
                    N.append_number (N.parse_name (t.sync_prefix <> ("/" <> edge))) partition,
                    payload,
                  )
                    ∷ [])
              (some-injective v s (sym before ∙ live)) log,
        )
      ]

  PushedAll-cons :
      {S : Type 0} (topic : String) (count : ℕ) (payload : List ℕ) (payloads : List (List ℕ))
      (s s' : Svs) (after : S) (partition : ℕ) (r : Result (Unit {0}) × (Flow N E C K R × S))
      → partition < count
      → published s' ≡ published s ++ (N.append_number (N.parse_name topic) partition, payload) ∷ []
      → PushedAll topic count payloads s' after r
      → PushedAll topic count (payload ∷ payloads) s after r
  PushedAll-cons topic count payload payloads s s' after partition r below log
        (s'', messages, returned, ended, live, rest, carried) =
      let message : N.Name × List ℕ = (N.append_number (N.parse_name topic) partition, payload) in
      (
        s'',
        message ∷ messages,
        returned,
        ended,
        live,
        rest ∙ ap (λ l. l ++ messages) log ∙ append_assoc (published s) (message ∷ []) messages,
        ((partition, below, refl), carried),
      )

  -- Pushes of a ready node to one of its edges all return.
  pub push_all_published :
      {S : Type 0} (edge : String) (pushes : List (S × List ℕ)) (after : S) (t : Flow N E C K R)
      (p : Producer E.State R) (s : Svs)
      → IsReady t
      → lookup edge t.producers ≡ some p
      → t.svs ≡ some s
      → PushedAll
          (t.sync_prefix <> ("/" <> edge))
          p.number_of_partitions
          (map (λ q. q.1) pushes)
          s
          after
          (push_all N E (to_edge edge pushes) after t)
  unfolding push_all PushedOne
  push_all_published edge [] after t p s ready found live =
      (s, [], refl, refl, live, sym (append-nil _), tt)
  push_all_published edge ((now, payload) ∷ pushes) after t p s ready found live =
      let t' = (push_data N E edge payload t).1 in
      let (s', partition, returned, live', below, log) =
        push_data_one edge payload t p s ready found live in
      let (p', found', same_count, same_prefix) = push_data_keeps N E edge payload t p found in
      let payloads = map (λ q. q.1) pushes in
      let topic = t.sync_prefix <> ("/" <> edge) in
      let rest =
        push_all_published edge pushes after t' p' s' (push_data-IsReady N L E edge payload t ready)
          found' live' in
      rw (push_all, returned)
        (PushedAll-cons topic p.number_of_partitions payload payloads s s' after partition
          (push_all N E (to_edge edge pushes) after t') below log
          (subst
            (λ (n : ℕ).
              PushedAll topic n payloads s' after (push_all N E (to_edge edge pushes) after t'))
            same_count
            (subst
              (λ (prefix : String).
                PushedAll (prefix <> ("/" <> edge)) p'.number_of_partitions payloads s' after
                  (push_all N E (to_edge edge pushes) after t'))
              same_prefix rest)))
