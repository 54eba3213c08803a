-- ===== src/Producer/Topics.antt =====
-- Which partitions a producer has, and which one a message goes to.
use Prim.Native.String.{◌++◌ as ◌<>◌}
use iceflow.Prelude.{
  ℕ, zero, suc, ◌+◌, ◌%◌, ◌^◌, ◌<◌, ◌≡◌, ◌≢◌, refl, true, ◌&&◌, Option, none, some, List, [], ◌∷◌,
  ◌++◌, arith, String, is_listed, is_listed-append, ltb, NoRepeats, NoRepeats-append, ◌⊎◌, inl, inr,
  ◌↔◌, subst,
}
use iceflow.Prelude.Errors.{ok, throw, invalid_argument}
use iceflow.Ndn.{Ndn, IsLawful, Handler, Generator}
use iceflow.Producer.{
  Producer, set_emplace, emplace_partitions, set_topic_partitions, blank, create, push_data,
}

-- The first `i` numbers that fit a `uint32_t`, each once.
record Holds (i : ℕ) (partitions : List ℕ) : Type 0 where
  listed : (k : ℕ) → is_listed k partitions ≡ (ltb k i && ltb k (2 ^ 32))
  distinct : NoRepeats partitions

set_emplace-Holds :
    (i : ℕ) (partitions : List ℕ)
    → Holds i partitions
    → Holds (i + 1) (set_emplace (i % 2 ^ 32) partitions)
unfolding set_emplace
set_emplace-Holds i partitions h = record {
  listed = λ k.
      ground (
        arith,
        h.listed k,
        h.listed (i % 2 ^ 32),
        is_listed-append k partitions ((i % 2 ^ 32) ∷ []),
      );
  distinct = ground (arith, h.distinct, NoRepeats-append partitions (i % 2 ^ 32) h.distinct);
}

emplace_partitions-Holds :
    (left i : ℕ) (partitions : List ℕ)
    → Holds i partitions
    → Holds (i + left) (emplace_partitions left i partitions)
unfolding emplace_partitions
emplace_partitions-Holds zero i partitions h = let e : i ≡ i + 0 = omega arith in rw (← e) h
emplace_partitions-Holds (suc left) i partitions h =
    let e : i + 1 + left ≡ i + suc left = omega arith in
    rw (← e) (emplace_partitions-Holds left (i + 1) _ (set_emplace-Holds i partitions h))

listed_below : (i k : ℕ) → ((ltb k i && ltb k (2 ^ 32)) ≡ true) ↔ ((k < i) × (k < 2 ^ 32))
listed_below i k = ground arith

module _ {G R : Type 0} where
  -- `setTopicPartitions` throws for 0. Otherwise the set of topic partitions becomes exactly the
  -- numbers below the argument that fit 32 bits, each once, and no other field changes.
  pub set_topic_partitions_lem :
      (n : ℕ) (p : Producer G R)
      → ((n ≡ 0)
          × (set_topic_partitions n p
              ≡ throw (invalid_argument "At least one topic partition has to be defined!")))
        ⊎ ((partitions : List ℕ) × (n ≢ 0)
            × (set_topic_partitions n p ≡ ok (record p { topic_partitions = partitions }))
            × ((k : ℕ) → (is_listed k partitions ≡ true) ↔ ((k < n) × (k < 2 ^ 32)))
            × NoRepeats partitions)
  unfolding set_topic_partitions
  set_topic_partitions_lem zero p = inl (refl, refl)
  set_topic_partitions_lem (suc n) p =
      let e : 0 + suc n ≡ suc n = omega arith in
      let h : Holds (suc n) (emplace_partitions (suc n) 0 []) =
        subst (λ m. Holds m (emplace_partitions (suc n) 0 [])) e
          (emplace_partitions-Holds (suc n) 0 []
            (record { listed = λ k. ground arith; distinct = tt })) in
      inr (
        emplace_partitions (suc n) 0 [],
        (λ z. omega arith),
        ground arith,
        (λ k. rw (h.listed k) (listed_below (suc n) k)),
        h.distinct,
      )

module _ (N : Ndn) (L : IsLawful N) (E : Generator) {R : Type 0} where
  open N use {Name, Svs, published}

  -- A producer of at least one partition publishes each message once, under its topic and the number
  -- of one of its partitions.
  pub push_data_published :
      (payload : List ℕ) (p : Producer E.State R) (s : Svs)
      → 0 < p.number_of_partitions
      → (partition : ℕ) × (s' : Svs) × ((push_data N E payload p (some s)).1 ≡ some s')
        × (partition < p.number_of_partitions)
        × (published s'
            ≡ published s ++ (N.append_number (N.parse_name p.pub_topic) partition, payload) ∷ [])
  unfolding push_data
  push_data_published payload p s h = (
    (E.next p.random_number_generator).0 % p.number_of_partitions,
    _,
    refl,
    omega arith,
    L.published-publish_as _ _ _ _ s,
  )

  -- Setting the number of topic partitions of a producer does not change where its messages go: the
  -- next one goes where it would have gone, and so on, since the generator is left in the same state.
  pub push_data-set_topic_partitions :
      (n : ℕ) (p p' : Producer E.State R) (payload : List ℕ) (svs : Option Svs)
      → set_topic_partitions n p ≡ ok p'
      → ((push_data N E payload p' svs).1 ≡ (push_data N E payload p svs).1)
        × (set_topic_partitions n (push_data N E payload p svs).0
            ≡ ok (push_data N E payload p' svs).0)
  unfolding push_data set_topic_partitions
  push_data-set_topic_partitions n p p' payload none h = ground arith
  push_data-set_topic_partitions n p p' payload (some s) h = ground arith

module _ (N : Ndn) (E : Generator) {R : Type 0} where
  -- With a live SVS instance, the constructor throws for an edge of no partitions. Otherwise the
  -- producer keeps the number, its topic is the sync prefix and the edge's name, it has no time
  -- stamp yet, and it has subscribed to the back channel of that topic.
  pub create_cases :
      (node_prefix sync_prefix edge : String) (n : ℕ) (reporter : Option R) (seed : ℕ) (s : N.Svs)
      → ((n ≡ 0)
          × (create N E node_prefix sync_prefix edge n reporter seed (some s)
              ≡ throw (invalid_argument "At least one topic partition has to be defined!")))
        ⊎ ((p : Producer E.State R) × (let topic = sync_prefix <> ("/" <> edge) in
              let backchannel = N.append (N.parse_name topic) "backchannel" in
              create N E node_prefix sync_prefix edge n reporter seed (some s)
              ≡ ok (
                p,
                some (N.subscribe backchannel (Handler.backchannel node_prefix sync_prefix) s).1,
              ))
            × (n ≢ 0)
            × (p.number_of_partitions ≡ n)
            × (p.pub_topic ≡ sync_prefix <> ("/" <> edge))
            × (p.production_timestamps ≡ []))
  unfolding create
  create_cases node_prefix sync_prefix edge n reporter seed s =
      elim (set_topic_partitions_lem n (blank N E node_prefix sync_prefix edge n reporter seed)) [
        | inl (z, e) ↦ inl (z, rw e)
        | inr (ps, nz, e, _, _) ↦
            let q : Producer E.State R =
              record (blank N E node_prefix sync_prefix edge n reporter seed) {
                topic_partitions = ps;
              } in
            inr (q, rw e, nz, refl, refl, refl)
      ]
