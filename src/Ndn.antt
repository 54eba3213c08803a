-- ===== src/Ndn.antt =====
-- The parts of ndn-cxx and ndn-svs that the code calls: names, the publish/subscribe instance with its
-- subscriptions, and its data store. None of this is implemented in the repository, so the operations
-- are parameters, and `IsLawful` is what their documentation promises.
pub mod Plain
pub mod Messages
use iceflow.Prelude.{
  ℕ, ◌≡◌, ◌≢◌, ◌⊎◌, Bool, true, Option, none, some, List, [], ◌∷◌, ◌++◌, String, ◌==◌,
  if◌then◌else◌,
}

-- Who is called back by a subscription: the consumer of an edge (`IceflowConsumer::subscribeCallBack`),
-- or the lambda that `IceflowProducer::setupBackchannel` makes, with what it has captured.
pub data Handler : Type 0 where
  consumer : (edge_name : String) → Handler
  backchannel : (node_prefix sync_prefix : String) → Handler

pub record Ndn : Type 1 where
  -- `ndn::Name`: from a text, `append` of one component, `appendNumber`
  pub Name : Type 0
  pub parse_name : String → Name
  pub append : Name → String → Name
  pub append_number : Name → ℕ → Name
  -- `isPrefixOf`, by which a published name is matched with a subscription
  pub is_prefix_of : Name → Name → Bool
  -- `ndn::svs::SVSPubSub`, made from a sync prefix and a node prefix
  pub Svs : Type 0
  pub create : Name → Name → Svs
  pub subscribe : Name → Handler → Svs → ℕ × Svs
  pub unsubscribe : ℕ → Svs → Svs
  -- `publish(name, bytes)`, and with a node prefix and a freshness period in seconds
  pub publish : Name → List ℕ → Svs → ℕ × Svs
  pub publish_as : Name → List ℕ → Name → ℕ → Svs → ℕ × Svs
  -- `getSVSync().getDataStore().erase(name)`
  pub erase : Name → Svs → Svs
  -- what can be observed: the subscription behind a handle, what was published, what is stored
  pub subscription : Svs → ℕ → Option (Name × Handler)
  pub published : Svs → List (Name × List ℕ)
  pub stored : Svs → Name → Option (List ℕ)

pub record IsLawful (N : Ndn) : Type 0 where
  pub append_number_injective :
      (n : N.Name) (i j : ℕ) → N.append_number n i ≡ N.append_number n j → i ≡ j
  pub is_prefix_of_refl : (n : N.Name) → N.is_prefix_of n n ≡ true
  -- a new subscription has a handle that is not in use
  pub subscribe_fresh :
      (n : N.Name) (h : Handler) (s : N.Svs) → N.subscription s (N.subscribe n h s).0 ≡ none
  pub subscription-subscribe :
      (n : N.Name) (h : Handler) (s : N.Svs) (k : ℕ)
      → N.subscription (N.subscribe n h s).1 k
        ≡ (if k == (N.subscribe n h s).0 then some (n, h) else N.subscription s k)
  pub subscription-unsubscribe :
      (j : ℕ) (s : N.Svs) (k : ℕ)
      → N.subscription (N.unsubscribe j s) k ≡ (if k == j then none else N.subscription s k)
  pub subscription-publish :
      (n : N.Name) (d : List ℕ) (s : N.Svs) (k : ℕ)
      → N.subscription (N.publish n d s).1 k ≡ N.subscription s k
  pub subscription-publish_as :
      (n : N.Name) (d : List ℕ) (p : N.Name) (t : ℕ) (s : N.Svs) (k : ℕ)
      → N.subscription (N.publish_as n d p t s).1 k ≡ N.subscription s k
  pub subscription-create : (n p : N.Name) (k : ℕ) → N.subscription (N.create n p) k ≡ none
  pub subscription-erase :
      (n : N.Name) (s : N.Svs) (k : ℕ) → N.subscription (N.erase n s) k ≡ N.subscription s k
  pub published-unsubscribe : (j : ℕ) (s : N.Svs) → N.published (N.unsubscribe j s) ≡ N.published s
  pub published-erase : (n : N.Name) (s : N.Svs) → N.published (N.erase n s) ≡ N.published s
  pub published-create : (n p : N.Name) → N.published (N.create n p) ≡ []
  pub published-subscribe :
      (n : N.Name) (h : Handler) (s : N.Svs) → N.published (N.subscribe n h s).1 ≡ N.published s
  pub published-publish :
      (n : N.Name) (d : List ℕ) (s : N.Svs)
      → N.published (N.publish n d s).1 ≡ N.published s ++ (n, d) ∷ []
  pub published-publish_as :
      (n : N.Name) (d : List ℕ) (p : N.Name) (t : ℕ) (s : N.Svs)
      → N.published (N.publish_as n d p t s).1 ≡ N.published s ++ (n, d) ∷ []
  pub stored-erase : (n : N.Name) (s : N.Svs) → N.stored (N.erase n s) n ≡ none
  pub stored-erase_other :
      (n m : N.Name) (s : N.Svs) → (m ≡ n) ⊎ (N.stored (N.erase n s) m ≡ N.stored s m)

-- A prefix of a name with one more component is that name or a prefix of the rest; a number is encoded
-- as another component than a text of eleven letters.
pub record TellsApart (N : Ndn) : Type 0 where
  pub is_prefix_of-append :
      (p n : N.Name) (c : String)
      → N.is_prefix_of p (N.append n c) ≡ true
      → (p ≡ N.append n c) ⊎ (N.is_prefix_of p n ≡ true)
  pub is_prefix_of-append_number :
      (p n : N.Name) (i : ℕ)
      → N.is_prefix_of p (N.append_number n i) ≡ true
      → (p ≡ N.append_number n i) ⊎ (N.is_prefix_of p n ≡ true)
  pub number-ne-backchannel :
      (n m : N.Name) (i : ℕ) → N.append_number n i ≢ N.append m "backchannel"

-- The random number engine of a producer, `std::mt19937`: a state and the next word.
pub record Generator : Type 1 where
  pub State : Type 0
  pub seeded : ℕ → State
  pub next : State → ℕ × State
