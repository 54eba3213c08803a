-- ===== src/Ndn/Plain.antt =====
-- A small publish/subscribe instance and a generator that meet what is assumed, for tests and examples.
use iceflow.Prelude.{
  ℕ, ◌+◌, ◌≤◌, ◌<◌, ◌≡◌, ◌≢◌, refl, ap, sym, ◌∙◌, Bool, true, false, ◌&&◌, ◌⊎◌, inl, inr, ◌↔◌,
  Option, none, some, List, [], ◌∷◌, ◌++◌, arith, String, ◌==◌, str_eq, str_eq_iff, if◌then◌else◌,
  Bool-cases,
}
use iceflow.Ndn.{Ndn, IsLawful, TellsApart, Handler, Generator}

-- A component is a text or a number.
pub data Component : Type 0 where
  text : String → Component
  number : ℕ → Component

abbrev pub component_eq : Component → Component → Bool
component_eq (text s) (text t) = str_eq s t
component_eq (number m) (number n) = m == n
component_eq _ _ = false

abbrev pub name_eq : List Component → List Component → Bool
name_eq [] [] = true
name_eq (c ∷ m) (d ∷ n) = component_eq c d && name_eq m n
name_eq _ _ = false

component_eq_lem : (c d : Component) → (component_eq c d ≡ true) ↔ (c ≡ d)
component_eq_lem (text s) (text t) = ground (arith, str_eq_iff s t)
component_eq_lem (text s) (number n) = ground arith
component_eq_lem (number n) (text s) = ground arith
component_eq_lem (number m) (number n) = ground arith

pub name_eq_lem : (m n : List Component) → (name_eq m n ≡ true) ↔ (m ≡ n)
name_eq_lem [] [] = ground arith
name_eq_lem [] (d ∷ n) = ground arith
name_eq_lem (c ∷ m) [] = ground arith
name_eq_lem (c ∷ m) (d ∷ n) = ground (arith, component_eq_lem c d, name_eq_lem m n)

abbrev pub PlainName : Type 0
PlainName = List Component

abbrev pub name_begins : PlainName → PlainName → Bool
name_begins [] n = true
name_begins (c ∷ p) [] = false
name_begins (c ∷ p) (d ∷ n) = component_eq c d && name_begins p n

-- The entries are newest first.
pub record Instance : Type 0 where
  pub entries : List (ℕ × PlainName × Handler)
  pub log : List (PlainName × List ℕ)
  pub data_store : List (PlainName × List ℕ)

-- A handle above all that are in use.
abbrev pub next_handle : List (ℕ × PlainName × Handler) → ℕ
next_handle [] = 1
next_handle ((k, _, _) ∷ es) = k + next_handle es

abbrev pub find_handle : ℕ → List (ℕ × PlainName × Handler) → Option (PlainName × Handler)
find_handle k [] = none
find_handle k ((j, n, h) ∷ es) = if k == j then some (n, h) else find_handle k es

abbrev pub drop_handle : ℕ → List (ℕ × PlainName × Handler) → List (ℕ × PlainName × Handler)
drop_handle k [] = []
drop_handle k ((j, n, h) ∷ es) =
    let rest = drop_handle k es in if j == k then rest else (j, n, h) ∷ rest

abbrev pub find_data : PlainName → List (PlainName × List ℕ) → Option (List ℕ)
find_data n [] = none
find_data n ((m, d) ∷ store) = if name_eq m n then some d else find_data n store

abbrev pub drop_data : PlainName → List (PlainName × List ℕ) → List (PlainName × List ℕ)
drop_data n [] = []
drop_data n ((m, d) ∷ store) =
    let rest = drop_data n store in if name_eq m n then rest else (m, d) ∷ rest

abbrev pub plain_ndn : Ndn
plain_ndn = record {
  Name = PlainName;
  parse_name = λ s. text s ∷ [];
  append = λ n s. n ++ text s ∷ [];
  append_number = λ n k. n ++ number k ∷ [];
  is_prefix_of = name_begins;
  Svs = Instance;
  create = λ sync node. record { entries = []; log = []; data_store = [] };
  subscribe = λ n h s.
      (next_handle s.entries, record s { entries = (next_handle s.entries, n, h) ∷ s.entries });
  unsubscribe = λ k s. record s { entries = drop_handle k s.entries };
  publish = λ n d s. (0, record s { log = s.log ++ (n, d) ∷ [] });
  publish_as = λ n d p t s. (0, record s { log = s.log ++ (n, d) ∷ [] });
  erase = λ n s. record s { data_store = drop_data n s.data_store };
  subscription = λ s k. find_handle k s.entries;
  published = λ s. s.log;
  stored = λ s n. find_data n s.data_store;
}

find_handle-above :
    (es : List (ℕ × PlainName × Handler)) (k : ℕ) → next_handle es ≤ k → find_handle k es ≡ none
find_handle-above [] k h = refl
find_handle-above ((j, n, c) ∷ es) k h = ground (arith, next_handle-pos es, find_handle-above es k)
  where
    next_handle-pos : (es : List (ℕ × PlainName × Handler)) → 0 < next_handle es
    next_handle-pos [] = omega arith
    next_handle-pos ((k, _, _) ∷ es) = omega (arith, next_handle-pos es)

find_handle-drop_handle :
    (j : ℕ) (es : List (ℕ × PlainName × Handler)) (k : ℕ)
    → find_handle k (drop_handle j es) ≡ (if k == j then none else find_handle k es)
find_handle-drop_handle j [] k = ground arith
find_handle-drop_handle j ((i, n, h) ∷ es) k = ground (arith, find_handle-drop_handle j es k)

find_data-drop_data :
    (n : PlainName) (store : List (PlainName × List ℕ)) → find_data n (drop_data n store) ≡ none
find_data-drop_data n [] = refl
find_data-drop_data n ((m, d) ∷ store) = ground (arith, find_data-drop_data n store)

find_data-drop_data_ne :
    (n m : PlainName) (store : List (PlainName × List ℕ))
    → name_eq m n ≡ false
    → find_data m (drop_data n store) ≡ find_data m store
find_data-drop_data_ne n m [] h = refl
find_data-drop_data_ne n m ((i, d) ∷ store) h =
    ground
      (arith, name_eq_lem i n, name_eq_lem i m, name_eq_lem m n, find_data-drop_data_ne n m store h)

find_data-drop_data_other :
    (n m : PlainName) (store : List (PlainName × List ℕ))
    → (m ≡ n) ⊎ (find_data m (drop_data n store) ≡ find_data m store)
find_data-drop_data_other n m store = elim (Bool-cases (name_eq m n)) [
  | inl same ↦ inl ((name_eq_lem m n).0 same)
  | inr other ↦ inr (find_data-drop_data_ne n m store other)
]

number_inj : (n : PlainName) (i j : ℕ) → n ++ number i ∷ [] ≡ n ++ number j ∷ [] → i ≡ j
number_inj [] i j e = cc
number_inj (c ∷ n) i j e = number_inj n i j (cc)

name_begins_refl : (n : PlainName) → name_begins n n ≡ true
name_begins_refl [] = refl
name_begins_refl (c ∷ n) = ground (arith, component_eq_lem c c, name_begins_refl n)

pub plain_ndn-IsLawful : IsLawful plain_ndn
plain_ndn-IsLawful = record {
  append_number_injective = number_inj;
  is_prefix_of_refl = name_begins_refl;
  subscribe_fresh = λ n h s. find_handle-above s.entries _ (omega arith);
  subscription-subscribe = λ n h s k. refl;
  subscription-unsubscribe = λ j s k. find_handle-drop_handle j s.entries k;
  subscription-publish = λ n d s k. refl;
  subscription-publish_as = λ n d p t s k. refl;
  subscription-create = λ n p k. refl;
  subscription-erase = λ n s k. refl;
  published-unsubscribe = λ j s. refl;
  published-erase = λ n s. refl;
  published-create = λ n p. refl;
  published-subscribe = λ n h s. refl;
  published-publish = λ n d s. refl;
  published-publish_as = λ n d p t s. refl;
  stored-erase = λ n s. find_data-drop_data n s.data_store;
  stored-erase_other = λ n m s. find_data-drop_data_other n m s.data_store;
}

prefix_of_longer :
    (p n : PlainName) (c : Component)
    → name_begins p (n ++ c ∷ []) ≡ true
    → (p ≡ n ++ c ∷ []) ⊎ (name_begins p n ≡ true)
prefix_of_longer [] n c h = inr refl
prefix_of_longer (d ∷ []) [] c h = ground (arith, component_eq_lem d c)
prefix_of_longer (d ∷ (e ∷ p)) [] c h = ground (arith, component_eq_lem d c)
prefix_of_longer (d ∷ p) (e ∷ n) c h = ground (arith, component_eq_lem d e, prefix_of_longer p n c)

abbrev last_of : Component → PlainName → Component
last_of c [] = c
last_of c (d ∷ n) = last_of d n

last_of-append : (n : PlainName) (b c : Component) → last_of b (n ++ c ∷ []) ≡ c
last_of-append [] b c = refl
last_of-append (d ∷ n) b c = last_of-append n d c

pub plain_ndn-TellsApart : TellsApart plain_ndn
plain_ndn-TellsApart = record {
  is_prefix_of-append = λ p n c. prefix_of_longer p n (text c);
  is_prefix_of-append_number = λ p n i. prefix_of_longer p n (number i);
  number-ne-backchannel = λ n m i e. apart i (
      sym (last_of-append n (number 0) (number i))
      ∙ (ap (last_of (number 0)) e ∙ last_of-append m (number 0) (text "backchannel")));
}
  where
    apart : (i : ℕ) → number i ≢ text "backchannel"
    apart i e = cc

-- The words that are left, and 0 after them.
abbrev pub draw : List ℕ → ℕ × List ℕ
draw [] = (0, [])
draw (w ∷ ws) = (w, ws)

abbrev pub listed_words : Generator
listed_words = record { State = List ℕ; seeded = λ seed. seed ∷ []; next = draw }
