-- ===== src/Prelude/Dict.antt =====
-- `std::unordered_map` and `std::map` keyed by strings, as association lists. The order of a real
-- map's entries is unspecified; here they stand in the order of insertion.
use Prim.Native.String.{String}
use mathlib.Core.Path.{◌≡◌, refl, sym, ◌∙◌, subst}
use mathlib.Core.Bool.{Bool, true, false, ◌||◌}
use mathlib.Core.Logic.{inl, inr, ◌≢◌}
use mathlib.Core.Option.{Option, none, some, some-injective}
use mathlib.Core.List.{List, [], ◌∷◌, ◌++◌, map}
use native.Mathlib.Omega.{arith}
use text.Mathlib.Text.{◌==◌}
use text.Mathlib.TextEquality.{eq_iff}
use iceflow.Prelude.Tests.{if◌then◌else◌, has_value, Bool-cases, Option-cases}

abbrev pub Dict {ℓ} : Type ℓ → Type ℓ
Dict V = List (String × V)

module _ {ℓ} {V : Type ℓ} where
  -- `find`, and `at` where the key is known to be there
  abbrev pub lookup : String → Dict V → Option V
  lookup k [] = none
  lookup k ((j, v) ∷ d) = if j == k then some v else lookup k d

  -- `contains`
  abbrev pub contains : String → Dict V → Bool
  contains k d = has_value (lookup k d)

  -- `emplace`: an entry that is there already stays.
  abbrev pub emplace : String → V → Dict V → Dict V
  emplace k v [] = (k, v) ∷ []
  emplace k v ((j, w) ∷ d) = if j == k then (j, w) ∷ d else (j, w) ∷ emplace k v d

  -- `d[k] = v`, and a change made through the reference that `at(k)` returns
  abbrev pub insert : String → V → Dict V → Dict V
  insert k v [] = (k, v) ∷ []
  insert k v ((j, w) ∷ d) = if j == k then (j, v) ∷ d else (j, w) ∷ insert k v d

  abbrev pub keys : Dict V → List String
  keys = map (λ e. e.0)

  -- No key stands twice, as in a real map.
  abbrev pub NodupKeys : Dict V → Type 0
  NodupKeys [] = Unit
  NodupKeys ((k, v) ∷ d) = (contains k d ≡ false) × NodupKeys d

  pub lookup-insert :
      (k j : String) (v : V) (d : Dict V)
      → lookup j (insert k v d) ≡ (if k == j then some v else lookup j d)
  lookup-insert k j v [] = refl
  lookup-insert k j v ((i, w) ∷ d) =
      ground (arith, eq_iff k j, eq_iff i k, eq_iff i j, lookup-insert k j v d)

  pub lookup-emplace :
      (k j : String) (v : V) (d : Dict V)
      → lookup j (emplace k v d)
        ≡ (if has_value (lookup j d) then lookup j d else (if k == j then some v else none))
  lookup-emplace k j v [] = refl
  lookup-emplace k j v ((i, w) ∷ d) =
      ground (arith, eq_iff k j, eq_iff i k, eq_iff i j, lookup-emplace k j v d)

  pub contains-emplace :
      (k j : String) (v : V) (d : Dict V) → contains j (emplace k v d) ≡ (contains j d || (k == j))
  contains-emplace k j v d = ground (arith, lookup-emplace k j v d)

  -- A law of every entry, and of its key.
  abbrev pub AllEntries {κ} : (String → V → Type κ) → Dict V → Type (ℓ ⊔ κ)
  AllEntries P d = (k : String) (v : V) → lookup k d ≡ some v → P k v

  pub insert-AllEntries {κ} :
      (P : String → V → Type κ) (k : String) (v : V) (d : Dict V)
      → P k v
      → AllEntries P d
      → AllEntries P (insert k v d)
  insert-AllEntries P k v d new old j w e = elim (Bool-cases (k == j)) [
    | inl same ↦
        subst (λ i. P i w) ((eq_iff k j).0 same)
          (subst (P k) (some-injective v w (sym (lookup-insert k j v d ∙ rw same) ∙ e)) new)
    | inr other ↦ old j w (sym (lookup-insert k j v d ∙ rw other) ∙ e)
  ]

  pub emplace-AllEntries {κ} :
      (P : String → V → Type κ) (k : String) (v : V) (d : Dict V)
      → P k v
      → AllEntries P d
      → AllEntries P (emplace k v d)
  emplace-AllEntries P k v d new old j w e = elim (Option-cases (lookup j d)) [
    | inr (u, found) ↦ old j w (found ∙ (sym (lookup-emplace k j v d ∙ rw found) ∙ e))
    | inl absent ↦ elim (Bool-cases (k == j)) [
      | inl same ↦
          subst (λ i. P i w) ((eq_iff k j).0 same)
            (subst (P k) (some-injective v w (sym (lookup-emplace k j v d ∙ rw (absent, same)) ∙ e))
              new)
      | inr other ↦ absurd (never (sym (lookup-emplace k j v d ∙ rw (absent, other)) ∙ e))
    ]
  ]
    where
      never : none ≡ some w → ⊥
      never p = cc

  contains-append_middle : (k : String) (v : V) (d e : Dict V) → contains k (d ++ (k, v) ∷ e) ≡ true
  contains-append_middle k v [] e = ground (arith, eq_iff k k)
  contains-append_middle k v ((i, w) ∷ d) e =
      ground (arith, eq_iff i k, contains-append_middle k v d e)

  -- A key that is not there yet goes to the end.
  pub emplace-NodupKeys :
      (k : String) (v : V) (d e : Dict V)
      → NodupKeys (d ++ (k, v) ∷ e)
      → emplace k v d ≡ d ++ (k, v) ∷ []
  emplace-NodupKeys k v [] e h = refl
  emplace-NodupKeys k v ((i, w) ∷ d) e h =
      ground (arith, eq_iff i k, contains-append_middle k v d e, emplace-NodupKeys k v d e h.1)

  -- `emplace` adds no key twice.
  pub NodupKeys-emplace :
      (k : String) (v : V) (d : Dict V) → NodupKeys d → NodupKeys (emplace k v d)
  NodupKeys-emplace k v [] h = (refl, tt)
  NodupKeys-emplace k v ((j, w) ∷ d) h = elim (Bool-cases (j == k)) [
    | inl same ↦ rw same h
    | inr other ↦ rw other (
      ground (arith, contains-emplace k j v d, h.0, other, eq_iff j k, eq_iff k j),
      NodupKeys-emplace k v d h.1,
    )
  ]

pub str_ne : (s t : String) → (s == t) ≡ false → s ≢ t
str_ne s t miss same = ground (arith, eq_iff s t)
