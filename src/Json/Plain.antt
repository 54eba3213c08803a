-- ===== src/Json/Plain.antt =====
-- A small JSON library that meets what is assumed of nlohmann::json, for tests and examples.
use iceflow.Prelude.{
  ℕ, ◌≡◌, refl, ap, ◌∙◌, Bool, true, false, List, [], ◌∷◌, Option, none, some, String, has_value,
}
use iceflow.Prelude.Errors.{Result, ok, throw, json_exception}
use iceflow.Prelude.Dict.{Dict, lookup}
use iceflow.Json.{Json, Documents, DumpsNumbers, or_throw, value_or, string_or}

mutual
  pub data Tree : Type 0 where
    text : String → Tree
    number : ℕ → Tree
    array : Trees → Tree
    fields : Entries → Tree

  pub data Trees : Type 0 where
    nil : Trees
    cons : Tree → Trees → Trees

  pub data Entries : Type 0 where
    end : Entries
    entry : String → Tree → Entries → Entries

abbrev pub to_trees : List Tree → Trees
to_trees [] = nil
to_trees (t ∷ ts) = cons t (to_trees ts)

abbrev pub from_trees : Trees → List Tree
from_trees nil = []
from_trees (cons t ts) = t ∷ from_trees ts

abbrev pub to_entries : Dict Tree → Entries
to_entries [] = end
to_entries ((k, t) ∷ d) = entry k t (to_entries d)

abbrev pub from_entries : Entries → Dict Tree
from_entries end = []
from_entries (entry k t es) = (k, t) ∷ from_entries es

pub from_trees-to_trees : (ts : List Tree) → from_trees (to_trees ts) ≡ ts
from_trees-to_trees [] = refl
from_trees-to_trees (t ∷ ts) = λ i. t ∷ from_trees-to_trees ts i

pub from_entries-to_entries : (d : Dict Tree) → from_entries (to_entries d) ≡ d
from_entries-to_entries [] = refl
from_entries-to_entries ((k, t) ∷ d) = λ i. (k, t) ∷ from_entries-to_entries d i

abbrev pub members : Tree → Dict Tree
members (fields es) = from_entries es
members _ = []

abbrev pub get_string : Tree → Result String
get_string (text s) = ok s
get_string _ = throw json_exception

abbrev pub get_number : Tree → Result ℕ
get_number (number n) = ok n
get_number _ = throw json_exception

abbrev pub elements : Tree → List Tree
elements (array ts) = from_trees ts
elements _ = []

abbrev pub is_number : Tree → Bool
is_number (number n) = true
is_number _ = false

abbrev pub parse : List ℕ → Result Tree
parse (n ∷ []) = ok (number n)
parse _ = throw json_exception

abbrev pub plain : Json
plain = record {
  Value = Tree;
  Object = Tree;
  at = λ j k. or_throw (lookup k (members j));
  contains = λ j k. has_value (lookup k (members j));
  get_string = get_string;
  get_uint32 = get_number;
  get_uint64 = get_number;
  get_object = λ j. ok j;
  elements = elements;
  items = members;
  value_string =
      λ j k default. elim (lookup k (members j)) [ none ↦ ok default | some v ↦ get_string v ];
  value_json = λ j k default. ok (value_or (lookup k (members j)) default);
  object = fields end;
  object_contains = λ j k. has_value (lookup k (members j));
  object_at = λ j k. or_throw (lookup k (members j));
  parse = parse;
  is_number_integer = is_number;
  dump_number = λ n. n ∷ [];
}

abbrev pub plain_dumps : DumpsNumbers plain
plain_dumps = record {
  numeral = number;
  parse-dump_number = λ n. refl;
  numeral_is_integer = λ n. refl;
  get_uint64-numeral = λ n h. refl;
}

abbrev string_from : String → Option Tree → Result String
string_from default o = elim o [ none ↦ ok default | some v ↦ get_string v ]

string_from_lem :
    (default : String) (o : Option Tree) → string_from default o ≡ string_or plain o default
string_from_lem default none = refl
string_from_lem default (some v) = refl

module _ (d : Dict Tree) (k : String) where
  pub plain_at : or_throw (lookup k (from_entries (to_entries d))) ≡ or_throw (lookup k d)
  plain_at = rw (from_entries-to_entries d)

  pub plain_contains : has_value (lookup k (from_entries (to_entries d))) ≡ has_value (lookup k d)
  plain_contains = rw (from_entries-to_entries d)

  pub plain_value_string :
      (default : String)
      → elim (lookup k (from_entries (to_entries d))) [ none ↦ ok default | some v ↦ get_string v ]
        ≡ string_or plain (lookup k d) default
  plain_value_string default =
      ap (λ (e : Dict Tree). string_from default (lookup k e)) (from_entries-to_entries d)
      ∙ string_from_lem default (lookup k d)

  pub plain_value_json :
      (default : Tree)
      → plain.value_json (fields (to_entries d)) k default ≡ ok (value_or (lookup k d) default)
  plain_value_json default = rw (from_entries-to_entries d)

abbrev pub plain_documents : Documents plain
plain_documents = record {
  text = text;
  number = number;
  array = λ ts. array (to_trees ts);
  fields = λ d. fields (to_entries d);
  from_object = λ o. o;
  IsOrdered = λ ks. Unit;
  get_string-text = λ s. refl;
  get_uint32-number = λ n h. refl;
  get_object-from_object = λ o. refl;
  elements-array = from_trees-to_trees;
  items-fields = λ d u h. from_entries-to_entries d;
  at-fields = plain_at;
  contains-fields = plain_contains;
  value_string-fields = plain_value_string;
  value_json-fields = plain_value_json;
}
